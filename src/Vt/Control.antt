-- ===== src/Vt/Control.antt =====
-- C0 controls (_lib/vt.c, handle_c0).
use u.Common.{ℕ, zero, suc, ◌+◌, ◌-◌, false, Option, some, ◌||◌, ltb, ◌==◌, if◌then◌else◌, ◌>>=◌}
use u.Common.Buffer.{Buffer}
use u.Vt.Types.{Screen, VtParser}
use u.Vt.Tabs.{tab_get}
use u.Vt.Scroll.{do_lf}

-- The `do … while` of HT: the column goes up by one, and again until it is the last one or a tab
-- stop. Each round needs a column that is not the last, so `cols` rounds are enough.
unfoldable pub tab_forward : ℕ → Buffer ℕ → ℕ → ℕ → Option ℕ
tab_forward zero t cols col = some col
tab_forward (suc n) t cols col =
    if ltb (col + 1) (cols - 1)
    then (do
      stop ← tab_get t (col + 1)
      if stop then some (col + 1) else tab_forward n t cols (col + 1))
    else some (col + 1)

unfoldable pub handle_ht : VtParser → Option VtParser
handle_ht p = do
  let s = p.scr
  col ←
      (if ltb s.cur_col (s.cols - 1)
        then tab_forward s.cols p.tabstops s.cols s.cur_col
        else some s.cur_col)
  some (record p { scr = record s { cur_col = col; pending_wrap = false } })

unfoldable pub handle_bs : Screen → Screen
handle_bs s =
    if ltb 0 s.cur_col then record s { cur_col = s.cur_col - 1; pending_wrap = false } else s

unfoldable pub handle_c0 : VtParser → ℕ → Option VtParser
handle_c0 p c =
    if c == 0x08
    then some (record p { scr = handle_bs p.scr })
    else if c == 0x09
    then handle_ht p
    else if c == 0x0A || c == 0x0B || c == 0x0C
    then (do s ← do_lf p.scr; some (record p { scr = s }))
    else if c == 0x0D
    then some (record p { scr = record p.scr { cur_col = 0; pending_wrap = false } })
    else some p
