-- ===== src/Vt/Csi/Move.antt =====
-- The cases of dispatch_csi (_lib/vt.c) that move the cursor, and those that set modes, tab stops,
-- the scroll region and the saved cursor.
use u.Common.{
  ℕ, zero, suc, ◌+◌, ◌-◌, Bool, true, false, Option, some, ◌&&◌, ◌||◌, ltb, leb, ◌==◌,
  if◌then◌else◌, ◌>>=◌,
}
use u.Common.Buffer.{Buffer}
use u.Common.Int.{pos, sub_ℕ}
use u.Vt.Types.{Screen, VtParser}
use u.Vt.Tabs.{tab_get, tab_clear}
use u.Vt.Scroll.{cursor_set}
use u.Vt.Control.{handle_c0}

-- The macro `P(i, def)`. It is used with `i` 0 and 1, inside the array of 16.
unfoldable pub param : VtParser → ℕ → ℕ → ℕ
param p i def = if ltb i p.num_params && ltb 0 (p.params.at i) then p.params.at i else def

unfoldable pub is_cursor_final : ℕ → Bool
is_cursor_final c = (leb b'A' c && leb c b'H') || c == b'd' || c == b'f'

-- `A` to `H`, `d` and `f`
unfoldable pub csi_cursor : VtParser → ℕ → Screen
csi_cursor p final =
    let s = p.scr in
    let n = param p 0 1 in
    if final == b'A'
    then cursor_set s (sub_ℕ s.cur_row n) (pos s.cur_col)
    else if final == b'B'
    then cursor_set s (pos (s.cur_row + n)) (pos s.cur_col)
    else if final == b'C'
    then cursor_set s (pos s.cur_row) (pos (s.cur_col + n))
    else if final == b'D'
    then cursor_set s (pos s.cur_row) (sub_ℕ s.cur_col n)
    else if final == b'E'
    then cursor_set s (pos (s.cur_row + n)) (pos 0)
    else if final == b'F'
    then cursor_set s (sub_ℕ s.cur_row n) (pos 0)
    else if final == b'G'
    then cursor_set s (pos s.cur_row) (sub_ℕ n 1)
    else if final == b'd'
    then cursor_set s (sub_ℕ n 1) (pos s.cur_col)
    else cursor_set s (if s.origin_mode then sub_ℕ (n + s.scroll_top) 1 else sub_ℕ n 1)
        (sub_ℕ (param p 1 1) 1)

-- `I`: `n` times HT
unfoldable pub csi_cht : ℕ → VtParser → Option VtParser
csi_cht zero p = some p
csi_cht (suc n) p = do p' ← handle_c0 p 0x09; csi_cht n p'

-- The inner loop of CBT, which runs while the column is above 0 and not a tab stop.
unfoldable pub tab_back : Buffer ℕ → ℕ → Option ℕ
tab_back t zero = some zero
tab_back t (suc c) = do stop ← tab_get t (suc c); if stop then some (suc c) else tab_back t c

-- The outer loop of CBT.
unfoldable pub cbt_loop : Buffer ℕ → ℕ → ℕ → Option ℕ
cbt_loop t zero col = some col
cbt_loop t (suc n) col =
    if ltb 0 col then (do col' ← tab_back t (col - 1); cbt_loop t n col') else some col

-- `Z`
unfoldable pub csi_cbt : VtParser → ℕ → Option Screen
csi_cbt p n = do
  col ← cbt_loop p.tabstops n p.scr.cur_col
  some (record p.scr { cur_col = col; pending_wrap = false })

-- `h` and `l`: insert mode
unfoldable pub set_insert : Screen → ℕ → ℕ → Screen
set_insert s m final = if m == 4 then record s { insert_mode = final == b'h' } else s

-- `g`: one tab stop, or all of them
unfoldable pub csi_tbc : VtParser → Option VtParser
csi_tbc p =
    if param p 0 0 == 0
    then (do t ← tab_clear p.tabstops p.scr.cur_col; some (record p { tabstops = t }))
    else if param p 0 0 == 3
    then some (record p { tabstops = record p.tabstops { at = λ i. 0 } })
    else some p

-- `r`: the scroll region, then the cursor goes home
unfoldable pub set_region : VtParser → Screen
set_region p =
    let s = p.scr in
    let top = param p 0 1 - 1 in
    let low = param p 1 s.rows - 1 in
    let bot = if leb s.rows low then s.rows - 1 else low in
    let s' = if ltb top bot then record s { scroll_top = top; scroll_bottom = bot } else s in
    cursor_set s' (pos (if s'.origin_mode then s'.scroll_top else 0)) (pos 0)

-- `s`, and DECSC
unfoldable pub save_cursor : Screen → Screen
save_cursor s = record s {
  saved_row = s.cur_row;
  saved_col = s.cur_col;
  saved_fg = s.cur_fg;
  saved_bg = s.cur_bg;
  saved_attrs = s.cur_attrs;
  saved_wrap = s.auto_wrap;
}

-- `u`, and DECRC
unfoldable pub restore_cursor : Screen → Screen
restore_cursor s = record s {
  cur_row = s.saved_row;
  cur_col = s.saved_col;
  cur_fg = s.saved_fg;
  cur_bg = s.saved_bg;
  cur_attrs = s.saved_attrs;
  auto_wrap = s.saved_wrap;
  pending_wrap = false;
}

-- `n`: the report of the cursor's position is asked for
unfoldable pub csi_status : VtParser → VtParser
csi_status p = if param p 0 0 == 6 then record p { cpr_requested = true } else p
