-- ===== src/Vt/Scroll.antt =====
-- Scrolling (_lib/vt.c, scroll_up and scroll_down) and the moves of the cursor that may scroll.
pub mod Contents
use u.Common.{
  ℕ, zero, suc, ◌+◌, ◌-◌, Bool, false, Option, none, some, not, ◌&&◌, ltb, leb, ◌==◌, if◌then◌else◌,
  check, ◌>>=◌,
}
use u.Common.Buffer.{Buffer, read, write, fill}
use u.Common.Int.{ℤ, at_least, at_most}
use u.Vt.Types.{Cell, Grid, Screen}
use u.Vt.Cells.{clear_row_range, move_rows, put_row}
use u.Vt.Scrollback.{scrollback_capture}

-- `memmove(&f[to], &f[from], n)`
unfoldable pub move_flags : Buffer ℕ → ℕ → ℕ → ℕ → Option (Buffer ℕ)
move_flags f to from n =
    check (leb (to + n) f.size && leb (from + n) f.size)
      (record f { at = λ i. if leb to i && ltb i (to + n) then f.at (from + (i - to)) else f.at i })

-- The row flags of a screen may be missing (NULL): then what the code does to them is skipped.
unfoldable pub with_flags :
    Option (Buffer ℕ) → (Buffer ℕ → Option (Buffer ℕ)) → Option (Option (Buffer ℕ))
with_flags none k = some none
with_flags (some f) k = do f' ← k f; some (some f')

-- `fsave ? fsave[i] : 0`
unfoldable pub flag_of : Option (Buffer ℕ) → ℕ → Option ℕ
flag_of none r = some 0
flag_of (some f) r = read f r

-- The rows `r`, `r + 1`, … that are about to go are captured, `n` of them.
unfoldable pub capture_rows : Screen → ℕ → ℕ → Option Screen
capture_rows s r zero = some s
capture_rows s r (suc n) = do
  rflags ← flag_of s.row_flags r
  s' ← scrollback_capture s s.cells r rflags
  capture_rows s' (r + 1) n

-- The recycled rows are put back at `to`, `to + 1`, … and blanked. `save i` is row `i` of those
-- that were taken out.
unfoldable pub recycle : Screen → Grid → (ℕ → ℕ → Cell) → ℕ → ℕ → ℕ → Option Grid
recycle s g save i to zero = some g
recycle s g save i to (suc n) = do
  g' ← put_row g to (save i)
  g'' ← clear_row_range s g' to 0 (s.cols - 1)
  recycle s g'' save (i + 1) (to + 1) n

-- `if (n > height) n = height;`
abbrev pub clip : ℕ → ℕ → ℕ
clip n height = if ltb height n then height else n

-- The body of `scroll_up` for `n` rows, `1 ≤ n ≤ height`.
unfoldable pub scroll_up_by : Screen → ℕ → ℕ → Option Screen
scroll_up_by s height n = do
  let top = s.scroll_top
  let fresh = s.scroll_bottom + 1 - n
  s' ← (if s.scroll_top == 0 && not s.in_alt_screen then capture_rows s top n else some s)
  moved ← move_rows s.cells top (top + n) (height - n)
  flags ←
      with_flags s.row_flags
        (λ f. do f' ← move_flags f top (top + n) (height - n); fill f' fresh n 0)
  g ← recycle s moved (λ i. s.cells.at (top + i)) 0 fresh n
  some (record s' { cells = g; row_flags = flags })

unfoldable pub scroll_up : Screen → ℕ → Option Screen
scroll_up s n =
    let height = s.scroll_bottom + 1 - s.scroll_top in
    if n == 0 then some s else scroll_up_by s height (clip n height)

-- The body of `scroll_down` for `n` rows, `1 ≤ n ≤ height`.
unfoldable pub scroll_down_by : Screen → ℕ → ℕ → Option Screen
scroll_down_by s height n = do
  let top = s.scroll_top
  moved ← move_rows s.cells (top + n) top (height - n)
  flags ←
      with_flags s.row_flags (λ f. do f' ← move_flags f (top + n) top (height - n); fill f' top n 0)
  g ← recycle s moved (λ i. s.cells.at (s.scroll_bottom + 1 - n + i)) 0 top n
  some (record s { cells = g; row_flags = flags })

unfoldable pub scroll_down : Screen → ℕ → Option Screen
scroll_down s n =
    let height = s.scroll_bottom + 1 - s.scroll_top in
    if n == 0 then some s else scroll_down_by s height (clip n height)

unfoldable pub cursor_set : Screen → ℤ → ℤ → Screen
cursor_set s row col =
    let min_row : ℕ = if s.origin_mode then s.scroll_top else 0 in
    let max_row : ℕ = if s.origin_mode then s.scroll_bottom else s.rows - 1 in
    record s {
      cur_row = at_most (at_least row min_row) max_row;
      cur_col = let col' = at_least col 0 in if leb s.cols col' then s.cols - 1 else col';
      pending_wrap = false;
    }

unfoldable pub do_lf : Screen → Option Screen
do_lf s = do
  s' ←
      (if s.cur_row == s.scroll_bottom
        then scroll_up s 1
        else if ltb s.cur_row (s.rows - 1)
        then some (record s { cur_row = s.cur_row + 1 })
        else some s)
  some (record s' { pending_wrap = false })

-- reverse index
unfoldable pub do_ri : Screen → Option Screen
do_ri s = do
  s' ←
      (if s.cur_row == s.scroll_top
        then scroll_down s 1
        else if ltb 0 s.cur_row
        then some (record s { cur_row = s.cur_row - 1 })
        else some s)
  some (record s' { pending_wrap = false })
