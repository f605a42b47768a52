-- ===== src/Vt/Csi/Edit.antt =====
-- The cases of dispatch_csi (_lib/vt.c) that erase, repeat, insert and delete.
use u.Common.{
  ℕ, zero, suc, ◌+◌, ◌-◌, false, Option, some, ◌&&◌, ◌||◌, leb, ◌==◌, if◌then◌else◌, ◌>>=◌,
}
use u.Common.Buffer.{write, fill}
use u.Vt.Types.{Grid, Screen, VtParser}
use u.Vt.Cells.{clear_row_range, clear_rows, move_cells}
use u.Vt.Scroll.{with_flags, scroll_up, scroll_down, clip}
use u.Vt.Put.{put_char}

-- The grid after an erase, and the row flags with `n` of them from `r` on reset.
unfoldable pub erased : Screen → Grid → ℕ → ℕ → Option Screen
erased s g r n = do
  flags ← with_flags s.row_flags (λ f. fill f r n 0)
  some (record s { cells = g; row_flags = flags })

-- ED 0 and 2: from a position to the end of the screen
unfoldable pub erase_below : Screen → ℕ → ℕ → Option Screen
erase_below s start_row start_col = do
  g ← clear_row_range s s.cells start_row start_col (s.cols - 1)
  g' ← clear_rows s g (start_row + 1) (s.rows - (start_row + 1))
  erased s g' start_row (s.rows - start_row)

-- `J`
unfoldable pub csi_ed : Screen → ℕ → Option Screen
csi_ed s m =
    if m == 0 || m == 2
    then erase_below s (if m == 2 then 0 else s.cur_row) (if m == 2 then 0 else s.cur_col)
    else if m == 1
    then (do
      g ← clear_rows s s.cells 0 s.cur_row
      g' ← clear_row_range s g s.cur_row 0 s.cur_col
      erased s g' 0 s.cur_row)
    else if m == 3
    then (do g ← clear_rows s s.cells 0 s.rows; erased s g 0 s.rows)
    else some s

-- `K`
unfoldable pub csi_el : Screen → ℕ → Option Screen
csi_el s m =
    if m == 0
    then (do
      g ← clear_row_range s s.cells s.cur_row s.cur_col (s.cols - 1)
      flags ← with_flags s.row_flags (λ f. write f s.cur_row 0)
      some (record s { cells = g; row_flags = flags }))
    else if m == 1
    then (do g ← clear_row_range s s.cells s.cur_row 0 s.cur_col; some (record s { cells = g }))
    else if m == 2
    then (do g ← clear_row_range s s.cells s.cur_row 0 (s.cols - 1); some (record s { cells = g }))
    else some s

-- `X`, ECH: `n` is at least 1
unfoldable pub csi_ech : Screen → ℕ → Option Screen
csi_ech s n = do
  let end = s.cur_col + n - 1
  g ← clear_row_range s s.cells s.cur_row s.cur_col (if leb s.cols end then s.cols - 1 else end)
  some (record s { cells = g })

-- `b`, REP: `put_char` leaves `last_graphic` as it is
unfoldable pub csi_rep : ℕ → VtParser → Option VtParser
csi_rep zero p = some p
csi_rep (suc n) p =
    if p.last_graphic == 0 then some p else (do p' ← put_char p p.last_graphic; csi_rep n p')

-- `@`, ICH
unfoldable pub csi_ich : Screen → ℕ → Option Screen
csi_ich s count = do
  let n = clip count (s.cols - s.cur_col)
  g ← move_cells s.cells s.cur_row (s.cur_col + n) s.cur_col (s.cols - s.cur_col - n)
  g' ← clear_row_range s g s.cur_row s.cur_col (s.cur_col + n - 1)
  some (record s { cells = g' })

-- `P`, DCH
unfoldable pub csi_dch : Screen → ℕ → Option Screen
csi_dch s count = do
  let n = clip count (s.cols - s.cur_col)
  g ← move_cells s.cells s.cur_row s.cur_col (s.cur_col + n) (s.cols - s.cur_col - n)
  g' ← clear_row_range s g s.cur_row (s.cols - n) (s.cols - 1)
  some (record s { cells = g' })

-- `L`, IL, and `M`, DL: the region starts at the cursor's row for the scroll
unfoldable pub csi_il : Screen → ℕ → Option Screen
csi_il s n = do
  t ←
      (if leb s.scroll_top s.cur_row && leb s.cur_row s.scroll_bottom
        then (do
          t ← scroll_down (record s { scroll_top = s.cur_row }) n
          some (record t { scroll_top = s.scroll_top }))
        else some s)
  some (record t { cur_col = 0; pending_wrap = false })

unfoldable pub csi_dl : Screen → ℕ → Option Screen
csi_dl s n = do
  t ←
      (if leb s.scroll_top s.cur_row && leb s.cur_row s.scroll_bottom
        then (do
          t ← scroll_up (record s { scroll_top = s.cur_row }) n
          some (record t { scroll_top = s.scroll_top }))
        else some s)
  some (record t { cur_col = 0; pending_wrap = false })
