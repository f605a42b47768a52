-- ===== src/Vt/Put.antt =====
-- Character output (_lib/vt.c, put_char), in the steps that its body takes.
pub mod Narrow
use u.Common.{
  ℕ, zero, suc, ◌+◌, ◌-◌, Bool, true, false, Option, some, ◌&&◌, ltb, leb, ◌==◌, if◌then◌else◌,
  ◌>>=◌, bit_and, bit_or,
}
use u.Common.Buffer.{read, write}
use u.Vt.Types.{Cell, Grid, Screen, VtParser, row_wrapped, cell_wide, cell_wide_cont, cell_pad}
use u.Vt.Cells.{blank_cell, colour_flags, colour_byte, write_cell, move_cells}
use u.Vt.Scroll.{with_flags, do_lf}
use u.Vt.Width.{cp_width}

-- `if (s->row_flags) s->row_flags[s->cur_row] |= ROW_WRAPPED;`
unfoldable pub mark_wrapped : Screen → Option Screen
mark_wrapped s = do
  flags ←
      with_flags s.row_flags
        (λ f. do v ← read f s.cur_row; write f s.cur_row (bit_or v row_wrapped))
  some (record s { row_flags = flags })

-- the wrap that the last character left pending
unfoldable pub wrap_pending : Screen → Option Screen
wrap_pending s =
    if s.pending_wrap
    then if s.auto_wrap
      then (do s' ← mark_wrapped s; do_lf (record s' { cur_col = 0; pending_wrap = false }))
      else some (record s { pending_wrap = false })
    else some s

abbrev pub pad_cell : Screen → Cell
pad_cell s = record (blank_cell s) { flags = bit_or (blank_cell s).flags cell_pad }

-- A double-width character that does not fit leaves padding and wraps; without autowrap it is
-- dropped, and the flag is false.
unfoldable pub wrap_wide : Screen → ℕ → Option (Screen × Bool)
wrap_wide s width =
    if width == 2 && leb s.cols (s.cur_col + 1)
    then (do
      g ← write_cell s.cells s.cur_row s.cur_col (pad_cell s)
      let s' = record s { cells = g }
      if s.auto_wrap
          then (do s'' ← mark_wrapped s'; t ← do_lf (record s'' { cur_col = 0 }); some (t, true))
          else some (s', false))
    else some (s, true)

-- the loop that blanks the inserted slots, with the slots left
unfoldable pub blank_slots : Cell → Grid → ℕ → ℕ → ℕ → Option Grid
blank_slots b g r c zero = some g
blank_slots b g r c (suc n) = do g' ← write_cell g r c b; blank_slots b g' r (c + 1) n

-- Insert mode shifts the rest of the row right. `tail` is negative only where the move is skipped.
unfoldable pub insert_slots : Screen → ℕ → Option Screen
insert_slots s width =
    if s.insert_mode
    then (do
      let tail = s.cols - (s.cur_col + width)
      g ←
          (if ltb 0 tail
            then move_cells s.cells s.cur_row (s.cur_col + width) s.cur_col tail
            else some s.cells)
      g' ← blank_slots (blank_cell s) g s.cur_row s.cur_col width
      some (record s { cells = g' }))
    else some s

abbrev pub main_cell : Screen → ℕ → ℕ → Cell
main_cell s ch width = record {
  ch = ch;
  fg = colour_byte s.cur_fg;
  bg = colour_byte s.cur_bg;
  attrs = s.cur_attrs;
  flags = bit_or (colour_flags s) (if width == 2 then cell_wide else 0);
}

-- `(cell.flags & ~CELL_WIDE) | CELL_WIDE_CONT`
abbrev pub cont_cell : Cell → Cell
cont_cell x = record x { ch = 0; flags = bit_or (bit_and x.flags (255 - cell_wide)) cell_wide_cont }

unfoldable pub write_char : Screen → ℕ → ℕ → Option Screen
write_char s ch width = do
  g ← write_cell s.cells s.cur_row s.cur_col (main_cell s ch width)
  g' ←
      (if width == 2 && ltb (s.cur_col + 1) s.cols
        then write_cell g s.cur_row (s.cur_col + 1) (cont_cell (main_cell s ch width))
        else some g)
  some (record s { cells = g' })

unfoldable pub advance : Screen → ℕ → Screen
advance s width =
    if leb s.cols (s.cur_col + width)
    then record s { cur_col = s.cols - 1; pending_wrap = true }
    else record s { cur_col = s.cur_col + width; pending_wrap = false }

-- what follows once there is room on the row
unfoldable pub place : Screen → ℕ → ℕ → Option Screen
place s ch width = do
  s1 ← insert_slots s width
  s2 ← write_char s1 ch width
  some (advance s2 width)

-- `put_char` on the screen, for a character that takes columns
unfoldable pub put_wide : Screen → ℕ → ℕ → Option Screen
put_wide s ch width = do
  s1 ← wrap_pending s
  (s2, room) ← wrap_wide s1 width
  if room then place s2 ch width else some s2

unfoldable pub put_char : VtParser → ℕ → Option VtParser
put_char p ch =
    if cp_width ch == 0
    then some p
    else (do s ← put_wide p.scr ch (cp_width ch); some (record p { last_graphic = ch; scr = s }))
