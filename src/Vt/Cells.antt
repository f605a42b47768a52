-- ===== src/Vt/Cells.antt =====
-- Cells and rows (_lib/vt.c, "Cell / row helpers" and "Cell grid allocation"). Every access to a
-- cell is checked against the dimensions of the allocation, and is a fault outside them.
pub mod Bounds
pub mod Contents
use u.Common.{
  ℕ, zero, suc, ◌+◌, ◌-◌, ◌%◌, Option, some, ◌&&◌, ltb, leb, ◌==◌, if◌then◌else◌, check, ◌>>=◌,
  bit_or,
}
use u.Vt.Types.{Cell, Grid, Screen, cell_fg_dfl, cell_bg_dfl, color_default}

-- The colours and their default flags of a cell that is written with the current rendition.
pub colour_flags : Screen → ℕ
colour_flags s =
    bit_or (if s.cur_fg == color_default then cell_fg_dfl else 0)
      (if s.cur_bg == color_default then cell_bg_dfl else 0)

-- `(uint8_t)s->cur_fg`, and 0 where the default is in use
pub colour_byte : ℕ → ℕ
colour_byte c = if c == color_default then 0 else c % 256

unfoldable pub blank_cell : Screen → Cell
unfolding colour_flags colour_byte
blank_cell s = record {
  ch = 0x20;
  fg = colour_byte s.cur_fg;
  bg = colour_byte s.cur_bg;
  attrs = 0;
  flags = colour_flags s;
}

unfoldable pub read_cell : Grid → ℕ → ℕ → Option Cell
read_cell g r c = check (ltb r g.height && ltb c g.width) (g.at r c)

abbrev pub put_at : Grid → ℕ → ℕ → Cell → Grid
put_at g r c x = record g { at = λ i j. if i == r && j == c then x else g.at i j }

unfoldable pub write_cell : Grid → ℕ → ℕ → Cell → Option Grid
write_cell g r c x = check (ltb r g.height && ltb c g.width) (put_at g r c x)

-- The loop of `clear_row_range`, with the rounds that it has left.
unfoldable pub clear_loop : Cell → Grid → ℕ → ℕ → ℕ → Option Grid
clear_loop b g r c zero = some g
clear_loop b g r c (suc n) = do g' ← write_cell g r c b; clear_loop b g' r (c + 1) n

-- `clear_row_range(s, row, from, to)` for row `r` of grid `g`
unfoldable pub clear_row_range : Screen → Grid → ℕ → ℕ → ℕ → Option Grid
clear_row_range s g r from to = clear_loop (blank_cell s) g r from (to + 1 - from)

-- `for (r = first; r < s->rows; r++) clear_row_range(s, s->cells[r], 0, s->cols - 1)`, with the
-- rounds left
unfoldable pub clear_rows : Screen → Grid → ℕ → ℕ → Option Grid
clear_rows s g r zero = some g
clear_rows s g r (suc n) = do g' ← clear_row_range s g r 0 (s.cols - 1); clear_rows s g' (r + 1) n

-- `memmove(&row[to], &row[from], n * sizeof(Cell))` in row `r`
unfoldable pub move_cells : Grid → ℕ → ℕ → ℕ → ℕ → Option Grid
move_cells g r to from n =
    check (ltb r g.height && (leb (to + n) g.width && leb (from + n) g.width)) (record g {
      at = λ i j.
          if i == r && (leb to j && ltb j (to + n)) then g.at i (from + (j - to)) else g.at i j;
    })

-- `memmove(&cells[to], &cells[from], n * sizeof(Cell *))`: rows move by their pointers
unfoldable pub move_rows : Grid → ℕ → ℕ → ℕ → Option Grid
move_rows g to from n =
    check (leb (to + n) g.height && leb (from + n) g.height)
      (record g { at = λ i. if leb to i && ltb i (to + n) then g.at (from + (i - to)) else g.at i })

-- `cells[r] = save`, a row pointer read before
unfoldable pub put_row : Grid → ℕ → (ℕ → Cell) → Option Grid
put_row g r row = check (ltb r g.height) (record g { at = λ i. if i == r then row else g.at i })

abbrev pub fresh_cell : Cell
fresh_cell = record { ch = 0x20; fg = 0; bg = 0; attrs = 0; flags = bit_or cell_fg_dfl cell_bg_dfl }

-- `calloc` is taken to succeed.
unfoldable pub alloc_cells : ℕ → ℕ → Grid
alloc_cells rows cols = record { height = rows; width = cols; at = λ r c. fresh_cell }
