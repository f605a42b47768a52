-- ===== src/Vt/Reflow/Lines.antt =====
-- The lines of the screen in a reflow: the rows that they take, and their layout around the rows of
-- the cursor's line (_lib/vt.c, reflow, from the end of its first step).
pub mod Placed
use u.Common.{
  ℕ, zero, suc, ◌+◌, ◌-◌, Bool, true, false, ◌&&◌, Option, none, some, List, [], ◌∷◌, ◌==◌, ltb,
  leb, if◌then◌else◌, length, ◌>>=◌, bit_or,
}
use u.Common.Buffer.{Buffer, read, write}
use u.Vt.Types.{Cell, Grid, Screen, cell_wide, row_wrapped}
use u.Vt.Cells.{read_cell, write_cell, blank_cell}
use u.Vt.Resize.{smaller}
use u.Vt.Reflow.{has, row_wraps, count_rows, lay_rows, Target}

abbrev is_empty : List (ℕ × ℕ) → Bool
is_empty [] = true
is_empty (l ∷ ls) = false

-- `while (nl > frozen && llen[nl - 1] == 0) nl--`: the empty lines at the end go, but none before
-- line `frozen`. The first line of the list is line `i`.
unfoldable pub drop_blank : ℕ → ℕ → List (ℕ × ℕ) → List (ℕ × ℕ)
drop_blank frozen i [] = []
drop_blank frozen i (l ∷ ls) =
    let rest = drop_blank frozen (i + 1) ls in
    if is_empty rest && leb frozen i && l.1 == 0 then [] else l ∷ rest

-- The second step: `Sb` and `Sa`, from line `i` on.
unfoldable pub count_screen : Buffer Cell → ℕ → ℕ → ℕ → List (ℕ × ℕ) → ℕ → ℕ → Option (ℕ × ℕ)
count_screen lin nc frozen i [] sb sa = some (sb, sa)
count_screen lin nc frozen i (l ∷ ls) sb sa = do
  rows ← count_rows lin l.0 l.1 nc
  count_screen lin nc frozen (i + 1) ls (if ltb i frozen then sb + rows else sb)
      (if ltb i frozen then sa else sa + rows)

-- Row `r` of the screen copied to row `row`, from column `c`, with the columns left.
unfoldable pub cursor_cells : Screen → ℕ → ℕ → Grid → ℕ → ℕ → ℕ → Option Grid
cursor_cells s r nc tg row c zero = some tg
cursor_cells s r nc tg row c (suc left) = do
  x ← read_cell s.cells r c
  tg' ← write_cell tg row c (if c == nc - 1 && has x.flags cell_wide then blank_cell s else x)
  cursor_cells s r nc tg' row (c + 1) left

-- `tf[row] |= ROW_WRAPPED`, where the row of the screen is wrapped.
unfoldable pub keep_wrap : Bool → Buffer ℕ → ℕ → Option (Buffer ℕ)
keep_wrap false tf row = some tf
keep_wrap true tf row = do f ← read tf row; write tf row (bit_or f row_wrapped)

-- The rows of the cursor's line, from row `r` of the screen, at row `row`, with the rows left.
unfoldable pub cursor_rows : Screen → ℕ → ℕ → Target → ℕ → ℕ → Option Target
cursor_rows s r nc t row zero = some t
cursor_rows s r nc t row (suc left) = do
  tg ← cursor_cells s r nc t.tg row 0 (smaller s.cols nc)
  w ← row_wraps s r
  tf ← keep_wrap w t.tf row
  cursor_rows s (r + 1) nc (record { tg = tg; tf = tf }) (row + 1) left

-- The `R` rows of the cursor's line, where this is their place: what is laid out, and the next row.
unfoldable pub cursor_line : Bool → Screen → ℕ → ℕ → ℕ → Target → ℕ → Option (Target × ℕ)
cursor_line false s cf line_rows nc t row = some (t, row)
cursor_line true s cf line_rows nc t row = do
  t' ← cursor_rows s cf nc t row line_rows
  some (t', row + line_rows)

-- The loop over the lines from line `i`, of `lin`.
unfoldable pub lay_lines :
    Screen → Buffer Cell → ℕ → ℕ → ℕ → ℕ → ℕ → List (ℕ × ℕ) → Target → ℕ → Option (Target × ℕ)
lay_lines s lin cf line_rows nc frozen i [] t row = some (t, row)
lay_lines s lin cf line_rows nc frozen i (l ∷ ls) t row = do
  (t1, row1) ← cursor_line (i == frozen) s cf line_rows nc t row
  (t2, rows) ← lay_rows lin l.0 l.1 nc t1 row1
  lay_lines s lin cf line_rows nc frozen (i + 1) ls t2 (row1 + rows)

-- The lines, and the cursor's line where it comes last.
unfoldable pub lay_screen :
    Screen → Buffer Cell → ℕ → ℕ → ℕ → ℕ → List (ℕ × ℕ) → Target → ℕ → Option (Target × ℕ)
lay_screen s lin cf line_rows nc frozen ls t row = do
  (t', row') ← lay_lines s lin cf line_rows nc frozen 0 ls t row
  cursor_line (frozen == length ls) s cf line_rows nc t' row'
