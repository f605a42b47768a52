-- ===== src/Vt/Reflow/Gather.antt =====
-- The lines of the screen before a reflow (_lib/vt.c, reflow, from the rows of the cursor's line to
-- the end of its first step). `none` is an access outside an array.
pub mod Rows
pub mod Bounds
use u.Common.{
  ℕ, zero, suc, ◌+◌, ◌-◌, ◌*◌, Bool, true, false, not, ◌||◌, Option, none, some, List, [], ◌∷◌,
  ◌++◌, ◌==◌, ltb, leb, if◌then◌else◌, check, length, ◌>>=◌,
}
use u.Common.Buffer.{Buffer, read, write}
use u.Vt.Types.{Cell, Screen, cell_pad}
use u.Vt.Cells.{read_cell}
use u.Vt.Reflow.{has, row_wraps, cell_blank}

-- `while (cf > 0 && row_wraps(s, cf - 1)) cf--`
unfoldable pub line_top : Screen → ℕ → Option ℕ
line_top s zero = some 0
line_top s (suc r) = do w ← row_wraps s r; if w then line_top s r else some (suc r)

-- `while (cl + 1 < or_ && row_wraps(s, cl)) cl++`, with the rows below `cl`.
unfoldable pub line_bottom : Screen → ℕ → ℕ → Option ℕ
line_bottom s cl zero = some cl
line_bottom s cl (suc below) = do
  w ← row_wraps s cl
  if w then line_bottom s (cl + 1) below else some cl

-- The cells of row `b` from column `c`, without padding, put at `lin[pos]`, …, with the columns left.
unfoldable pub gather_row : Screen → ℕ → ℕ → ℕ → Buffer Cell → ℕ → Option (Buffer Cell × ℕ)
gather_row s b c zero lin pos = some (lin, pos)
gather_row s b c (suc left) lin pos = do
  x ← read_cell s.cells b c
  if has x.flags cell_pad
      then gather_row s b (c + 1) left lin pos
      else (do lin' ← write lin pos x; gather_row s b (c + 1) left lin' (pos + 1))

-- Whether a line of the screen ends at row `b`.
unfoldable pub ends_at : Screen → ℕ → ℕ → Option Bool
ends_at s cf b =
    if leb s.rows (b + 1) then some true else (do w ← row_wraps s b; some (not w || b + 1 == cf))

-- The rows of one line, from row `b`, and its last row. Each round goes on to the next row.
unfoldable pub gather_rows : ℕ → Screen → ℕ → ℕ → Buffer Cell → ℕ → Option ((Buffer Cell × ℕ) × ℕ)
gather_rows zero s cf b lin pos = none
gather_rows (suc fuel) s cf b lin pos = do
  (lin', pos') ← gather_row s b 0 s.cols lin pos
  last ← ends_at s cf b
  if last then some ((lin', pos'), b) else gather_rows fuel s cf (b + 1) lin' pos'

-- `while (n > 0 && cell_blank(lin[start + n - 1])) n--`
unfoldable pub trim : Buffer Cell → ℕ → ℕ → Option ℕ
trim lin start zero = some 0
trim lin start (suc n) = do
  x ← read lin (start + n)
  if cell_blank x then trim lin start n else some (suc n)

-- `lines` has the pairs of `lstart` and `llen`, and `frozen` is none for -1.
pub record Gathered : Type 0 where
  pub lin : Buffer Cell
  pub pos : ℕ
  pub lines : List (ℕ × ℕ)
  pub frozen : Option ℕ

-- The loop over the rows from `r`, where the line of the cursor, rows `cf` to `cl`, is left out. A
-- line is stored in arrays of `rows` places.
unfoldable pub gather : ℕ → Screen → ℕ → ℕ → ℕ → Gathered → Option Gathered
gather zero s cf cl r g = if ltb r s.rows then none else some g
gather (suc fuel) s cf cl r g =
    if ltb r s.rows
    then (if r == cf
        then gather fuel s cf cl (cl + 1) (record g { frozen = some (length g.lines) })
        else (do
          ((lin, pos), b) ← gather_rows s.rows s cf r g.lin g.pos
          n ← trim lin g.pos (pos - g.pos)
          lines ← check (ltb (length g.lines) s.rows) (g.lines ++ (g.pos, n) ∷ [])
          gather fuel s cf cl (b + 1) (record g { lin = lin; pos = pos; lines = lines })))
    else some g

-- The first step of `reflow`, with what `malloc` returned for `lin`, around the rows of the cursor's
-- line.
unfoldable pub gather_around : Screen → Buffer Cell → ℕ → ℕ → Option Gathered
gather_around s lin cf cl = do
  g ← gather (s.rows + 1) s cf cl 0 (record { lin = lin; pos = 0; lines = []; frozen = none })
  some (record g { frozen = elim g.frozen [ none ↦ some (length g.lines) | some f ↦ some f ] })

unfoldable pub gather_lines : Screen → Buffer Cell → Option Gathered
gather_lines s lin = do
  cf ← line_top s s.cur_row
  cl ← line_bottom s s.cur_row (s.rows - 1 - s.cur_row)
  gather_around s lin cf cl
