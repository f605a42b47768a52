-- ===== src/Vt/Cells/Contents.antt =====
-- What clearing leaves in the cells (_lib/vt.c, clear_row_range).
use u.Common.{
  ℕ, zero, suc, ◌+◌, ◌-◌, ◌≤◌, ◌<◌, ◌≡◌, refl, ◌&&◌, ltb, leb, ◌==◌, if◌then◌else◌, arith, Safe,
  safe, Safe-bind, Safe-mono, Safe-check,
}
use u.Vt.Types.{Cell, Grid, Screen}
use u.Vt.Cells.{write_cell, clear_loop, clear_row_range, blank_cell, put_at}
use u.Vt.Cells.Bounds.{SameSize}

-- Row `r` of `g'` holds `b` from `from` to before `to`; all other cells are those of `g`.
pub record Cleared (b : Cell) (g : Grid) (r from to : ℕ) (g' : Grid) : Type 0 where
  pub size : SameSize g g'
  pub cell : (i j : ℕ) → g'.at i j ≡ (if i == r && (leb from j && ltb j to) then b else g.at i j)

write_cell-at :
    (g : Grid) (r c : ℕ) (x : Cell)
    → r < g.height
    → c < g.width
    → Safe (λ g'. g' ≡ put_at g r c x) (write_cell g r c x)
unfolding write_cell
write_cell-at g r c x h k = Safe-check _ _ (ground arith) refl

clear_loop-Cleared :
    (b : Cell) (g : Grid) (r c n : ℕ)
    → r < g.height
    → c + n ≤ g.width
    → Safe (Cleared b g r c (c + n)) (clear_loop b g r c n)
unfolding clear_loop
clear_loop-Cleared b g r c zero h k =
    safe (record { size = omega arith; cell = λ i j. ground arith })
clear_loop-Cleared b g r c (suc n) h k = Safe-bind (write_cell-at g r c b h (omega arith)) λ g' e.
    rw e (
      Safe-mono (clear_loop-Cleared b (put_at g r c b) r (c + 1) n h (omega arith))
        λ g'' q. record { size = omega arith; cell = λ i j. ground (arith, q.cell i j) })

-- The cells of the row from `from` to `to`, both included, become blanks of the current colours, and
-- no other cell changes.
pub clear_row_range-Cleared :
    (s : Screen) (g : Grid) (r from to : ℕ)
    → r < g.height
    → to < g.width
    → from ≤ to + 1
    → Safe (Cleared (blank_cell s) g r from (to + 1)) (clear_row_range s g r from to)
unfolding clear_row_range
clear_row_range-Cleared s g r from to h k l =
    let e : from + (to + 1 - from) ≡ to + 1 = omega arith in
    rw e at (clear_loop-Cleared (blank_cell s) g r from (to + 1 - from) h (omega arith))
