-- ===== src/Vt/Cells/Bounds.antt =====
-- When the operations on cells and rows stay inside the allocation, and that they keep its size.
use u.Common.{
  ℕ, zero, suc, ◌+◌, ◌-◌, ◌≤◌, ◌<◌, ◌≡◌, refl, arith, Safe, safe, Safe-bind, Safe-mono, Safe-check,
}
use u.Vt.Types.{Cell, Grid, Screen}
use u.Vt.Cells.{
  read_cell, write_cell, clear_loop, clear_row_range, clear_rows, move_cells, move_rows, put_row,
}

-- `g'` is as large as `g`.
pub record SameSize (g g' : Grid) : Type 0 where
  pub height_eq : g'.height ≡ g.height
  pub width_eq : g'.width ≡ g.width

pub SameSize-refl : (g : Grid) → SameSize g g
SameSize-refl g = omega arith

pub read_cell-Safe :
    (g : Grid) (r c : ℕ) → r < g.height → c < g.width → Safe (λ x. x ≡ g.at r c) (read_cell g r c)
unfolding read_cell
read_cell-Safe g r c h k = Safe-check _ _ (ground arith) refl

pub write_cell-Safe :
    (g : Grid) (r c : ℕ) (x : Cell)
    → r < g.height
    → c < g.width
    → Safe (SameSize g) (write_cell g r c x)
unfolding write_cell
write_cell-Safe g r c x h k = Safe-check _ _ (ground arith) (omega arith)

pub clear_loop-Safe :
    (b : Cell) (g : Grid) (r c n : ℕ)
    → r < g.height
    → c + n ≤ g.width
    → Safe (SameSize g) (clear_loop b g r c n)
unfolding clear_loop
clear_loop-Safe b g r c zero h k = safe (omega arith)
clear_loop-Safe b g r c (suc n) h k = Safe-bind (write_cell-Safe g r c b h (omega arith)) λ g' e.
    Safe-mono (clear_loop-Safe b g' r (c + 1) n (omega arith) (omega arith)) λ g'' e'. omega arith

-- The range may be empty; it must end inside the row.
pub clear_row_range-Safe :
    (s : Screen) (g : Grid) (r from to : ℕ)
    → r < g.height
    → to < g.width
    → from ≤ to + 1
    → Safe (SameSize g) (clear_row_range s g r from to)
unfolding clear_row_range
clear_row_range-Safe s g r from to h k l = clear_loop-Safe _ g r from _ h (omega arith)

pub clear_rows-Safe :
    (s : Screen) (g : Grid) (r n : ℕ)
    → r + n ≤ g.height
    → 1 ≤ s.cols
    → s.cols ≡ g.width
    → Safe (SameSize g) (clear_rows s g r n)
unfolding clear_rows
clear_rows-Safe s g r zero h p e = safe (omega arith)
clear_rows-Safe s g r (suc n) h p e =
    Safe-bind (clear_row_range-Safe s g r 0 (s.cols - 1) (omega arith) (omega arith) (omega arith))
      λ g' d.
        Safe-mono (clear_rows-Safe s g' (r + 1) n (omega arith) p (omega arith))
          λ g'' d'. omega arith

pub move_cells-Safe :
    (g : Grid) (r to from n : ℕ)
    → r < g.height
    → to + n ≤ g.width
    → from + n ≤ g.width
    → Safe (SameSize g) (move_cells g r to from n)
unfolding move_cells
move_cells-Safe g r to from n h k l = Safe-check _ _ (ground arith) (omega arith)

pub move_rows-Safe :
    (g : Grid) (to from n : ℕ)
    → to + n ≤ g.height
    → from + n ≤ g.height
    → Safe (SameSize g) (move_rows g to from n)
unfolding move_rows
move_rows-Safe g to from n k l = Safe-check _ _ (ground arith) (omega arith)

pub put_row-Safe :
    (g : Grid) (r : ℕ) (row : ℕ → Cell) → r < g.height → Safe (SameSize g) (put_row g r row)
unfolding put_row
put_row-Safe g r row h = Safe-check _ _ (ground arith) (omega arith)
