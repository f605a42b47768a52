-- ===== src/Vt/Reflow/Layout.antt =====
-- How a logical line is laid out over rows (_lib/vt.c, lay_line): the counting pass ends, and the
-- pass that writes stays inside the rows that were counted.
use mathlib.Core.Path.{sym, ◌∙◌}
use native.Mathlib.Nat.{suc-mul}
use u.Common.{
  ℕ, zero, suc, ◌+◌, ◌-◌, ◌≤◌, ◌<◌, ◌≡◌, some, arith, ltb, if◌then◌else◌, ◌>>=◌, Safe, safe,
  Safe-bind, Safe-mono, Safe-if, Safe-some, Bool, true, false, Bool-cases, inl, inr, ◌*◌, bit_or,
  lt→ltb, ltb→lt,
}
use u.Common.Buffer.{Buffer, read, read-Safe, write-Safe}
use u.Vt.Types.{Cell, Grid, cell_pad, row_wrapped}
use u.Vt.Cells.Bounds.{SameSize, read_cell-Safe, write_cell-Safe}
use u.Vt.Reflow.{
  cell_width, lay_count, count_rows, pad_cells, copy_cells, Target, wrap_row, lay_fill, lay_rows,
}

cell_width-range : (x : Cell) → (1 ≤ cell_width x) × (cell_width x ≤ 2)
unfolding cell_width
cell_width-range x = ground arith

-- The rows counted from a place on are at least those before it, and at most one more for each cell
-- left.
lay_count-range :
    (fuel : ℕ) (ln : Buffer Cell) (start n nc i r c : ℕ)
    → n ≤ i + fuel
    → start + n ≤ ln.size
    → Safe (λ m. (r < m) × (m ≤ r + 1 + (n - i))) (lay_count fuel ln start n nc i r c)
unfolding lay_count
lay_count-range zero ln start n nc i r c f h =
    Safe-if (ltb i n) (λ e. ground arith) (λ e. safe (ground arith))
lay_count-range (suc fuel) ln start n nc i r c f h =
    Safe-if (ltb i n)
      (λ e. Safe-bind (read-Safe ln (start + i) (ground arith)) λ x _.
        Safe-mono
          (lay_count-range fuel ln start n nc (i + cell_width x)
            (if ltb nc (c + cell_width x) then r + 1 else r)
            ((if ltb nc (c + cell_width x) then 0 else c) + cell_width x)
            (ground (arith, cell_width-range x)) h)
          λ m q. ground (arith, q, cell_width-range x))
      (λ e. safe (ground arith))

pad_cells-Safe :
    (tg : Grid) (r c rounds : ℕ)
    → r < tg.height
    → c + rounds ≤ tg.width
    → Safe (SameSize tg) (pad_cells tg r c rounds)
unfolding pad_cells
pad_cells-Safe tg r c zero h k = safe (omega arith)
pad_cells-Safe tg r c (suc n) h k = Safe-bind (read_cell-Safe tg r c h (omega arith)) λ x _.
    Safe-bind
      (write_cell-Safe tg r c (record x { flags = bit_or x.flags cell_pad }) h (omega arith))
      λ g e.
        Safe-mono (pad_cells-Safe g r (c + 1) n (omega arith) (omega arith)) λ g' e'. omega arith

copy_cells-Safe :
    (ln : Buffer Cell) (from : ℕ) (tg : Grid) (r c rounds : ℕ)
    → from + rounds ≤ ln.size
    → r < tg.height
    → c + rounds ≤ tg.width
    → Safe (SameSize tg) (copy_cells ln from tg r c rounds)
unfolding copy_cells
copy_cells-Safe ln from tg r c zero l h k = safe (omega arith)
copy_cells-Safe ln from tg r c (suc n) l h k = Safe-bind (read-Safe ln from (omega arith)) λ x _.
    Safe-bind (write_cell-Safe tg r c x h (omega arith)) λ g e.
      Safe-mono
        (copy_cells-Safe ln (from + 1) g r (c + 1) n (omega arith) (omega arith) (omega arith))
        λ g' e'. omega arith

-- A target of `nc` columns, with a flag for each row.
pub record TargetFits (nc height : ℕ) (t : Target) : Type 0 where
  pub height_eq : t.tg.height ≡ height
  pub width_eq : t.tg.width ≡ nc
  pub flags_eq : t.tf.size ≡ height

wrap_row-Safe :
    (t : Target) (r c nc height : ℕ)
    → TargetFits nc height t
    → r < height
    → c ≤ nc
    → Safe (TargetFits nc height) (wrap_row t r c nc)
unfolding wrap_row
wrap_row-Safe t r c nc height v h k = Safe-bind (read-Safe t.tf r (omega arith)) λ f _.
    Safe-bind (write-Safe t.tf r (bit_or f row_wrapped) (omega arith)) λ tf e.
      Safe-bind (pad_cells-Safe t.tg r c (nc - c) (omega arith) (omega arith))
        λ tg e'. safe (omega arith)

lay_count-value :
    (fuel : ℕ) (ln : Buffer Cell) (start n nc i r c : ℕ) {m : ℕ}
    → n ≤ i + fuel
    → start + n ≤ ln.size
    → lay_count fuel ln start n nc i r c ≡ some m
    → (r < m) × (m ≤ r + 1 + (n - i))
lay_count-value fuel ln start n nc i r c f h e =
    let (k, e', p) = Safe-some (lay_count-range fuel ln start n nc i r c f h) in
    ground (arith, e, e', p)

lay_count-step :
    (fuel : ℕ) (ln : Buffer Cell) (start n nc i r c : ℕ)
    → i < n
    → start + n ≤ ln.size
    → let w = cell_width (ln.at (start + i)) in
      lay_count (suc fuel) ln start n nc i r c
      ≡ lay_count fuel ln start n nc
          (i + w)
          (if ltb nc (c + w) then r + 1 else r)
          ((if ltb nc (c + w) then 0 else c) + w)
unfolding lay_count read ◌>>=◌
lay_count-step fuel ln start n nc i r c h k =
    let a = lt→ltb i n h in let b = lt→ltb (start + i) ln.size (omega arith) in rw (a, b)

lay_fill-Fits :
    (fuel : ℕ) (ln : Buffer Cell) (start n nc : ℕ) (t : Target) (row i r c : ℕ) {height m : ℕ}
    → 2 ≤ nc
    → n ≤ i + fuel
    → start + n < ln.size
    → row + m ≤ height
    → TargetFits nc height t
    → c ≤ nc
    → lay_count fuel ln start n nc i r c ≡ some m
    → Safe
        (λ (o : Target × ℕ). TargetFits nc height o.0 × (o.1 ≡ m))
        (lay_fill fuel ln start n nc t row i r c)
unfolding lay_fill lay_count
lay_fill-Fits zero ln start n nc t row i r c b f h k v l e =
    Safe-if (ltb i n) (λ d. ground arith) (λ d. safe (v, ground arith))
lay_fill-Fits (suc fuel) ln start n nc t row i r c {height} {m} b f h k v l e =
    Safe-if (ltb i n)
      (λ d.
        let inside = ltb→lt i n d in
        let e' = sym (lay_count-step fuel ln start n nc i r c inside (omega arith)) ∙ e in
        let width = cell_width-range (ln.at (start + i)) in
        let wraps = ltb nc (c + cell_width (ln.at (start + i))) in
        let (lo, _) = lay_count-value (suc fuel) ln start n nc i r c f (omega arith) e in
        let (lo', _) =
          lay_count-value fuel ln start n nc (i + cell_width (ln.at (start + i)))
            (if wraps then r + 1 else r) ((if wraps then 0 else c) + cell_width (ln.at (start + i)))
            (omega arith) (omega arith) e' in
        Safe-bind (read-Safe ln (start + i) (omega arith)) λ x q. rw q (
          Safe-bind
            (Safe-if wraps (λ _. wrap_row-Safe t (row + r) c nc height v (omega arith) l)
              (λ _. safe v))
            λ t' v'.
              Safe-bind
                (copy_cells-Safe ln (start + i) t'.tg (row + (if wraps then r + 1 else r))
                  (if wraps then 0 else c) (cell_width (ln.at (start + i))) (omega arith)
                  (omega arith) (ground arith))
                λ g s.
                  lay_fill-Fits fuel ln start n nc (record t' { tg = g }) row
                    (i + cell_width (ln.at (start + i))) (if wraps then r + 1 else r)
                    ((if wraps then 0 else c) + cell_width (ln.at (start + i))) b (omega arith) h k
                    (omega arith) (ground arith) e'))
      (λ d. safe (v, ground arith))

-- The counting pass over a line ends, and counts at least one row and at most one more than the line
-- has cells.
pub count_rows-Safe :
    (ln : Buffer Cell) (start n nc : ℕ)
    → start + n ≤ ln.size
    → Safe (λ m. (1 ≤ m) × (m ≤ n + 1)) (count_rows ln start n nc)
unfolding count_rows
count_rows-Safe ln start n nc h =
    Safe-mono (lay_count-range n ln start n nc 0 0 0 (omega arith) h) λ m q. omega (arith, q)

-- A line is laid out from row `row` of a target that has as many rows as the counting pass found for
-- it, and `nc` columns, at least two, with at least one cell of `ln` after the line: then the layout
-- ends, writes no cell and no row flag outside the target, reads no cell outside `ln`, keeps the
-- size of the target, and takes as many rows as were counted.
pub lay_rows-Fits :
    (ln : Buffer Cell) (start n nc : ℕ) (t : Target) (row height m : ℕ)
    → 2 ≤ nc
    → start + n < ln.size
    → count_rows ln start n nc ≡ some m
    → row + m ≤ height
    → TargetFits nc height t
    → Safe (λ (o : Target × ℕ). TargetFits nc height o.0 × (o.1 ≡ m)) (lay_rows ln start n nc t row)
unfolding lay_rows count_rows
lay_rows-Fits ln start n nc t row height m b h e k v =
    lay_fill-Fits n ln start n nc t row 0 0 0 b (omega arith) h k v (omega arith) e

row_below : (r nc : ℕ) → (r + 1) * nc ≡ r * nc + nc
row_below r nc = let e : r + 1 ≡ suc r = omega arith in rw e (suc-mul r nc)

cells_in : (n i r c nc m : ℕ) → n ≤ i → i ≤ r * nc + c → c ≤ nc → m ≡ r + 1 → n ≤ m * nc
cells_in n i r c nc m h k l e = rw e (omega (arith, row_below r nc))

cells_after :
    (i r c nc w : ℕ) (wraps : Bool)
    → i ≤ r * nc + c
    → c ≤ nc
    → i + w ≤ (if wraps then r + 1 else r) * nc + ((if wraps then 0 else c) + w)
cells_after i r c nc w true h k = omega (arith, row_below r nc)
cells_after i r c nc w false h k = omega arith

-- A row holds `nc` cells at most.
lay_count-cells :
    (fuel : ℕ) (ln : Buffer Cell) (start n nc i r c : ℕ) {m : ℕ}
    → 2 ≤ nc
    → n ≤ i + fuel
    → start + n ≤ ln.size
    → c ≤ nc
    → i ≤ r * nc + c
    → lay_count fuel ln start n nc i r c ≡ some m
    → n ≤ m * nc
unfolding lay_count
lay_count-cells zero ln start n nc i r c {m} b f h l k e =
    cells_in n i r c nc m (omega arith) k l (ground arith)
lay_count-cells (suc fuel) ln start n nc i r c {m} b f h l k e = elim (Bool-cases (ltb i n)) [
  | inl d ↦
      let inside = ltb→lt i n d in
      let e' = sym (lay_count-step fuel ln start n nc i r c inside h) ∙ e in
      let w = cell_width (ln.at (start + i)) in
      let width = cell_width-range (ln.at (start + i)) in
      lay_count-cells fuel ln start n nc (i + w) (if ltb nc (c + w) then r + 1 else r)
        ((if ltb nc (c + w) then 0 else c) + w) b (omega arith) h (ground arith)
        (cells_after i r c nc w (ltb nc (c + w)) k l) e'
  | inr d ↦ cells_in n i r c nc m (ground arith) k l (ground arith)
]

pub count_rows-cells :
    (ln : Buffer Cell) (start n nc : ℕ) {m : ℕ}
    → 2 ≤ nc
    → start + n ≤ ln.size
    → count_rows ln start n nc ≡ some m
    → n ≤ m * nc
unfolding count_rows
count_rows-cells ln start n nc b h e =
    lay_count-cells n ln start n nc 0 0 0 b (omega arith) h (omega arith) (omega arith) e
