-- ===== src/Vt/Reflow/Gather/Rows.antt =====
-- The rows that a reflow reads for one line, and where they go (_lib/vt.c, reflow).
use native.Mathlib.Nat.{mul-le-mul_right, suc-mul}
use u.Common.{
  ℕ, zero, suc, ◌+◌, ◌*◌, ◌≤◌, ◌<◌, ◌≡◌, refl, ◌∙◌, Bool, false, leb, arith, Safe, safe, Safe-bind,
  Safe-mono, Safe-if,
}
use u.Common.Buffer.{Buffer, read-Safe, write-Safe}
use u.Vt.Types.{Cell, Screen, cell_pad}
use u.Vt.Cells.Bounds.{read_cell-Safe}
use u.Vt.Safety.{IsValid}
use u.Vt.Safety.Scroll.{flag_of-Safe}
use u.Vt.Reflow.{has, row_wraps, cell_blank}
use u.Vt.Reflow.Gather.{line_top, line_bottom, gather_row, ends_at, gather_rows, trim}

pub row_wraps-Safe :
    (s : Screen) (r : ℕ) → IsValid s → r < s.rows → Safe (λ (w : Bool). Unit) (row_wraps s r)
unfolding row_wraps
row_wraps-Safe s r v h = Safe-bind (flag_of-Safe s.rows s.row_flags r v.flags_fit h) λ f e. safe tt

pub line_top-Safe :
    (s : Screen) (r : ℕ) → IsValid s → r < s.rows → Safe (λ cf. cf ≤ r) (line_top s r)
unfolding line_top
line_top-Safe s zero v h = safe (omega arith)
line_top-Safe s (suc r) v h = Safe-bind (row_wraps-Safe s r v (omega arith)) λ w e.
    Safe-if w (λ e. Safe-mono (line_top-Safe s r v (omega arith)) λ a p. omega arith)
      (λ e. safe (omega arith))

pub line_bottom-Safe :
    (s : Screen) (cl below : ℕ)
    → IsValid s
    → cl + below < s.rows
    → Safe (λ r. (cl ≤ r) × (r < s.rows)) (line_bottom s cl below)
unfolding line_bottom
line_bottom-Safe s cl zero v h = safe (omega arith, omega arith)
line_bottom-Safe s cl (suc below) v h = Safe-bind (row_wraps-Safe s cl v (omega arith)) λ w e.
    Safe-if w
      (λ e.
        Safe-mono (line_bottom-Safe s (cl + 1) below v (omega arith))
          λ a p. (omega (arith, p.0), p.1))
      (λ e. safe (omega arith, omega arith))

-- At most as many cells are put as there are columns left.
abbrev Grown : Buffer Cell → ℕ → ℕ → Buffer Cell × ℕ → Type 0
Grown lin pos left (lin', pos') = (lin'.size ≡ lin.size) × (pos ≤ pos') × (pos' ≤ pos + left)

gather_row-Safe :
    (s : Screen) (b c left : ℕ) (lin : Buffer Cell) (pos : ℕ)
    → IsValid s
    → b < s.rows
    → c + left ≤ s.cols
    → pos + left ≤ lin.size
    → Safe (Grown lin pos left) (gather_row s b c left lin pos)
unfolding gather_row
gather_row-Safe s b c zero lin pos v h k l = safe (refl, omega arith, omega arith)
gather_row-Safe s b c (suc left) lin pos v h k l =
    Safe-bind (read_cell-Safe s.cells b c (omega (arith, v.height_eq)) (omega (arith, v.width_eq)))
      λ x e.
        Safe-if (has x.flags cell_pad)
          (λ _.
            Safe-mono (gather_row-Safe s b (c + 1) left lin pos v h (omega arith) (omega arith))
              λ r t. (t.0, omega arith, omega arith))
          (λ _. Safe-bind (write-Safe lin pos x (omega arith)) λ lin' w.
            Safe-mono
              (gather_row-Safe s b (c + 1) left lin' (pos + 1) v h (omega arith) (omega arith))
              λ r t. let (e', lo, hi) = t in (e' ∙ w, omega arith, omega arith))

ends_at-Safe :
    (s : Screen) (cf b : ℕ)
    → IsValid s
    → b < s.rows
    → Safe (λ e. e ≡ false → b + 1 < s.rows) (ends_at s cf b)
unfolding ends_at
ends_at-Safe s cf b v h =
    Safe-if (leb s.rows (b + 1)) (λ e. safe (λ z. cc))
      (λ e. Safe-bind (row_wraps-Safe s b v h) λ w _. safe (λ z. ground arith))

pub area : (b rows c : ℕ) → b < rows → b * c + c ≤ rows * c
area b rows c h =
    let p = mul-le-mul_right {m = suc b} {n = rows} c h in
    let q = suc-mul b c in omega (arith, p, q)

pub next_row : (b c : ℕ) → (b + 1) * c ≡ b * c + c
next_row b c = let e : b + 1 ≡ suc b = omega arith in rw e (suc-mul b c)

-- The cells up to row `b'` that are put, and the array.
pub record RowsGathered (s : Screen) (b : ℕ) (lin : Buffer Cell) (pos : ℕ) (lin' : Buffer Cell)
    (pos' b' : ℕ) : Type 0 where
  pub size_eq : lin'.size ≡ lin.size
  pub grows : pos ≤ pos'
  pub below : b ≤ b'
  pub inside : b' < s.rows
  pub bounded : pos' ≤ b' * s.cols + s.cols

pub gather_rows-Safe :
    (fuel : ℕ) (s : Screen) (cf b : ℕ) (lin : Buffer Cell) (pos : ℕ)
    → IsValid s
    → b < s.rows
    → s.rows ≤ b + fuel
    → pos ≤ b * s.cols
    → s.rows * s.cols ≤ lin.size
    → Safe
        (λ (r : (Buffer Cell × ℕ) × ℕ). RowsGathered s b lin pos r.0.0 r.0.1 r.1)
        (gather_rows fuel s cf b lin pos)
unfolding gather_rows
gather_rows-Safe zero s cf b lin pos v h f p l = absurd (omega arith)
gather_rows-Safe (suc fuel) s cf b lin pos v h f p l =
    let room = area b s.rows s.cols h in
    Safe-bind (gather_row-Safe s b 0 s.cols lin pos v h (omega arith) (omega arith)) λ r t.
      let (e, lo, hi) = t in
      Safe-bind (ends_at-Safe s cf b v h) λ last w.
        Safe-if last
          (λ _. safe (record {
            size_eq = e;
            grows = lo;
            below = omega arith;
            inside = h;
            bounded = omega arith;
          }))
          (λ z.
            let next = next_row b s.cols in
            Safe-mono
              (gather_rows-Safe fuel s cf (b + 1) r.0 r.1 v (w z) (omega arith) (omega arith)
                (omega arith))
              λ q g. record {
                size_eq = g.size_eq ∙ e;
                grows = omega (arith, g.grows);
                below = omega (arith, g.below);
                inside = g.inside;
                bounded = g.bounded;
              })

pub trim-Safe :
    (lin : Buffer Cell) (start n : ℕ) → start + n ≤ lin.size → Safe (λ m. m ≤ n) (trim lin start n)
unfolding trim
trim-Safe lin start zero h = safe (omega arith)
trim-Safe lin start (suc n) h = Safe-bind (read-Safe lin (start + n) (omega arith)) λ x e.
    Safe-if (cell_blank x) (λ _. Safe-mono (trim-Safe lin start n (omega arith)) λ m p. omega arith)
      (λ _. safe (omega arith))
