-- ===== src/Vt/Reflow/Gather/Bounds.antt =====
-- The lines that a reflow gathers stay inside their array (_lib/vt.c, reflow).
use native.Mathlib.Nat.{mul-le-mul_right}
use u.Common.{
  ℕ, zero, suc, ◌+◌, ◌-◌, ◌*◌, ◌≤◌, ◌<◌, ◌≡◌, refl, ◌∙◌, Option, none, some, List, [], ◌∷◌, ◌++◌,
  ◌==◌, ltb, check, length, length-append, arith, All, Safe, safe, Safe-bind, Safe-if, Safe-check,
}
use u.Common.Buffer.{Buffer}
use u.Vt.Types.{Cell, Screen}
use u.Vt.Safety.{IsValid}
use u.Vt.Reflow.Gather.{Gathered, gather, gather_around, gather_lines}
use u.Vt.Reflow.Gather.Rows.{
  line_top-Safe, line_bottom-Safe, area, next_row, RowsGathered, gather_rows-Safe, trim-Safe,
}

-- The line is inside the cells of the screen.
abbrev pub LineFits : Screen → ℕ × ℕ → Type 0
LineFits s (start, n) = start + n ≤ s.rows * s.cols

abbrev pub FrozenFits : ℕ → Option ℕ → Type 0
FrozenFits nl none = Unit
FrozenFits nl (some f) = f ≤ nl

-- What holds when the rows before `r` have been read.
pub record IsGathered (s : Screen) (r : ℕ) (g : Gathered) : Type 0 where
  pub size_eq : g.lin.size ≡ s.rows * s.cols + 2
  pub pos_le : g.pos ≤ r * s.cols
  pub count_le : length g.lines ≤ r
  pub lines_fit : All (LineFits s) g.lines
  pub frozen_fit : FrozenFits (length g.lines) g.frozen

All-snoc :
    (s : Screen) (ls : List (ℕ × ℕ)) (l : ℕ × ℕ)
    → All (LineFits s) ls
    → LineFits s l
    → All (LineFits s) (ls ++ l ∷ [])
All-snoc s [] l h k = (k, tt)
All-snoc s (x ∷ xs) l h k = (h.0, All-snoc s xs l h.1 k)

FrozenFits-mono : (m n : ℕ) (o : Option ℕ) → m ≤ n → FrozenFits m o → FrozenFits n o
FrozenFits-mono m n none h k = tt
FrozenFits-mono m n (some f) h k = omega arith

FrozenFits-counted :
    (n : ℕ) (o : Option ℕ)
    → FrozenFits n o
    → FrozenFits n (elim o [ none ↦ some n | some f ↦ some f ])
FrozenFits-counted n none h = omega arith
FrozenFits-counted n (some f) h = h

IsGathered-frozen :
    (s : Screen) (r c : ℕ) (g : Gathered)
    → r ≤ c
    → IsGathered s r g
    → IsGathered s c (record g { frozen = some (length g.lines) })
IsGathered-frozen s r c g h i =
    let more = mul-le-mul_right {m = r} {n = c} s.cols h in
    record {
      size_eq = i.size_eq;
      pos_le = omega (arith, i.pos_le, more);
      count_le = omega (arith, i.count_le);
      lines_fit = i.lines_fit;
      frozen_fit = omega arith;
    }

IsGathered-stored :
    (s : Screen) (r : ℕ) (g : Gathered) (lin : Buffer Cell) (pos b n : ℕ)
    → IsGathered s r g
    → RowsGathered s r g.lin g.pos lin pos b
    → n ≤ pos - g.pos
    → IsGathered s (b + 1) (record g { lin = lin; pos = pos; lines = g.lines ++ (g.pos, n) ∷ [] })
IsGathered-stored s r g lin pos b n i t h =
    let room = area b s.rows s.cols t.inside in
    let longer = length-append g.lines ((g.pos, n) ∷ []) in
    record {
      size_eq = t.size_eq ∙ i.size_eq;
      pos_le = omega (arith, t.bounded, next_row b s.cols);
      count_le = omega (arith, i.count_le, t.below, longer);
      lines_fit =
          All-snoc s g.lines (g.pos, n) i.lines_fit (omega (arith, t.bounded, t.grows, room));
      frozen_fit = FrozenFits-mono _ _ g.frozen (omega (arith, longer)) i.frozen_fit;
    }

store_place :
    (s : Screen) (g : Gathered) (n : ℕ)
    → length g.lines < s.rows
    → Safe
        (λ ls. ls ≡ g.lines ++ (g.pos, n) ∷ [])
        (check (ltb (length g.lines) s.rows) (g.lines ++ (g.pos, n) ∷ []))
store_place s g n h = Safe-check _ _ (ground arith) refl

gather-IsGathered :
    (fuel : ℕ) (s : Screen) (cf cl r : ℕ) (g : Gathered)
    → IsValid s
    → cf ≤ cl
    → cl < s.rows
    → r ≤ s.rows
    → s.rows ≤ r + fuel
    → IsGathered s r g
    → Safe (IsGathered s s.rows) (gather fuel s cf cl r g)
unfolding gather
gather-IsGathered zero s cf cl r g v h k l f i =
    let e : r ≡ s.rows = omega arith in
    Safe-if (ltb r s.rows) (λ d. absurd (ground arith)) (λ d. safe (rw e at i))
gather-IsGathered (suc fuel) s cf cl r g v h k l f i =
    Safe-if (ltb r s.rows)
      (λ d.
        let inside : r < s.rows = ground arith in
        Safe-if (r == cf)
          (λ z.
            gather-IsGathered fuel s cf cl (cl + 1) (record g { frozen = some (length g.lines) }) v
              h k (omega arith) (ground arith) (IsGathered-frozen s r (cl + 1) g (ground arith) i))
          (λ z.
            Safe-bind
              (gather_rows-Safe s.rows s cf r g.lin g.pos v inside (omega arith) i.pos_le
                (omega (arith, i.size_eq)))
              λ q t.
                let room = area q.1 s.rows s.cols t.inside in
                Safe-bind
                  (trim-Safe q.0.0 g.pos (q.0.1 - g.pos)
                    (omega (arith, t.size_eq, t.grows, t.bounded, i.size_eq)))
                  λ n w. Safe-bind (store_place s g n (omega (arith, i.count_le))) λ lines e. rw e (
                    gather-IsGathered fuel s cf cl (q.1 + 1)
                      (record g { lin = q.0.0; pos = q.0.1; lines = g.lines ++ (g.pos, n) ∷ [] }) v
                      h k (omega (arith, t.inside)) (omega (arith, t.below))
                      (IsGathered-stored s r g q.0.0 q.0.1 q.1 n i t w))))
      (λ d. let e : r ≡ s.rows = ground arith in safe (rw e at i))

pub gather_around-IsGathered :
    (s : Screen) (lin : Buffer Cell) (cf cl : ℕ)
    → IsValid s
    → lin.size ≡ s.rows * s.cols + 2
    → cf ≤ cl
    → cl < s.rows
    → Safe (IsGathered s s.rows) (gather_around s lin cf cl)
unfolding gather_around
gather_around-IsGathered s lin cf cl v e h k =
    Safe-bind
      (gather-IsGathered (s.rows + 1) s cf cl 0
        (record { lin = lin; pos = 0; lines = []; frozen = none }) v h k (omega arith) (omega arith)
        (record {
          size_eq = e;
          pos_le = omega arith;
          count_le = omega arith;
          lines_fit = tt;
          frozen_fit = tt;
        }))
      λ g i. safe (record {
        size_eq = i.size_eq;
        pos_le = i.pos_le;
        count_le = i.count_le;
        lines_fit = i.lines_fit;
        frozen_fit = FrozenFits-counted (length g.lines) g.frozen i.frozen_fit;
      })

-- Gathering the lines of a well-formed screen, into an array of the size that reflow allocates, ends,
-- makes no access outside an array, stores at most as many lines as there are rows, all of them
-- with two cells of the array at least behind them, and counts at most as many lines above the
-- cursor's as are stored.
pub gather_lines-IsGathered :
    (s : Screen) (lin : Buffer Cell)
    → IsValid s
    → lin.size ≡ s.rows * s.cols + 2
    → Safe (IsGathered s s.rows) (gather_lines s lin)
unfolding gather_lines
gather_lines-IsGathered s lin v e = Safe-bind (line_top-Safe s s.cur_row v v.row_in) λ cf a.
    Safe-bind (line_bottom-Safe s s.cur_row (s.rows - 1 - s.cur_row) v (omega (arith, v.row_in)))
      λ cl b. gather_around-IsGathered s lin cf cl v e (omega (arith, b.0)) b.1
