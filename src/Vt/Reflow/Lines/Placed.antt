-- ===== src/Vt/Reflow/Lines/Placed.antt =====
-- The lines of the screen take the rows that were counted, and stay inside them (_lib/vt.c, reflow).
use u.Common.{
  ℕ, zero, suc, ◌+◌, ◌-◌, ◌*◌, ◌≤◌, ◌<◌, ◌≡◌, refl, Bool, true, false, ◌&&◌, some, List, [], ◌∷◌,
  ◌==◌, ltb, leb, if◌then◌else◌, length, arith, All, Safe, safe, Safe-bind, Safe-mono, Safe-some,
  bit_or, if_cases, ◌>>=◌,
}
use u.Common.Buffer.{Buffer, read-Safe, write-Safe}
use u.Vt.Types.{Cell, Grid, Screen, cell_wide, row_wrapped}
use u.Vt.Cells.{blank_cell}
use u.Vt.Cells.Bounds.{SameSize, read_cell-Safe, write_cell-Safe}
use u.Vt.Resize.{smaller}
use u.Vt.Safety.{IsValid}
use u.Vt.Reflow.{has, Target}
use u.Vt.Reflow.Layout.{TargetFits, lay_rows-Fits, count_rows-Safe}
use u.Vt.Reflow.Gather.Rows.{row_wraps-Safe}
use u.Vt.Reflow.Gather.Bounds.{LineFits}
use u.Vt.Reflow.Lines.{
  is_empty, drop_blank, count_screen, cursor_cells, keep_wrap, cursor_rows, cursor_line, lay_lines,
  lay_screen,
}

pub drop_blank-LineFits :
    (s : Screen) (frozen i : ℕ) (ls : List (ℕ × ℕ))
    → All (LineFits s) ls
    → All (LineFits s) (drop_blank frozen i ls)
unfolding drop_blank
drop_blank-LineFits s frozen i [] h = tt
drop_blank-LineFits s frozen i (l ∷ ls) h =
    let rest = drop_blank-LineFits s frozen (i + 1) ls h.1 in
    if_cases (All (LineFits s))
      (is_empty (drop_blank frozen (i + 1) ls) && leb frozen i && l.1 == 0) (λ e. tt)
      (λ e. (h.0, rest))

-- No line before line `frozen` goes.
pub drop_blank-frozen :
    (frozen i : ℕ) (ls : List (ℕ × ℕ))
    → frozen ≤ i + length ls
    → frozen ≤ i + length (drop_blank frozen i ls)
unfolding drop_blank
drop_blank-frozen frozen i [] h = h
drop_blank-frozen frozen i (l ∷ ls) h =
    let rest = drop_blank-frozen frozen (i + 1) ls (omega arith) in
    if_cases (λ (xs : List (ℕ × ℕ)). frozen ≤ i + length xs)
      (is_empty (drop_blank frozen (i + 1) ls) && leb frozen i && l.1 == 0) (λ e. ground (arith, e))
      (λ e. omega (arith, rest))

pub count_screen-Safe :
    (s : Screen) (lin : Buffer Cell) (nc frozen i : ℕ) (ls : List (ℕ × ℕ)) (sb sa : ℕ)
    → lin.size ≡ s.rows * s.cols + 2
    → All (LineFits s) ls
    → Safe (λ (r : ℕ × ℕ). (sb ≤ r.0) × (sa ≤ r.1)) (count_screen lin nc frozen i ls sb sa)
unfolding count_screen
count_screen-Safe s lin nc frozen i [] sb sa e h = safe (omega arith, omega arith)
count_screen-Safe s lin nc frozen i (l ∷ ls) sb sa e h =
    Safe-bind (count_rows-Safe lin l.0 l.1 nc (omega (arith, h.0))) λ rows w.
      Safe-mono
        (count_screen-Safe s lin nc frozen (i + 1) ls (if ltb i frozen then sb + rows else sb)
          (if ltb i frozen then sa else sa + rows) e h.1)
        λ r q. (ground (arith, q), ground (arith, q))

cursor_cells-Safe :
    (s : Screen) (r nc : ℕ) (tg : Grid) (row c left : ℕ)
    → IsValid s
    → r < s.rows
    → row < tg.height
    → c + left ≤ s.cols
    → c + left ≤ tg.width
    → Safe (SameSize tg) (cursor_cells s r nc tg row c left)
unfolding cursor_cells
cursor_cells-Safe s r nc tg row c zero v h k l m = safe (omega arith)
cursor_cells-Safe s r nc tg row c (suc left) v h k l m =
    Safe-bind (read_cell-Safe s.cells r c (omega (arith, v.height_eq)) (omega (arith, v.width_eq)))
      λ x e.
        Safe-bind
          (write_cell-Safe tg row c
            (if c == nc - 1 && has x.flags cell_wide then blank_cell s else x) k (omega arith))
          λ g w.
            Safe-mono
              (cursor_cells-Safe s r nc g row (c + 1) left v h (omega arith) (omega arith)
                (omega arith))
              λ g' w'. omega arith

keep_wrap-Safe :
    (w : Bool) (tf : Buffer ℕ) (row : ℕ)
    → row < tf.size
    → Safe (λ (f : Buffer ℕ). f.size ≡ tf.size) (keep_wrap w tf row)
unfolding keep_wrap
keep_wrap-Safe false tf row h = safe refl
keep_wrap-Safe true tf row h =
    Safe-bind (read-Safe tf row h) λ f e. write-Safe tf row (bit_or f row_wrapped) h

cursor_rows-Fits :
    (s : Screen) (r nc : ℕ) (t : Target) (row left height : ℕ)
    → IsValid s
    → r + left ≤ s.rows
    → row + left ≤ height
    → TargetFits nc height t
    → Safe (TargetFits nc height) (cursor_rows s r nc t row left)
unfolding cursor_rows
cursor_rows-Fits s r nc t row zero height v h k f = safe f
cursor_rows-Fits s r nc t row (suc left) height v h k f =
    Safe-bind
      (cursor_cells-Safe s r nc t.tg row 0 (smaller s.cols nc) v (omega arith)
        (omega (arith, f.height_eq)) (ground arith) (ground (arith, f.width_eq)))
      λ tg e. Safe-bind (row_wraps-Safe s r v (omega arith)) λ w _.
        Safe-bind (keep_wrap-Safe w t.tf row (omega (arith, f.flags_eq))) λ tf e'.
          cursor_rows-Fits s (r + 1) nc (record { tg = tg; tf = tf }) (row + 1) left height v
            (omega arith) (omega arith)
            (record {
              height_eq = omega (arith, f.height_eq, e);
              width_eq = omega (arith, f.width_eq, e);
              flags_eq = omega (arith, f.flags_eq, e');
            })

abbrev rows_if : Bool → ℕ → ℕ
rows_if b n = if b then n else 0

cursor_line-Fits :
    (b : Bool) (s : Screen) (cf line_rows nc : ℕ) (t : Target) (row height : ℕ)
    → IsValid s
    → cf + line_rows ≤ s.rows
    → row + rows_if b line_rows ≤ height
    → TargetFits nc height t
    → Safe
        (λ (o : Target × ℕ). TargetFits nc height o.0 × (o.1 ≡ row + rows_if b line_rows))
        (cursor_line b s cf line_rows nc t row)
unfolding cursor_line
cursor_line-Fits false s cf line_rows nc t row height v h k f = safe (f, omega arith)
cursor_line-Fits true s cf line_rows nc t row height v h k f =
    Safe-bind (cursor_rows-Fits s cf nc t row line_rows height v h k f) λ t' w. safe (w, refl)

-- Whether the cursor's line stands before one of the lines.
abbrev is_among : ℕ → ℕ → List (ℕ × ℕ) → Bool
is_among frozen i ls = leb i frozen && ltb frozen (i + length ls)

counted_lines :
    (s : Screen) (lin : Buffer Cell) (nc frozen i : ℕ) (ls : List (ℕ × ℕ)) (sb sa : ℕ) {sb' sa' : ℕ}
    → lin.size ≡ s.rows * s.cols + 2
    → All (LineFits s) ls
    → count_screen lin nc frozen i ls sb sa ≡ some (sb', sa')
    → (sb ≤ sb') × (sa ≤ sa')
counted_lines s lin nc frozen i ls sb sa e h w =
    let (r, w', p) = Safe-some (count_screen-Safe s lin nc frozen i ls sb sa e h) in
    ground (arith, w, w', p)

lay_lines-Fits :
    (s : Screen) (lin : Buffer Cell) (cf line_rows nc frozen i : ℕ) (ls : List (ℕ × ℕ)) (t : Target)
    (row height sb sa : ℕ) {sb' sa' : ℕ}
    → IsValid s
    → 2 ≤ nc
    → lin.size ≡ s.rows * s.cols + 2
    → All (LineFits s) ls
    → cf + line_rows ≤ s.rows
    → count_screen lin nc frozen i ls sb sa ≡ some (sb', sa')
    → row + sb' + sa' + rows_if (is_among frozen i ls) line_rows ≤ height + sb + sa
    → TargetFits nc height t
    → Safe
        (λ (o : Target × ℕ).
          TargetFits nc height o.0
          × (o.1 + sb + sa ≡ row + sb' + sa' + rows_if (is_among frozen i ls) line_rows))
        (lay_lines s lin cf line_rows nc frozen i ls t row)
unfolding lay_lines count_screen ◌>>=◌
lay_lines-Fits s lin cf line_rows nc frozen i [] t row height sb sa v b e h k w l f =
    safe (f, ground (arith, w))
lay_lines-Fits s lin cf line_rows nc frozen i (x ∷ ls) t row height sb sa {sb'} {sa'} v b e h k w l
      f =
    let (rows, counted, lo) = Safe-some (count_rows-Safe lin x.0 x.1 nc (omega (arith, h.0))) in
    let w' : count_screen lin nc frozen (i + 1) ls (if ltb i frozen then sb + rows else sb)
          (if ltb i frozen then sa else sa + rows)
        ≡ some (sb', sa') =
      rw counted at w in
    let grows =
      counted_lines s lin nc frozen (i + 1) ls (if ltb i frozen then sb + rows else sb)
        (if ltb i frozen then sa else sa + rows) e h.1 w' in
    Safe-bind (cursor_line-Fits (i == frozen) s cf line_rows nc t row height v k (ground arith) f)
      λ o p.
        Safe-bind
          (lay_rows-Fits lin x.0 x.1 nc o.0 o.1 height rows b (omega (arith, h.0)) counted
            (ground (arith, p.1)) p.0)
          λ o' p'.
            Safe-mono
              (lay_lines-Fits s lin cf line_rows nc frozen (i + 1) ls o'.0 (o.1 + o'.1) height
                (if ltb i frozen then sb + rows else sb) (if ltb i frozen then sa else sa + rows) v
                b e h.1 k w' (ground (arith, p.1, p'.1)) p'.0)
              λ q u. (u.0, ground (arith, p.1, p'.1, u.1))

pub lay_screen-Fits :
    (s : Screen) (lin : Buffer Cell) (cf line_rows nc frozen : ℕ) (ls : List (ℕ × ℕ)) (t : Target)
    (row height : ℕ) {sb sa : ℕ}
    → IsValid s
    → 2 ≤ nc
    → lin.size ≡ s.rows * s.cols + 2
    → All (LineFits s) ls
    → frozen ≤ length ls
    → cf + line_rows ≤ s.rows
    → count_screen lin nc frozen 0 ls 0 0 ≡ some (sb, sa)
    → row + sb + sa + line_rows ≤ height
    → TargetFits nc height t
    → Safe
        (λ (o : Target × ℕ). TargetFits nc height o.0)
        (lay_screen s lin cf line_rows nc frozen ls t row)
unfolding lay_screen
lay_screen-Fits s lin cf line_rows nc frozen ls t row height v b e h m k w l f =
    Safe-bind
      (lay_lines-Fits s lin cf line_rows nc frozen 0 ls t row height 0 0 v b e h k w (ground arith)
        f)
      λ o p.
        Safe-mono
          (cursor_line-Fits (frozen == length ls) s cf line_rows nc o.0 o.1 height v k
            (ground (arith, p.1)) p.0)
          λ o' p'. p'.0
