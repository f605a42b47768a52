-- ===== src/Vt/Scroll/Contents.antt =====
-- What scrolling up leaves on the screen (_lib/vt.c, scroll_up).
use u.Common.{
  ℕ, zero, suc, ◌+◌, ◌-◌, ◌≤◌, ◌<◌, ◌≡◌, refl, ◌&&◌, ltb, leb, ◌==◌, if◌then◌else◌, arith, Safe,
  safe, Safe-bind, Safe-mono, Safe-check, Safe-if,
}
use u.Common.Buffer.{fill-Safe}
use u.Vt.Types.{Cell, Grid, Screen}
use u.Vt.Cells.{move_rows, put_row, blank_cell}
use u.Vt.Cells.Bounds.{SameSize}
use u.Vt.Cells.Contents.{clear_row_range-Cleared}
use u.Vt.Scroll.{recycle, scroll_up_by, scroll_up, clip}
use u.Vt.Safety.{IsValid}
use u.Vt.Safety.Scroll.{captured-Safe, with_flags-Safe, move_flags-Safe}

-- Rows `to` to before `to + n` are blank in every column of the screen; the other rows are those of
-- `g`.
pub record Recycled (s : Screen) (g : Grid) (to n : ℕ) (g' : Grid) : Type 0 where
  pub size : SameSize g g'
  pub cell :
      (i j : ℕ)
      → j < s.cols
      → g'.at i j ≡ (if leb to i && ltb i (to + n) then blank_cell s else g.at i j)

put_row-at :
    (g : Grid) (r : ℕ) (row : ℕ → Cell)
    → r < g.height
    → Safe
        (λ g'. SameSize g g' × ((i j : ℕ) → g'.at i j ≡ (if i == r then row j else g.at i j)))
        (put_row g r row)
unfolding put_row
put_row-at g r row h = Safe-check _ _ (ground arith) (omega arith, λ i j. ground arith)

recycle-Recycled :
    (s : Screen) (g : Grid) (save : ℕ → ℕ → Cell) (k to n : ℕ)
    → 1 ≤ s.cols
    → s.cols ≡ g.width
    → to + n ≤ g.height
    → Safe (Recycled s g to n) (recycle s g save k to n)
unfolding recycle
recycle-Recycled s g save k to zero p e h =
    safe (record { size = omega arith; cell = λ i j l. ground arith })
recycle-Recycled s g save k to (suc n) p e h =
    Safe-bind (put_row-at g to (save k) (omega arith)) λ g1 q1.
      Safe-bind
        (clear_row_range-Cleared s g1 to 0 (s.cols - 1) (omega arith) (omega arith) (omega arith))
        λ g2 q2.
          Safe-mono (recycle-Recycled s g2 save (k + 1) (to + 1) n p (omega arith) (omega arith))
            λ g3 q3. record {
              size = omega arith;
              cell = λ i j l. ground (arith, q1.1 i j, q2.cell i j, q3.cell i j l);
            }

move_rows-at :
    (g : Grid) (to from n : ℕ)
    → to + n ≤ g.height
    → from + n ≤ g.height
    → Safe
        (λ g'.
          SameSize g g'
          × ((i j : ℕ)
              → g'.at i j
                ≡ (if leb to i && ltb i (to + n) then g.at (from + (i - to)) j else g.at i j)))
        (move_rows g to from n)
unfolding move_rows
move_rows-at g to from n h k = Safe-check _ _ (ground arith) (omega arith, λ i j. ground arith)

-- The cell that scrolling up by `n` brings to row `i`.
abbrev pub scrolled_cell : Screen → ℕ → ℕ → ℕ → Cell
scrolled_cell s n i j =
    if leb s.scroll_top i && leb i s.scroll_bottom
    then if leb (i + n) s.scroll_bottom then s.cells.at (i + n) j else blank_cell s
    else s.cells.at i j

abbrev pub ScrolledUp : Screen → ℕ → Screen → Type 0
ScrolledUp s n t = (i j : ℕ) → j < s.cols → t.cells.at i j ≡ scrolled_cell s n i j

scroll_up_by-ScrolledUp :
    (s : Screen) (height n : ℕ)
    → IsValid s
    → height ≡ s.scroll_bottom + 1 - s.scroll_top
    → n ≤ height
    → Safe (ScrolledUp s n) (scroll_up_by s height n)
unfolding scroll_up_by
scroll_up_by-ScrolledUp s height n v e h = Safe-bind (captured-Safe s n v (omega arith)) λ t o.
    Safe-bind
      (move_rows-at s.cells s.scroll_top (s.scroll_top + n) (height - n) (omega arith)
        (omega arith))
      λ g q.
        Safe-bind
          (with_flags-Safe s.rows s.row_flags v.flags_fit λ f ef.
            Safe-bind
              (move_flags-Safe f s.scroll_top (s.scroll_top + n) (height - n) (omega arith)
                (omega arith))
              λ f' ef'. Safe-mono (fill-Safe f' _ n 0 (omega arith)) λ f'' ef''. omega arith)
          λ fl ff.
            Safe-bind (recycle-Recycled s g _ 0 _ n (omega arith) (omega arith) (omega arith))
              λ g' q'. safe (λ i j l. shift i j (q.1 i j) (q'.cell i j l))
  where
    shift :
        {moved final : Cell} (i j : ℕ)
        → moved ≡ (
            if leb s.scroll_top i && ltb i (s.scroll_top + (height - n))
            then s.cells.at (s.scroll_top + n + (i - s.scroll_top)) j
            else s.cells.at i j)
        → final ≡ (
            if leb (s.scroll_bottom + 1 - n) i && ltb i (s.scroll_bottom + 1 - n + n)
            then blank_cell s
            else moved)
        → final ≡ scrolled_cell s n i j
    shift i j p q = ground arith

-- Scrolling up by `n` rows, at most the height of the region: row `i` of the region gets row `i + n`
-- where that is in the region and is blank where it is not, and no cell outside the region changes.
pub scroll_up-ScrolledUp :
    (s : Screen) (n : ℕ)
    → IsValid s
    → 1 ≤ n
    → n ≤ s.scroll_bottom + 1 - s.scroll_top
    → Safe (ScrolledUp s n) (scroll_up s n)
unfolding scroll_up
scroll_up-ScrolledUp s n v p h =
    Safe-if (n == 0) (λ e. absurd (ground arith))
      λ _.
        let e : clip n (s.scroll_bottom + 1 - s.scroll_top) ≡ n = ground arith in
        rw e (scroll_up_by-ScrolledUp s _ n v refl h)
