-- ===== src/Vt/Safety/Scroll.antt =====
-- Scrolling makes no access outside the grid, the row flags and the scrollback, and keeps the screen
-- well-formed.
use u.Common.{
  ℕ, zero, suc, ◌+◌, ◌-◌, ◌≤◌, ◌<◌, ◌≡◌, refl, Option, none, some, List, arith, Safe, safe,
  Safe-bind, Safe-mono, Safe-check, Safe-if, ltb, ◌==◌, if◌then◌else◌, ◌&&◌, not,
}
use u.Common.Buffer.{Buffer, read-Safe, fill-Safe}
use mathlib.Core.Path.{subst, sym}
use u.Vt.Types.{Cell, Grid, Screen}
use u.Vt.Cells.Bounds.{SameSize, SameSize-refl, clear_row_range-Safe, move_rows-Safe, put_row-Safe}
use u.Vt.Scroll.{
  move_flags, with_flags, flag_of, capture_rows, recycle, scroll_up_by, scroll_up, scroll_down_by,
  scroll_down, do_lf, do_ri,
}
use u.Vt.Safety.{IsValid, FlagsFit, TextFits}
use u.Vt.Safety.Capture.{OnlyText, OnlyText-elim, scrollback_capture-Safe}

pub move_flags-Safe :
    (f : Buffer ℕ) (to from n : ℕ)
    → to + n ≤ f.size
    → from + n ≤ f.size
    → Safe (λ f'. f'.size ≡ f.size) (move_flags f to from n)
unfolding move_flags
move_flags-Safe f to from n h k = Safe-check _ _ (ground arith) refl

-- A step on the flags that is safe on an array of `rows` is safe where the array may be missing.
pub with_flags-Safe :
    (rows : ℕ) (o : Option (Buffer ℕ)) {k : Buffer ℕ → Option (Buffer ℕ)}
    → FlagsFit rows o
    → ((f : Buffer ℕ) → f.size ≡ rows → Safe (λ f'. f'.size ≡ rows) (k f))
    → Safe (FlagsFit rows) (with_flags o k)
unfolding with_flags
with_flags-Safe rows none fit step = safe tt
with_flags-Safe rows (some f) fit step = Safe-bind (step f fit) λ f' e. safe e

pub flag_of-Safe :
    (rows : ℕ) (o : Option (Buffer ℕ)) (r : ℕ)
    → FlagsFit rows o
    → r < rows
    → Safe (λ v. Unit) (flag_of o r)
unfolding flag_of
flag_of-Safe rows none r fit h = safe tt
flag_of-Safe rows (some f) r fit h = Safe-mono (read-Safe f r (omega arith)) λ v e. tt

-- Scrolling leaves alone all but the cells, the row flags and the scrollback, which keep their sizes.
pub record Scrolled (s t : Screen) : Type 0 where
  pub same : t ≡ record s { cells = t.cells; row_flags = t.row_flags; scrollback = t.scrollback }
  pub size : SameSize s.cells t.cells
  pub flags : FlagsFit s.rows t.row_flags
  pub text : TextFits t.scrollback

-- What holds of `s` with any cells, flags and scrollback that fit holds of a scrolled screen.
pub Scrolled-elim :
    (P : Screen → Type 0) {s t : Screen}
    → Scrolled s t
    → ((g : Grid) (fl : Option (Buffer ℕ)) (tx : Option (List ℕ))
        → SameSize s.cells g
        → FlagsFit s.rows fl
        → TextFits tx
        → P (record s { cells = g; row_flags = fl; scrollback = tx }))
    → P t
Scrolled-elim P {s} {t} o h =
    subst P (sym o.same) (h t.cells t.row_flags t.scrollback o.size o.flags o.text)

pub Scrolled-refl : (s : Screen) → IsValid s → Scrolled s s
Scrolled-refl s v = record {
  same = refl;
  size = SameSize-refl s.cells;
  flags = v.flags_fit;
  text = v.text_fit;
}

-- A scrolled screen is well-formed, if it was so before.
pub Scrolled-IsValid : {s t : Screen} → IsValid s → Scrolled s t → IsValid t
Scrolled-IsValid v o = Scrolled-elim IsValid o λ g fl tx d ff fx. ground arith

capture_rows-Safe :
    (s : Screen) (r n : ℕ)
    → s.cells.height ≡ s.rows
    → s.cells.width ≡ s.cols
    → FlagsFit s.rows s.row_flags
    → TextFits s.scrollback
    → r + n ≤ s.rows
    → Safe (OnlyText s) (capture_rows s r n)
unfolding capture_rows
capture_rows-Safe s r zero eh ew ff tf h = safe (record { same = refl; fits = tf; kept = λ k. k })
capture_rows-Safe s r (suc n) eh ew ff tf h =
    Safe-bind (flag_of-Safe s.rows s.row_flags r ff (omega arith)) λ v _.
      Safe-bind (scrollback_capture-Safe s s.cells r v tf (omega arith) (omega arith)) λ t o.
        OnlyText-elim (λ t. Safe (OnlyText s) (capture_rows t (r + 1) n)) o
          λ x fx old.
            Safe-mono
              (capture_rows-Safe (record s { scrollback = x }) (r + 1) n eh ew ff fx (omega arith))
              λ u q. record { same = q.same; fits = q.fits; kept = λ k. q.kept (old k) }

recycle-Safe :
    (s : Screen) (g : Grid) (save : ℕ → ℕ → Cell) (i to n : ℕ)
    → 1 ≤ s.cols
    → s.cols ≡ g.width
    → to + n ≤ g.height
    → Safe (SameSize g) (recycle s g save i to n)
unfolding recycle
recycle-Safe s g save i to zero p e h = safe (omega arith)
recycle-Safe s g save i to (suc n) p e h =
    Safe-bind (put_row-Safe g to (save i) (omega arith)) λ g' d.
      Safe-bind
        (clear_row_range-Safe s g' to 0 (s.cols - 1) (omega arith) (omega arith) (omega arith))
        λ g'' d'.
          Safe-mono (recycle-Safe s g'' save (i + 1) (to + 1) n p (omega arith) (omega arith))
            λ g3 d3. omega arith

scroll_down_by-Safe :
    (s : Screen) (height n : ℕ)
    → IsValid s
    → height ≡ s.scroll_bottom + 1 - s.scroll_top
    → n ≤ height
    → Safe (Scrolled s) (scroll_down_by s height n)
unfolding scroll_down_by
scroll_down_by-Safe s height n v e h =
    Safe-bind
      (move_rows-Safe s.cells (s.scroll_top + n) s.scroll_top (height - n) (omega arith)
        (omega arith))
      λ g d.
        Safe-bind
          (with_flags-Safe s.rows s.row_flags v.flags_fit λ f ef.
            Safe-bind
              (move_flags-Safe f (s.scroll_top + n) s.scroll_top (height - n) (omega arith)
                (omega arith))
              λ f' ef'.
                Safe-mono (fill-Safe f' s.scroll_top n 0 (omega arith)) λ f'' ef''. omega arith)
          λ fl ff.
            Safe-bind
              (recycle-Safe s g _ 0 s.scroll_top n (omega arith) (omega arith) (omega arith))
              λ g' d'.
                safe (record { same = refl; size = omega arith; flags = ff; text = v.text_fit })

-- The departing rows go to the scrollback, on the primary screen and at its top alone.
pub captured-Safe :
    (s : Screen) (n : ℕ)
    → IsValid s
    → s.scroll_top + n ≤ s.rows
    → Safe
        (OnlyText s)
        (if s.scroll_top == 0 && not s.in_alt_screen then capture_rows s s.scroll_top n else some s)
captured-Safe s n v h =
    Safe-if (s.scroll_top == 0 && not s.in_alt_screen)
      (λ _. capture_rows-Safe s s.scroll_top n v.height_eq v.width_eq v.flags_fit v.text_fit h)
      (λ _. safe (record { same = refl; fits = v.text_fit; kept = λ k. k }))

scroll_up_by-Safe :
    (s : Screen) (height n : ℕ)
    → IsValid s
    → height ≡ s.scroll_bottom + 1 - s.scroll_top
    → n ≤ height
    → Safe (Scrolled s) (scroll_up_by s height n)
unfolding scroll_up_by
scroll_up_by-Safe s height n v e h = Safe-bind (captured-Safe s n v (omega arith)) λ t o.
    Safe-bind
      (move_rows-Safe s.cells s.scroll_top (s.scroll_top + n) (height - n) (omega arith)
        (omega arith))
      λ g d.
        Safe-bind
          (with_flags-Safe s.rows s.row_flags v.flags_fit λ f ef.
            Safe-bind
              (move_flags-Safe f s.scroll_top (s.scroll_top + n) (height - n) (omega arith)
                (omega arith))
              λ f' ef'. Safe-mono (fill-Safe f' _ n 0 (omega arith)) λ f'' ef''. omega arith)
          λ fl ff.
            Safe-bind (recycle-Safe s g _ 0 _ n (omega arith) (omega arith) (omega arith)) λ g' d'.
              safe (
                OnlyText-elim (λ t. Scrolled s (record t { cells = g'; row_flags = fl })) o
                  λ x fx _. record { same = refl; size = omega arith; flags = ff; text = fx })

-- Scrolling up, by any number of rows, makes no access outside the arrays of a well-formed screen,
-- and changes nothing but the cells, the flags of the rows and the text scrolled out, which keep
-- their sizes and their bound.
pub scroll_up-Safe : (s : Screen) (n : ℕ) → IsValid s → Safe (Scrolled s) (scroll_up s n)
unfolding scroll_up
scroll_up-Safe s n v =
    Safe-if (n == 0) (λ _. safe (Scrolled-refl s v))
      (λ _. scroll_up_by-Safe s _ _ v refl (ground arith))

pub scroll_down-Safe : (s : Screen) (n : ℕ) → IsValid s → Safe (Scrolled s) (scroll_down s n)
unfolding scroll_down
scroll_down-Safe s n v =
    Safe-if (n == 0) (λ _. safe (Scrolled-refl s v))
      (λ _. scroll_down_by-Safe s _ _ v refl (ground arith))

-- A line feed moves the cursor down or scrolls, and leaves its column.
pub do_lf-Safe :
    (s : Screen)
    → IsValid s
    → Safe (λ t. IsValid t × (t.cur_col ≡ s.cur_col) × (t.cols ≡ s.cols)) (do_lf s)
unfolding do_lf
do_lf-Safe s v =
    Safe-bind {P = λ t. IsValid t × (t.cur_col ≡ s.cur_col) × (t.cols ≡ s.cols)}
      (Safe-if (s.cur_row == s.scroll_bottom)
        (λ _. Safe-mono (scroll_up-Safe s 1 v) λ t o. (
          Scrolled-IsValid v o,
          Scrolled-elim (λ t. t.cur_col ≡ s.cur_col) o (λ g fl tx d ff fx. refl),
          Scrolled-elim (λ t. t.cols ≡ s.cols) o (λ g fl tx d ff fx. refl),
        ))
        λ _.
          Safe-if (ltb s.cur_row (s.rows - 1)) (λ e. safe (ground arith, refl, refl))
            (λ _. safe (v, refl, refl)))
      λ t (w, ec, en). safe (ground arith, ec, en)

pub do_ri-Safe : (s : Screen) → IsValid s → Safe IsValid (do_ri s)
unfolding do_ri
do_ri-Safe s v =
    Safe-bind {P = IsValid}
      (Safe-if (s.cur_row == s.scroll_top)
        (λ _. Safe-mono (scroll_down-Safe s 1 v) (λ t o. Scrolled-IsValid v o))
        λ _. Safe-if (ltb 0 s.cur_row) (λ e. safe (ground arith)) (λ _. safe v))
      λ t w. safe (ground arith)
