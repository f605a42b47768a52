-- ===== src/Vt/Safety/Put.antt =====
-- Printing a character makes no access outside the grid and keeps the screen well-formed, where the
-- screen has two columns at least.
use u.Common.{
  ℕ, zero, suc, ◌+◌, ◌-◌, ◌≤◌, ◌<◌, ◌≡◌, refl, Bool, true, ◌&&◌, ◌||◌, arith, Safe, safe, Safe-bind,
  Safe-mono, Safe-if, ltb, leb, ◌==◌, if_either, if_cases,
}
use u.Common.Buffer.{read-Safe, write-Safe}
use u.Vt.Types.{Cell, Grid, Screen, VtParser}
use u.Vt.Width.{cp_width, emoji_wide, cjk_wide}
use u.Vt.Cells.Bounds.{SameSize, write_cell-Safe, move_cells-Safe}
use u.Vt.Put.{
  mark_wrapped, wrap_pending, wrap_wide, blank_slots, insert_slots, write_char, advance, place,
  put_wide, put_char, pad_cell,
}
use u.Vt.Safety.{IsValid, ParserValid}
use u.Vt.Safety.Scroll.{with_flags-Safe, do_lf-Safe}

pub cp_width-le : (ch : ℕ) → cp_width ch ≤ 2
unfolding cp_width
cp_width-le ch =
    if_either (λ w. w ≤ 2)
      (ch == 0x200D || (leb 0xFE00 ch && leb ch 0xFE0F) || (leb 0x200B ch && leb ch 0x200F))
      (omega arith)
      (if_either (λ w. w ≤ 2) (leb 0x1100 ch && (emoji_wide ch || cjk_wide ch)) (omega arith)
        (omega arith))

mark_wrapped-Safe : (s : Screen) → IsValid s → Safe IsValid (mark_wrapped s)
unfolding mark_wrapped
mark_wrapped-Safe s v =
    Safe-bind
      (with_flags-Safe s.rows s.row_flags v.flags_fit λ f e.
        Safe-bind (read-Safe f s.cur_row (omega arith))
          λ b _. Safe-mono (write-Safe f s.cur_row _ (omega arith)) λ f' e'. omega arith)
      λ fl ff. safe (ground arith)

wrap_pending-Safe : (s : Screen) → IsValid s → Safe IsValid (wrap_pending s)
unfolding wrap_pending
wrap_pending-Safe s v =
    Safe-if s.pending_wrap
      (λ _.
        Safe-if s.auto_wrap
          (λ _.
            Safe-bind (mark_wrapped-Safe s v)
              λ t w. Safe-mono (do_lf-Safe _ (ground arith)) (λ t' q. q.0))
          (λ _. safe (ground arith)))
      (λ _. safe v)

-- Wherever the flag is true there is room for the character on the row.
abbrev Roomy : ℕ → Screen × Bool → Type 0
Roomy width r = IsValid r.0 × (r.1 ≡ true → r.0.cur_col + width ≤ r.0.cols)

wrap_wide-Safe :
    (s : Screen) (width : ℕ) → IsValid s → width ≤ 2 → Safe (Roomy width) (wrap_wide s width)
unfolding wrap_wide
wrap_wide-Safe s width v h =
    Safe-if (width == 2 && leb s.cols (s.cur_col + 1))
      (λ _.
        Safe-bind
          (write_cell-Safe s.cells s.cur_row s.cur_col (pad_cell s) (omega arith) (omega arith))
          λ g d.
            Safe-if s.auto_wrap
              (λ _. Safe-bind (mark_wrapped-Safe (record s { cells = g }) (ground arith)) λ t w.
                Safe-bind (do_lf-Safe (record t { cur_col = 0 }) (ground arith))
                  λ t' w'. safe (w'.0, λ _. omega arith))
              (λ _. safe (ground arith, λ e. absurd (cc e))))
      (λ e. safe (v, λ _. ground arith))

blank_slots-Safe :
    (b : Cell) (g : Grid) (r c n : ℕ)
    → r < g.height
    → c + n ≤ g.width
    → Safe (SameSize g) (blank_slots b g r c n)
unfolding blank_slots
blank_slots-Safe b g r c zero h k = safe (omega arith)
blank_slots-Safe b g r c (suc n) h k = Safe-bind (write_cell-Safe g r c b h (omega arith)) λ g' d.
    Safe-mono (blank_slots-Safe b g' r (c + 1) n (omega arith) (omega arith)) λ g'' d'. omega arith

-- A screen that differs from `s` in its cells alone.
abbrev pub Redrawn : Screen → Screen → Type 0
Redrawn s t = (g : Grid) × (t ≡ record s { cells = g }) × SameSize s.cells g

insert_slots-Safe :
    (s : Screen) (width : ℕ)
    → IsValid s
    → s.cur_col + width ≤ s.cols
    → Safe (Redrawn s) (insert_slots s width)
unfolding insert_slots
insert_slots-Safe s width v h =
    Safe-if s.insert_mode
      (λ _.
        Safe-bind {P = SameSize s.cells}
          (Safe-if (ltb 0 (s.cols - (s.cur_col + width)))
            (λ _. move_cells-Safe s.cells s.cur_row _ _ _ (omega arith) (omega arith) (omega arith))
            (λ _. safe (omega arith)))
          λ g d.
            Safe-bind (blank_slots-Safe _ g s.cur_row s.cur_col width (omega arith) (omega arith))
              λ g' d'. safe (g', refl, omega arith))
      (λ _. safe (s.cells, refl, omega arith))

write_char-Safe :
    (s : Screen) (ch width : ℕ)
    → IsValid s
    → s.cur_col + width ≤ s.cols
    → Safe (Redrawn s) (write_char s ch width)
unfolding write_char
write_char-Safe s ch width v h =
    Safe-bind (write_cell-Safe s.cells s.cur_row s.cur_col _ (omega arith) (omega arith)) λ g d.
      Safe-bind {P = SameSize s.cells}
        (Safe-if (width == 2 && ltb (s.cur_col + 1) s.cols)
          (λ e.
            Safe-mono (write_cell-Safe g s.cur_row (s.cur_col + 1) _ (omega arith) (ground arith))
              λ g' d'. omega arith)
          (λ _. safe d))
        λ g' d'. safe (g', refl, d')

Redrawn-IsValid : {s t : Screen} → IsValid s → Redrawn s t → IsValid t
Redrawn-IsValid v (g, e, d) = rw e (ground arith)

advance-IsValid : (s : Screen) (width : ℕ) → IsValid s → IsValid (advance s width)
unfolding advance
advance-IsValid s width v =
    if_cases IsValid (leb s.cols (s.cur_col + width)) (λ e. ground arith) (λ e. ground arith)

place-Safe :
    (s : Screen) (ch width : ℕ)
    → IsValid s
    → s.cur_col + width ≤ s.cols
    → Safe IsValid (place s ch width)
unfolding place
place-Safe s ch width v h = Safe-bind (insert_slots-Safe s width v h) λ t r.
    let w = Redrawn-IsValid v r in
    Safe-bind (write_char-Safe t ch width w (rw r.1 h))
      λ t' r'. safe (advance-IsValid t' width (Redrawn-IsValid w r'))

pub put_wide-Safe :
    (s : Screen) (ch width : ℕ) → IsValid s → width ≤ 2 → Safe IsValid (put_wide s ch width)
unfolding put_wide
put_wide-Safe s ch width v h = Safe-bind (wrap_pending-Safe s v) λ t w.
    Safe-bind (wrap_wide-Safe t width w h)
      λ r q. Safe-if r.1 (λ e. place-Safe r.0 ch width q.0 (q.1 e)) (λ _. safe q.0)

pub put_char-Safe : (p : VtParser) (ch : ℕ) → ParserValid p → Safe ParserValid (put_char p ch)
unfolding put_char
put_char-Safe p ch v =
    Safe-if (cp_width ch == 0) (λ _. safe v)
      λ _.
        Safe-bind (put_wide-Safe p.scr ch (cp_width ch) v.screen (cp_width-le ch))
          λ t w. safe (ground arith)
