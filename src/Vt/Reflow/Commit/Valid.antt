-- ===== src/Vt/Reflow/Commit/Valid.antt =====
-- A resize is safe and keeps the screen well-formed (_lib/vt.c, vt_resize).
use u.Common.{
  ℕ, zero, suc, ◌+◌, ◌-◌, ◌*◌, ◌≤◌, ◌<◌, ◌≡◌, refl, Bool, true, false, ◌&&◌, Option, none, some,
  List, ◌==◌, ltb, length, arith, Safe, safe, Safe-bind, Safe-mono, Safe-step, Safe-some,
  Safe-check, inl,
}
use u.Common.Buffer.{Buffer, read-Safe, write-Safe}
use u.Vt.Types.{Cell, Grid, Screen}
use u.Vt.Cells.{alloc_cells}
use u.Vt.Cells.Bounds.{SameSize}
use u.Vt.Safety.{IsValid, TextFits}
use u.Vt.Safety.Capture.{OnlyText, OnlyText-elim, scrollback_capture-Safe}
use u.Vt.Reflow.{Target}
use u.Vt.Reflow.Layout.{TargetFits}
use u.Vt.Reflow.Gather.Rows.{line_top-Safe, line_bottom-Safe}
use u.Vt.Reflow.Gather.Bounds.{FrozenFits, gather_around-IsGathered}
use u.Vt.Reflow.History.{text_buffer, capacity}
use u.Vt.Reflow.History.Pulled.{StartsLine, line_start-Safe, done, IsPulled, pull_lines-IsPulled}
use u.Vt.Reflow.History.Placed.{lay_history-Fits}
use u.Vt.Reflow.Lines.{drop_blank}
use u.Vt.Reflow.Lines.Placed.{
  drop_blank-LineFits, drop_blank-frozen, count_screen-Safe, lay_screen-Fits,
}
use u.Vt.Reflow.Commit.{
  fresh_target, line_number, pull_history, Laid, lay_out, push_rows, take_row, keep_rows,
}

pub fresh_target-Fits : (total nc : ℕ) → TargetFits nc total (fresh_target total nc)
unfolding alloc_cells
fresh_target-Fits total nc = record { height_eq = refl; width_eq = refl; flags_eq = refl }

pull_history-IsPulled :
    (pulls : Bool) (b : Buffer ℕ) (tmp : Buffer Cell) (nr nc screen_rows cut : ℕ)
    → cut ≤ b.size
    → tmp.size ≡ capacity nr nc
    → StartsLine b cut
    → Safe
        (λ (r : ℕ × ℕ). IsPulled b tmp nr nc cut screen_rows r.0 r.1)
        (pull_history pulls b tmp nr nc screen_rows cut)
unfolding pull_history
pull_history-IsPulled false b tmp nr nc screen_rows cut h e w =
    safe (record { inside = omega arith; history = done; fits = inl refl })
pull_history-IsPulled true b tmp nr nc screen_rows cut h e w =
    pull_lines-IsPulled cut b tmp nr nc cut screen_rows cut 0 h e (omega arith) w
      (record { inside = omega arith; history = done; fits = inl refl })

-- What `lay_out` gives.
pub record IsLaid (text : List ℕ) (nc : ℕ) (l : Laid) : Type 0 where
  pub fits : TargetFits nc l.total l.target
  pub cursor : l.cur_abs < l.total
  pub text_le : l.text_len ≤ length text

frozen_le : (n : ℕ) (o : Option ℕ) → FrozenFits n o → line_number n o ≤ n
frozen_le n none h = omega arith
frozen_le n (some f) h = h

pub lay_out-IsLaid :
    (junk : ℕ → Cell) (s : Screen) (text : List ℕ) (nr nc : ℕ)
    → IsValid s
    → 2 ≤ nc
    → Safe (IsLaid text nc) (lay_out junk s text nr nc)
unfolding lay_out
lay_out-IsLaid junk s text nr nc v w =
    Safe-bind (line_start-Safe (text_buffer text) (length text) (omega arith)) λ cut a.
      let (cut_le, starts, _) = a in
      Safe-bind (line_top-Safe s s.cur_row v v.row_in) λ cf b.
        Safe-bind
          (line_bottom-Safe s s.cur_row (s.rows - 1 - s.cur_row) v (omega (arith, v.row_in)))
          λ cl c.
            Safe-bind
              (gather_around-IsGathered s (record { size = s.rows * s.cols + 2; at = junk }) cf cl v
                refl (omega (arith, c.0)) c.1)
              λ g i.
                let lines = drop_blank (line_number (length g.lines) g.frozen) 0 g.lines in
                let fit =
                  drop_blank-LineFits s (line_number (length g.lines) g.frozen) 0 g.lines
                    i.lines_fit in
                let within = frozen_le (length g.lines) g.frozen i.frozen_fit in
                let frozen =
                  drop_blank-frozen (line_number (length g.lines) g.frozen) 0 g.lines
                    (omega arith) in
                let (counts, counted, _) = Safe-some (
                  count_screen-Safe s g.lin nc (line_number (length g.lines) g.frozen) 0 lines 0 0
                    i.size_eq fit) in
                Safe-step _ counted (
                  Safe-bind
                    (pull_history-IsPulled (ltb s.rows nr && cut == length text) (text_buffer text)
                      (record { size = capacity nr nc; at = junk }) nr nc
                      (counts.0 + (cl - cf + 1) + counts.1) cut cut_le refl starts)
                    λ pulled q.
                      let total = pulled.1 + (counts.0 + (cl - cf + 1) + counts.1) in
                      Safe-bind
                        (lay_history-Fits cut (text_buffer text)
                          (record { size = capacity nr nc; at = junk }) nr nc cut pulled.0
                          (fresh_target total nc) 0 total pulled.1 w cut_le refl (omega arith)
                          (ground (arith, q.fits)) (omega arith) (fresh_target-Fits total nc)
                          q.history)
                        λ t f.
                          Safe-bind
                            (lay_screen-Fits s g.lin cf (cl - cf + 1) nc
                              (line_number (length g.lines) g.frozen) lines t.0 t.1 total v w
                              i.size_eq fit (omega (arith, frozen)) (omega (arith, c)) counted
                              (omega (arith, f.1)) f.0)
                            λ t' f'. safe (record {
                              fits = f';
                              cursor = omega arith;
                              text_le = ground (arith, q.inside);
                            }))

pub push_rows-OnlyText :
    (s : Screen) (t : Target) (r left nc height : ℕ)
    → TextFits s.scrollback
    → s.cols ≤ nc
    → r + left ≤ height
    → TargetFits nc height t
    → Safe (OnlyText s) (push_rows s t r left)
unfolding push_rows
push_rows-OnlyText s t r zero nc height tf h k f =
    safe (record { same = refl; fits = tf; kept = λ k. k })
push_rows-OnlyText s t r (suc left) nc height tf h k f =
    Safe-bind (read-Safe t.tf r (omega (arith, f.flags_eq))) λ fl _.
      Safe-bind
        (scrollback_capture-Safe s t.tg r fl tf (omega (arith, f.height_eq))
          (omega (arith, f.width_eq)))
        λ s' o.
          OnlyText-elim (λ s'. Safe (OnlyText s) (push_rows s' t (r + 1) left)) o
            λ x tf' old.
              Safe-mono
                (push_rows-OnlyText (record s { scrollback = x }) t (r + 1) left nc height tf' h
                  (omega arith) f)
                λ q p. record { same = p.same; fits = p.fits; kept = λ k. p.kept (old k) }

take_row-SameSize :
    (g : Grid) (r : ℕ) (tg : Grid) (from nc : ℕ)
    → r < g.height
    → nc ≤ g.width
    → from < tg.height
    → nc ≤ tg.width
    → Safe (SameSize g) (take_row g r tg from nc)
unfolding take_row
take_row-SameSize g r tg from nc a b c d = Safe-check _ _ (ground arith) (omega arith)

pub keep_rows-Fits :
    (t : Target) (over nc : ℕ) (new : Target) (r left height nr : ℕ)
    → over + r + left ≤ height
    → r + left ≤ nr
    → TargetFits nc height t
    → TargetFits nc nr new
    → Safe (TargetFits nc nr) (keep_rows t over nc new r left)
unfolding keep_rows
keep_rows-Fits t over nc new r zero height nr h k f g = safe g
keep_rows-Fits t over nc new r (suc left) height nr h k f g =
    Safe-bind
      (take_row-SameSize new.tg r t.tg (over + r) nc (omega (arith, g.height_eq))
        (omega (arith, g.width_eq)) (omega (arith, f.height_eq)) (omega (arith, f.width_eq)))
      λ ng e. Safe-bind (read-Safe t.tf (over + r) (omega (arith, f.flags_eq))) λ x _.
        Safe-bind (write-Safe new.tf r x (omega (arith, g.flags_eq))) λ nf e'.
          keep_rows-Fits t over nc (record { tg = ng; tf = nf }) (r + 1) left height nr
            (omega arith) (omega arith) f
            (record {
              height_eq = omega (arith, g.height_eq, e);
              width_eq = omega (arith, g.width_eq, e);
              flags_eq = omega (arith, g.flags_eq, e');
            })
