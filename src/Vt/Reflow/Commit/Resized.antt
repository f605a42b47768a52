-- ===== src/Vt/Reflow/Commit/Resized.antt =====
-- A resize is safe and keeps the terminal well-formed (_lib/vt.c: reflow, scr_resize, vt_resize).
use u.Common.{
  ℕ, ◌≤◌, ◌≡◌, refl, ◌&&◌, Option, none, some, List, ◌==◌, length, take, length-take-le, arith,
  Safe, safe, Safe-bind, Safe-mono, Safe-if,
}
use mathlib.Core.Path.{subst}
use u.Common.Buffer.{Buffer}
use u.Vt.Types.{Cell, Grid, Screen, VtParser, scrollback_bytes}
use u.Vt.Safety.{IsValid, ParserValid, HasText, FlagsFit, AltFits, TextFits}
use u.Vt.Safety.Capture.{OnlyText-elim}
use u.Vt.Safety.Control.{tabs_reset-Safe}
use u.Vt.Safety.Resize.{flags_fit, alt_fit, Resized, resize_plain-Resized}
use u.Vt.Reflow.{Target}
use u.Vt.Reflow.Layout.{TargetFits}
use u.Vt.Reflow.Commit.{
  fresh_target, Laid, over_of, keep_of, committed, reflow, reflows, resize_with, scr_resize,
  vt_resize,
}
use u.Vt.Reflow.Commit.Valid.{lay_out-IsLaid, push_rows-OnlyText, fresh_target-Fits, keep_rows-Fits}

-- What a resize by either way makes of a screen, before the flags of the other grid are resized.
record Fits (s t : Screen) (rows cols : ℕ) : Type 0 where
  rows_eq : t.rows ≡ rows
  cols_eq : t.cols ≡ cols
  kept : HasText s.scrollback → HasText t.scrollback
  valid : (fl : Option (Buffer ℕ)) → FlagsFit rows fl → IsValid (record t { alt_row_flags = fl })

committed-Fits :
    (s : Screen) (x : Option (List ℕ)) (l : Laid) (new : Target) (alt : Option Grid) (nr nc : ℕ)
    → IsValid s
    → TextFits x
    → TargetFits nc nr new
    → AltFits nr nc s.in_alt_screen alt
    → 1 ≤ nr
    → 2 ≤ nc
    → (HasText s.scrollback → HasText x)
    → Fits s (committed s (record s { scrollback = x; cols = nc }) l new alt nr nc) nr nc
committed-Fits s x l new alt nr nc v tf f a h k old = record {
  rows_eq = refl;
  cols_eq = refl;
  kept = old;
  valid = λ fl e. record {
    height_eq = f.height_eq;
    width_eq = f.width_eq;
    rows_pos = h;
    cols_min = k;
    row_in = ground arith;
    col_in = ground arith;
    top_le = omega arith;
    bottom_in = omega arith;
    saved_row_in = ground arith;
    saved_col_in = ground arith;
    alt_saved_row_in = ground arith;
    alt_saved_col_in = ground arith;
    flags_fit = f.flags_eq;
    alt_flags_fit = e;
    alt_fit = a;
    text_fit = tf;
  };
}

reflow-Fits :
    (junk : ℕ → Cell) (s : Screen) (text : List ℕ) (nr nc : ℕ)
    → IsValid s
    → length text ≤ scrollback_bytes
    → 1 ≤ nr
    → 2 ≤ nc
    → Safe (λ t. Fits s t nr nc) (reflow junk s text nr nc)
unfolding reflow
reflow-Fits junk s text nr nc v b h k = Safe-bind (lay_out-IsLaid junk s text nr nc v k) λ l i.
    Safe-bind
      (push_rows-OnlyText (record s { scrollback = some (take l.text_len text); cols = nc })
        l.target 0 (over_of l nr) nc l.total
        (omega (arith, length-take-le l.text_len text, i.text_le)) (omega arith)
        (ground (arith, i.cursor)) i.fits)
      λ s' o.
        Safe-bind
          (keep_rows-Fits l.target (over_of l nr) nc (fresh_target nr nc) 0 (keep_of l nr) l.total
            nr (ground (arith, i.cursor)) (ground (arith, i.cursor)) i.fits
            (fresh_target-Fits nr nc))
          λ new f.
            Safe-bind (alt_fit s.alt_cells s.in_alt_screen s.rows s.cols nr nc v.alt_fit) λ alt a.
              safe (
                OnlyText-elim (λ s'. Fits s (committed s s' l new alt nr nc) nr nc) o
                  λ x tf old. committed-Fits s x l new alt nr nc v tf f a h k (λ _. old tt))

resized : {s t : Screen} {rows cols : ℕ} → Resized s t rows cols → Fits s t rows cols
resized r = record {
  rows_eq = r.rows_eq;
  cols_eq = r.cols_eq;
  kept = λ k. rw r.text_eq k;
  valid = r.valid;
}

resize_with-Fits :
    (o : Option (List ℕ)) (junk : ℕ → Cell) (s : Screen) (nr nc : ℕ)
    → s.scrollback ≡ o
    → IsValid s
    → 1 ≤ nr
    → 2 ≤ nc
    → Safe (λ t. Fits s t nr nc) (resize_with o junk s nr nc)
unfolding resize_with
resize_with-Fits none junk s nr nc e v h k =
    Safe-mono (resize_plain-Resized s nr nc v h k) λ t r. resized r
resize_with-Fits (some text) junk s nr nc e v h k =
    let b : TextFits (some text) = subst TextFits e v.text_fit in
    Safe-if (reflows s nc) (λ _. reflow-Fits junk s text nr nc v b h k)
      (λ _. Safe-mono (resize_plain-Resized s nr nc v h k) λ t r. resized r)

-- What a resize makes of a terminal.
pub record IsResized (p : VtParser) (rows cols : ℕ) (q : VtParser) : Type 0 where
  pub valid : ParserValid q
  pub rows_eq : q.scr.rows ≡ rows
  pub cols_eq : q.scr.cols ≡ cols
  pub kept : HasText p.scr.scrollback → HasText q.scr.scrollback

-- Resizing a well-formed terminal to at least one row and two columns, with reflow where the code
-- reflows, makes no access outside an array, whatever malloc returned, and gives a well-formed
-- terminal of the size asked for, with a scrollback if there was one.
pub vt_resize-Safe :
    (junk : ℕ → Cell) (p : VtParser) (rows cols : ℕ)
    → ParserValid p
    → 1 ≤ rows
    → 2 ≤ cols
    → Safe (IsResized p rows cols) (vt_resize junk p rows cols)
unfolding vt_resize scr_resize
vt_resize-Safe junk p rows cols v h k =
    Safe-if (rows == p.scr.rows && cols == p.scr.cols)
      (λ e.
        safe (record { valid = v; rows_eq = ground arith; cols_eq = ground arith; kept = λ t. t }))
      (λ e.
        Safe-bind (resize_with-Fits p.scr.scrollback junk p.scr rows cols refl v.screen h k) λ s r.
          Safe-bind (tabs_reset-Safe p.tabstops cols v.tabs_size) λ t w. safe (record {
            valid = record {
              params_size = v.params_size;
              num_params_le = v.num_params_le;
              inter_size = v.inter_size;
              num_inter_le = v.num_inter_le;
              osc_size = v.osc_size;
              osc_len_lt = v.osc_len_lt;
              utf8_size = v.utf8_size;
              carry_fits = v.carry_fits;
              tabs_size = w;
              screen = r.valid _ (flags_fit p.scr.rows rows s.alt_row_flags);
            };
            rows_eq = r.rows_eq;
            cols_eq = r.cols_eq;
            kept = r.kept;
          }))
