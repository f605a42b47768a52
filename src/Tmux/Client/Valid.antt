-- ===== src/Tmux/Client/Valid.antt =====
-- The client always has a window to show until it ends (tmux/main.c).
use u.Common.{
  ℕ, ◌≤◌, ◌<◌, ◌≡◌, ◌≢◌, refl, sym, ◌∙◌, Bool, true, false, Option, none, some, List, inl, inr,
  ◌==◌, arith, Safe, safe, Safe-bind, Safe-if, Safe-mono, Safe-step, Bool-cases,
}
use mathlib.Core.Path.{subst}
use u.Common.Buffer.{Buffer, put, read-Safe, write-put}
use u.Vt.Safety.{ParserValid, HasText}
use u.Tmux.Window.{max_windows, Window}
use u.Tmux.Client.{Client, render_scrollback_view, refresh, full_redraw, redraw_status, set_window}

-- The terminal of a window is well-formed.
abbrev pub SlotFits : Option Window → Type 0
SlotFits none = Unit
SlotFits (some w) = ParserValid w.vt

-- There is a window, with a scrollback where that is viewed.
abbrev pub Shows : Bool → Option Window → Type 0
Shows viewing none = ⊥
Shows false (some w) = Unit
Shows true (some w) = HasText w.vt.scr.scrollback

pub record HasSlots (g : Client) : Type 0 where
  pub size_eq : g.wins.size ≡ max_windows
  pub cur_lt : g.cur < max_windows
  pub cols_min : 2 ≤ g.cols
  pub slots : (i : ℕ) → i < max_windows → SlotFits (g.wins.at i)

-- Ten slots, each free or with a well-formed terminal, and the displayed one not free until the
-- client ends.
pub record IsRunning (g : Client) : Type 0 where
  pub slots : HasSlots g
  pub shown : g.quit ≡ false → Shows g.scrollback_mode (g.wins.at g.cur)

pub put-HasSlots :
    (g : Client) (idx : ℕ) (o : Option Window)
    → HasSlots g
    → SlotFits o
    → HasSlots (record g { wins = put g.wins idx o })
put-HasSlots g idx o h f = record {
  size_eq = h.size_eq;
  cur_lt = h.cur_lt;
  cols_min = h.cols_min;
  slots = λ i k. elim (Bool-cases (i == idx)) [ inl e ↦ rw e f | inr e ↦ rw e (h.slots i k) ];
}

pub put-same : (b : Buffer (Option Window)) (i : ℕ) (o : Option Window) → (put b i o).at i ≡ o
put-same b i o = ground arith

pub put-other :
    (b : Buffer (Option Window)) (i j : ℕ) (o : Option Window) → i ≢ j → (put b i o).at j ≡ b.at j
put-other b i j o h = ground arith

pub set_window-put :
    (g : Client) (idx : ℕ) (o : Option Window)
    → HasSlots g
    → idx < max_windows
    → Safe (λ g'. g' ≡ record g { wins = put g.wins idx o }) (set_window g idx o)
unfolding set_window
set_window-put g idx o h k =
    Safe-bind (write-put g.wins idx o (omega (arith, h.size_eq))) λ b e. safe (rw e refl)

pub shown_slot :
    (viewing : Bool) (o : Option Window) → Shows viewing o → (w : Window) × (o ≡ some w)
shown_slot viewing none h = elim h [ ]
shown_slot viewing (some w) h = (w, refl)

shown_text :
    (o : Option Window)
    → Shows true o
    → (w : Window) × (t : List ℕ) × (o ≡ some w) × (w.vt.scr.scrollback ≡ some t)
shown_text none h = elim h [ ]
shown_text (some w) h = go w.vt.scr.scrollback refl h
  where
    go :
        (x : Option (List ℕ))
        → w.vt.scr.scrollback ≡ x
        → HasText x
        → (v : Window) × (t : List ℕ) × (some w ≡ some v) × (v.vt.scr.scrollback ≡ some t)
    go none e k = elim k [ ]
    go (some t) e k = (w, t, refl, e)

pub refresh-same :
    (g : Client) (w : Window)
    → HasSlots g
    → g.wins.at g.cur ≡ some w
    → Safe (λ g'. g' ≡ g) (refresh g)
unfolding refresh
refresh-same g w h e =
    Safe-bind (read-Safe g.wins g.cur (omega (arith, h.size_eq, h.cur_lt)))
      λ slot r. Safe-step _ (r ∙ e) (safe refl)

pub render_scrollback_view-IsRunning :
    (g : Client)
    → HasSlots g
    → Shows g.scrollback_mode (g.wins.at g.cur)
    → Shows true (g.wins.at g.cur)
    → Safe IsRunning (render_scrollback_view g)
unfolding render_scrollback_view
render_scrollback_view-IsRunning g h s v =
    let (w, t, ew, et) = shown_text (g.wins.at g.cur) v in
    Safe-bind (read-Safe g.wins g.cur (omega (arith, h.size_eq, h.cur_lt))) λ slot r.
      Safe-step _ (r ∙ ew) (
        Safe-step _ et (
          safe (record {
            slots = record {
              size_eq = h.size_eq;
              cur_lt = h.cur_lt;
              cols_min = h.cols_min;
              slots = h.slots;
            };
            shown = λ _. s;
          })))

-- Where the scrollback is viewed, the window has one.
pub viewed : (b : Bool) (o : Option Window) → b ≡ true → Shows b o → Shows true o
viewed true o e s = s
viewed false o e s = cc

pub full_redraw-IsRunning :
    (g : Client) → IsRunning g → g.quit ≡ false → Safe IsRunning (full_redraw g)
unfolding full_redraw
full_redraw-IsRunning g v q =
    let s = v.shown q in
    let (w, e) = shown_slot g.scrollback_mode (g.wins.at g.cur) s in
    Safe-if g.scrollback_mode
      (λ m. render_scrollback_view-IsRunning g v.slots s (viewed g.scrollback_mode _ m s))
      (λ m. Safe-mono (refresh-same g w v.slots e) λ g' r. subst IsRunning (sym r) v)

pub redraw_status-IsRunning :
    (g : Client) → IsRunning g → g.quit ≡ false → Safe IsRunning (redraw_status g)
unfolding redraw_status
redraw_status-IsRunning g v q =
    let s = v.shown q in
    Safe-if g.scrollback_mode
      (λ m. render_scrollback_view-IsRunning g v.slots s (viewed g.scrollback_mode _ m s))
      (λ m. safe v)
