-- ===== src/Tmux/Client/Switch.antt =====
-- Switching to a window keeps the client in order (tmux/main.c: window_create, window_free,
-- switch_to).
use u.Common.{
  ℕ, ◌+◌, ◌<◌, ◌≡◌, refl, sym, ◌∙◌, Bool, true, false, not, ◌&&◌, Option, none, some, List, [], ◌⊎◌,
  inl, inr, ◌==◌, leb, if◌then◌else◌, arith, Safe, safe, Safe-bind, Safe-if, Safe-mono,
}
use mathlib.Core.Path.{subst}
use u.Common.Buffer.{read-Safe}
use u.Vt.Safety.Escape.{vt_init-Safe}
use u.Tmux.Window.{max_windows, Pty, Window}
use u.Tmux.Client.{
  Client, child_rows, set_window, start_window, window_create, window_free, is_pristine,
  ensure_window, leave_for, switch_to,
}
use u.Tmux.Client.Valid.{
  Shows, HasSlots, IsRunning, put-HasSlots, put-same, put-other, set_window-put, refresh-same,
}

-- What a window that is made, or was there, leaves behind.
record Ensured (g : Client) (idx : ℕ) (r : Bool × Client) : Type 0 where
  slots : HasSlots r.1
  made : r.0 ≡ true → (w : Window) × (r.1.wins.at idx ≡ some w)
  failed : r.0 ≡ false → (g.wins.at idx ≡ none) × (o : ℕ) × (r.1 ≡ record g { opened = o })

with_made : (g : Client) (made : ℕ → ℕ) → HasSlots g → HasSlots (record g { made = made })
with_made g made h = record {
  size_eq = h.size_eq;
  cur_lt = h.cur_lt;
  cols_min = h.cols_min;
  slots = h.slots;
}

start_window-Ensured :
    (p : Option Pty) (g : Client) (o idx : ℕ) (argv : List (List ℕ))
    → HasSlots g
    → idx < max_windows
    → g.wins.at idx ≡ none
    → Safe (Ensured g idx) (start_window p (record g { opened = o }) idx argv)
unfolding start_window child_rows
start_window-Ensured none g o idx argv h k e = safe (record {
  slots = record { size_eq = h.size_eq; cur_lt = h.cur_lt; cols_min = h.cols_min; slots = h.slots };
  made = λ q. cc;
  failed = λ q. (e, o, refl);
})
start_window-Ensured (some pty) g o idx argv h k e =
    let h' : HasSlots (record g { opened = o }) = record {
      size_eq = h.size_eq;
      cur_lt = h.cur_lt;
      cols_min = h.cols_min;
      slots = h.slots;
    } in
    Safe-bind (vt_init-Safe (child_rows g) g.cols (ground arith) h.cols_min) λ vt v.
      Safe-bind (set_window-put (record g { opened = o }) idx _ h' k) λ g' r. safe (record {
        slots =
            with_made g' _
              (subst HasSlots (sym r) (put-HasSlots (record g { opened = o }) idx _ h' v.0));
        made = λ q. rw r (_, put-same g.wins idx _);
        failed = λ q. cc;
      })

ensure_window-Ensured :
    (pty_open : ℕ → Option Pty) (g : Client) (idx : ℕ) (slot : Option Window)
    → HasSlots g
    → idx < max_windows
    → g.wins.at idx ≡ slot
    → Safe (Ensured g idx) (ensure_window pty_open g idx slot)
unfolding ensure_window window_create
ensure_window-Ensured pty_open g idx none h k e =
    start_window-Ensured (pty_open g.opened) g (g.opened + 1) idx [] h k e
ensure_window-Ensured pty_open g idx (some w) h k e =
    safe (record { slots = h; made = λ q. (w, e); failed = λ q. cc })

leave_for-IsRunning :
    (g : Client) (idx : ℕ) (w : Window)
    → HasSlots g
    → idx < max_windows
    → g.wins.at idx ≡ some w
    → Safe IsRunning (leave_for g idx)
unfolding leave_for window_free
leave_for-IsRunning g idx w h k e =
    Safe-bind (read-Safe g.wins g.cur (omega (arith, h.size_eq, h.cur_lt))) λ prev _.
      Safe-bind (left prev) λ g' a.
        let g2 : Client = record g' { cur = idx; scrollback_mode = false; scrollback_offset = 0 } in
        let h2 : HasSlots g2 = record {
          size_eq = a.0.size_eq;
          cur_lt = k;
          cols_min = a.0.cols_min;
          slots = a.0.slots;
        } in
        Safe-mono (refresh-same g2 w h2 a.1)
          λ g3 r. subst IsRunning (sym r) (record { slots = h2; shown = λ q. rw (a.1) tt })
  where
    left :
        (prev : Option Window)
        → Safe
            (λ g'. HasSlots g' × (g'.wins.at idx ≡ some w))
            (if not (g.cur == idx) && is_pristine prev then set_window g g.cur none else some g)
    left prev =
        Safe-if (not (g.cur == idx) && is_pristine prev)
          (λ c. Safe-mono (set_window-put g g.cur none h h.cur_lt) λ g' r.
            rw r
              (put-HasSlots g g.cur none h tt, put-other g.wins g.cur idx none (ground arith) ∙ e))
          (λ c. safe (h, e))

-- Switching to a window, where one is shown or that one is there.
pub switch_to-IsRunning :
    (pty_open : ℕ → Option Pty) (g : Client) (idx : ℕ)
    → HasSlots g
    → Shows g.scrollback_mode (g.wins.at g.cur)
      ⊎ ((idx < max_windows) × ((w : Window) × (g.wins.at idx ≡ some w)))
    → Safe IsRunning (switch_to pty_open g idx)
unfolding switch_to
switch_to-IsRunning pty_open g idx h o =
    Safe-if (leb max_windows idx) (λ c. safe (record { slots = h; shown = λ q. stays c o }))
      (λ c.
        let k : idx < max_windows = ground arith in
        Safe-bind (read-Safe g.wins idx (omega (arith, h.size_eq))) λ slot r.
          Safe-bind (ensure_window-Ensured pty_open g idx slot h k (sym r)) λ x d.
            Safe-if x.0 (λ t. let (w, e) = d.made t in leave_for-IsRunning x.1 idx w d.slots k e)
              (λ t. safe (record { slots = d.slots; shown = λ q. failed x d t o })))
  where
    stays :
        leb max_windows idx ≡ true
        → Shows g.scrollback_mode (g.wins.at g.cur)
          ⊎ ((idx < max_windows) × ((w : Window) × (g.wins.at idx ≡ some w)))
        → Shows g.scrollback_mode (g.wins.at g.cur)
    stays c (inl s) = s
    stays c (inr (k, _)) = absurd (ground arith)

    failed :
        (x : Bool × Client)
        → Ensured g idx x
        → x.0 ≡ false
        → Shows g.scrollback_mode (g.wins.at g.cur)
          ⊎ ((idx < max_windows) × ((w : Window) × (g.wins.at idx ≡ some w)))
        → Shows x.1.scrollback_mode (x.1.wins.at x.1.cur)
    failed x d t (inl s) = let (_, o, e) = d.failed t in rw e s
    failed x d t (inr (_, (w, e))) = let (n, _, _) = d.failed t in absurd (cc (n, e))
