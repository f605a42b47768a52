-- ===== src/Tmux/Client/Typing/Written.antt =====
-- Passing bytes on keeps the client in order (tmux/main.c: drain_pty, pty_write_all,
-- write_to_active, keys_flush).
use u.Common.{
  ℕ, zero, suc, ◌+◌, ◌-◌, ◌<◌, ◌≡◌, refl, sym, ◌∙◌, Bool, true, false, ◌&&◌, Option, none, some,
  List, [], ◌∷◌, ◌==◌, leb, arith, Safe, safe, Safe-bind, Safe-if, Safe-mono, Safe-step, Bool-cases,
  inl, inr,
}
use mathlib.Core.Path.{subst}
use u.Common.Buffer.{put, read-Safe}
use u.Vt.Types.{VtParser}
use u.Vt.Safety.{ParserValid}
use u.Vt.Safety.Feed.{vt_feed-Safe}
use u.Tmux.Window.{max_windows, Window}
use u.Tmux.Client.{Client, set_window, is_free}
use u.Tmux.Client.Valid.{SlotFits, HasSlots, put-HasSlots, set_window-put}
use u.Tmux.Client.Typing.{
  Answer, answer_cpr, feed_chunks, drain_pty, pty_write_all, write_slot, Held, is_there, write_held,
  release, is_arrow, write_one, key_last, key_two,
}

answer_cpr-ParserValid :
    (master : Option ℕ) (w : Window) → ParserValid w.vt → ParserValid (answer_cpr master w).vt
unfolding answer_cpr
answer_cpr-ParserValid none w v = v
answer_cpr-ParserValid (some fd) w v = ground arith

feed_chunks-Safe :
    (p : VtParser) (chunks : List (List ℕ))
    → ParserValid p
    → Safe ParserValid (feed_chunks p chunks)
unfolding feed_chunks
feed_chunks-Safe p [] v = safe v
feed_chunks-Safe p (c ∷ cs) v = Safe-bind (vt_feed-Safe p c v) λ q w. feed_chunks-Safe q cs w

drain_pty-Safe :
    (w : Window) (chunks : List (List ℕ)) (gone : Bool)
    → ParserValid w.vt
    → Safe (λ u. ParserValid u.vt) (drain_pty w chunks gone)
unfolding drain_pty
drain_pty-Safe w chunks gone v =
    Safe-bind (feed_chunks-Safe w.vt chunks v)
      λ vt k. safe (answer_cpr-ParserValid w.pty.master _ k)

pty_write_all-Safe :
    (answers : List Answer) (stalled n : ℕ) (w : Window)
    → ParserValid w.vt
    → Safe (λ u. ParserValid u.vt) (pty_write_all answers stalled n w)
unfolding pty_write_all
pty_write_all-Safe [] stalled n w v = safe v
pty_write_all-Safe (a ∷ more) stalled zero w v = safe v
pty_write_all-Safe (Answer.wrote k ∷ more) stalled (suc n) w v =
    pty_write_all-Safe more 0 (suc n - k) w v
pty_write_all-Safe (Answer.interrupted ∷ more) stalled (suc n) w v =
    pty_write_all-Safe more stalled (suc n) w v
pty_write_all-Safe (Answer.failed ∷ more) stalled (suc n) w v = safe v
pty_write_all-Safe (Answer.readable chunks gone ∷ more) stalled (suc n) w v =
    Safe-bind (drain_pty-Safe w chunks gone v) λ u k. pty_write_all-Safe more 0 (suc n) u k
pty_write_all-Safe (Answer.writable ∷ more) stalled (suc n) w v =
    pty_write_all-Safe more 0 (suc n) w v
pty_write_all-Safe (Answer.silent ∷ more) stalled (suc n) w v =
    Safe-if (leb 10 (stalled + 1)) (λ c. safe v)
      (λ c. pty_write_all-Safe more (stalled + 1) (suc n) w v)

-- The ten slots, the displayed one with a window, and the scrollback view closed.
pub record Live (g : Client) : Type 0 where
  pub slots : HasSlots g
  pub shown : is_free (g.wins.at g.cur) ≡ false
  pub mode : g.scrollback_mode ≡ false

-- The slot of `held_w` is one of the ten.
abbrev pub HeldFits : Held → Type 0
HeldFits none = Unit
HeldFits (some p) = p.0 < max_windows

-- A client in order, and what is held.
abbrev pub LiveHeld : Client × Held → Type 0
LiveHeld x = Live x.0 × HeldFits x.1

pub window_there : (o : Option Window) → is_free o ≡ false → (w : Window) × (o ≡ some w)
window_there none h = cc
window_there (some w) h = (w, refl)

-- A slot that gets a window with a well-formed terminal.
put-Live :
    (g : Client) (idx : ℕ) (w : Window)
    → Live g
    → idx < max_windows
    → ParserValid w.vt
    → Live (record g { wins = put g.wins idx (some w) })
put-Live g idx w l k v = record {
  slots = put-HasSlots g idx (some w) l.slots v;
  shown = elim (Bool-cases (g.cur == idx)) [ inl e ↦ rw e refl | inr e ↦ rw e (l.shown) ];
  mode = l.mode;
}

pub slot-ParserValid :
    (g : Client) (idx : ℕ) (w : Window)
    → HasSlots g
    → idx < max_windows
    → g.wins.at idx ≡ some w
    → ParserValid w.vt
slot-ParserValid g idx w h k e = subst SlotFits e (h.slots idx k)

pub set_window-Live :
    (g : Client) (idx : ℕ) (w : Window)
    → Live g
    → idx < max_windows
    → ParserValid w.vt
    → Safe Live (set_window g idx (some w))
set_window-Live g idx w l k v =
    Safe-mono (set_window-put g idx (some w) l.slots k)
      λ g' r. subst Live (sym r) (put-Live g idx w l k v)

-- Counting a call, or losing the run, leaves the windows as they are.
pub with_counts :
    (g : Client) (opened writes : ℕ) (lost : Bool)
    → Live g
    → Live (record g { opened = opened; writes = writes; lost = lost })
with_counts g opened writes lost l = record {
  slots = record {
    size_eq = l.slots.size_eq;
    cur_lt = l.slots.cur_lt;
    cols_min = l.slots.cols_min;
    slots = l.slots.slots;
  };
  shown = l.shown;
  mode = l.mode;
}

pub write_slot-Live :
    (kernel : ℕ → List Answer) (g : Client) (slot n : ℕ)
    → Live g
    → slot < max_windows
    → is_free (g.wins.at slot) ≡ false
    → Safe Live (write_slot kernel g slot n)
unfolding write_slot
write_slot-Live kernel g slot n l k f =
    let (w, e) = window_there (g.wins.at slot) f in
    Safe-bind (read-Safe g.wins slot (omega (arith, l.slots.size_eq))) λ o r. Safe-step _ (r ∙ e) (
      Safe-bind (pty_write_all-Safe (kernel g.writes) 0 n w (slot-ParserValid g slot w l.slots k e))
        λ u v.
          set_window-Live (record g { writes = g.writes + 1 }) slot u
            (with_counts g g.opened (g.writes + 1) g.lost l) k v)

pub write_held-Live :
    (kernel : ℕ → List Answer) (g : Client) (p : ℕ × ℕ) (n : ℕ)
    → Live g
    → p.0 < max_windows
    → Safe Live (write_held kernel g p n)
unfolding write_held
write_held-Live kernel g p n l k =
    Safe-bind (read-Safe g.wins p.0 (omega (arith, l.slots.size_eq))) λ slot r.
      Safe-if (is_there g p slot)
        (λ c. write_slot-Live kernel g p.0 n l k (rw (← r) (ground arith)))
        (λ c. safe (with_counts g g.opened g.writes true l))

release-Live :
    (kernel : ℕ → List Answer) (g : Client) (held : Held) (app : Bool) (c : ℕ)
    → Live g
    → HeldFits held
    → Safe (λ x. Live x.1) (release kernel g held app c)
unfolding release
release-Live kernel g none app c l h = safe l
release-Live kernel g (some p) app c l h =
    Safe-if (app && is_arrow c)
      (λ t. Safe-bind (write_slot-Live kernel g g.cur 3 l l.slots.cur_lt l.shown) λ g' k. safe k)
      (λ t. Safe-bind (write_held-Live kernel g p 2 l h) λ g' k. safe k)

write_one-Live :
    (kernel : ℕ → List Answer) (g : Client) → Live g → Safe LiveHeld (write_one kernel g)
unfolding write_one
write_one-Live kernel g l =
    Safe-bind (write_slot-Live kernel g g.cur 1 l l.slots.cur_lt l.shown) λ g' k. safe (k, tt)

pub key_last-Live :
    (kernel : ℕ → List Answer) (app : Bool) (g : Client) (held : Held) (c : ℕ)
    → Live g
    → HeldFits held
    → Safe LiveHeld (key_last kernel app g held c)
unfolding key_last
key_last-Live kernel app g held c l h =
    Safe-bind (release-Live kernel g held app c l h)
      λ x k. Safe-if x.0 (λ t. safe (k, tt)) (λ t. write_one-Live kernel x.1 k)

pub key_two-Live :
    (kernel : ℕ → List Answer) (app : Bool) (g : Client) (held : Held) (c d : ℕ)
    → Live g
    → HeldFits held
    → Safe LiveHeld (key_two kernel app g held c d)
unfolding key_two
key_two-Live kernel app g held c d l h = Safe-bind (release-Live kernel g held app c l h) λ x k.
    Safe-if x.0 (λ t. key_last-Live kernel app x.1 none d k tt)
      (λ t.
        Safe-if (app && (c == 0x1B && d == b'[')) (λ t. safe (k, k.slots.cur_lt))
          (λ t.
            Safe-bind (write_one-Live kernel x.1 k)
              λ y m. key_last-Live kernel app y.0 y.1 d m.0 m.1))
