-- ===== src/Tmux/Client/Typing/Passing.antt =====
-- Typing to the displayed window keeps the client in order (tmux/main.c: write_stdin_keys,
-- window_respawn, write_to_active, keys_flush).
use u.Common.{
  ℕ, ◌+◌, ◌<◌, ◌≡◌, sym, Bool, false, not, ◌&&◌, ◌||◌, Option, none, some, List, ◌==◌, arith, Safe,
  safe, Safe-bind, Safe-if, Safe-mono,
}
use mathlib.Core.Path.{subst}
use u.Common.Buffer.{read-Safe}
use u.Vt.Safety.Escape.{vt_init-Safe}
use u.Tmux.Window.{max_windows, Pty, Window}
use u.Tmux.Client.{Client, child_rows, full_redraw}
use u.Tmux.Client.Valid.{refresh-same}
use u.Tmux.Client.Typing.{
  Answer, Held, is_there, Passed, write_keys, is_held, is_open, write_stdin_keys, respawn_with,
  respawn_slot, window_respawn, respawn_on, respawn_keys, write_to_slot, write_to_active, flush_to,
  keys_flush,
}
use u.Tmux.Client.Typing.Written.{
  Live, HeldFits, LiveHeld, window_there, slot-ParserValid, set_window-Live, with_counts,
  write_slot-Live, write_held-Live, key_last-Live, key_two-Live,
}

write_keys-Live :
    (kernel : ℕ → List Answer) (app : Bool) (g : Client) (held : Held) (bytes : Passed)
    → Live g
    → HeldFits held
    → Safe LiveHeld (write_keys kernel app g held bytes)
unfolding write_keys
write_keys-Live kernel app g held (Passed.one b) l h = key_last-Live kernel app g held b l h
write_keys-Live kernel app g held (Passed.two b c) l h = key_two-Live kernel app g held b c l h

write_stdin_keys-Live :
    (kernel : ℕ → List Answer) (g : Client) (held : Held) (w : Window) (bytes : Passed)
    → Live g
    → HeldFits held
    → Safe LiveHeld (write_stdin_keys kernel g held w bytes)
unfolding write_stdin_keys
write_stdin_keys-Live kernel g held w bytes l h =
    Safe-if (not w.vt.scr.app_cursor && not (is_held held))
      (λ c.
        Safe-bind (write_slot-Live kernel g g.cur _ l l.slots.cur_lt l.shown) λ g' k. safe (k, h))
      (λ c. write_keys-Live kernel w.vt.scr.app_cursor g held bytes l h)

-- A full redraw outside the scrollback view changes nothing.
full_redraw-Live : (g : Client) → Live g → Safe Live (full_redraw g)
unfolding full_redraw
full_redraw-Live g l =
    let (w, e) = window_there (g.wins.at g.cur) l.shown in
    Safe-if g.scrollback_mode (λ c. absurd (cc (c, l.mode)))
      (λ c. Safe-mono (refresh-same g w l.slots e) λ g' r. subst Live (sym r) l)

respawn_with-Live :
    (p : Option Pty) (g : Client) (idx : ℕ) (w : Window)
    → Live g
    → idx < max_windows
    → Safe (λ x. Live x.1) (respawn_with p g idx w)
unfolding respawn_with child_rows
respawn_with-Live none g idx w l k = safe l
respawn_with-Live (some pty) g idx w l k =
    Safe-bind (vt_init-Safe (child_rows g) g.cols (ground arith) l.slots.cols_min)
      λ vt v. Safe-bind (set_window-Live g idx _ l k v.0) λ g' m. safe m

respawn_slot-Live :
    (pty_open : ℕ → Option Pty) (g : Client) (idx : ℕ) (slot : Option Window)
    → Live g
    → idx < max_windows
    → Safe (λ x. Live x.1) (respawn_slot pty_open g idx slot)
unfolding respawn_slot
respawn_slot-Live pty_open g idx none l k = safe l
respawn_slot-Live pty_open g idx (some w) l k =
    Safe-if w.alive (λ c. safe l)
      (λ c.
        respawn_with-Live (pty_open g.opened) _ idx w
          (with_counts g (g.opened + 1) g.writes g.lost l) k)

window_respawn-Live :
    (pty_open : ℕ → Option Pty) (g : Client) (idx : ℕ)
    → Live g
    → idx < max_windows
    → Safe (λ x. Live x.1) (window_respawn pty_open g idx)
unfolding window_respawn
window_respawn-Live pty_open g idx l k =
    Safe-bind (read-Safe g.wins idx (omega (arith, l.slots.size_eq)))
      λ slot r. respawn_slot-Live pty_open g idx slot l k

respawn_on-Live :
    (pty_open : ℕ → Option Pty) (g : Client) (b : ℕ) → Live g → Safe Live (respawn_on pty_open g b)
unfolding respawn_on
respawn_on-Live pty_open g b l =
    Safe-if (b == b'\r' || b == b'\n')
      (λ c.
        Safe-bind (window_respawn-Live pty_open g g.cur l l.slots.cur_lt)
          λ x k. Safe-if x.0 (λ t. full_redraw-Live x.1 k) (λ t. safe k))
      (λ c. safe l)

respawn_keys-Live :
    (pty_open : ℕ → Option Pty) (g : Client) (bytes : Passed)
    → Live g
    → Safe Live (respawn_keys pty_open g bytes)
unfolding respawn_keys
respawn_keys-Live pty_open g (Passed.one b) l = respawn_on-Live pty_open g b l
respawn_keys-Live pty_open g (Passed.two b c) l =
    Safe-bind (respawn_on-Live pty_open g b l) λ g' k. respawn_on-Live pty_open g' c k

write_to_slot-Live :
    (pty_open : ℕ → Option Pty) (kernel : ℕ → List Answer) (g : Client) (held : Held)
    (bytes : Passed) (slot : Option Window)
    → Live g
    → HeldFits held
    → g.wins.at g.cur ≡ slot
    → Safe LiveHeld (write_to_slot pty_open kernel g held bytes slot)
unfolding write_to_slot
write_to_slot-Live pty_open kernel g held bytes none l h e = safe (l, h)
write_to_slot-Live pty_open kernel g held bytes (some w) l h e =
    Safe-if w.alive
      (λ c.
        Safe-bind
          (set_window-Live g g.cur (record w { pristine = false }) l l.slots.cur_lt
            (slot-ParserValid g g.cur w l.slots l.slots.cur_lt e))
          λ g' k. write_stdin_keys-Live kernel g' held w bytes k h)
      (λ c. Safe-bind (respawn_keys-Live pty_open g bytes l) λ g' k. safe (k, h))

pub write_to_active-Live :
    (pty_open : ℕ → Option Pty) (kernel : ℕ → List Answer) (g : Client) (held : Held)
    (bytes : Passed)
    → Live g
    → HeldFits held
    → Safe LiveHeld (write_to_active pty_open kernel g held bytes)
unfolding write_to_active
write_to_active-Live pty_open kernel g held bytes l h =
    Safe-bind (read-Safe g.wins g.cur (omega (arith, l.slots.size_eq, l.slots.cur_lt)))
      λ slot r. write_to_slot-Live pty_open kernel g held bytes slot l h (sym r)

flush_to-Live :
    (kernel : ℕ → List Answer) (g : Client) (p : ℕ × ℕ) (slot : Option Window)
    → Live g
    → p.0 < max_windows
    → Safe Live (flush_to kernel g p slot)
unfolding flush_to
flush_to-Live kernel g p none l k = write_held-Live kernel g p 2 l k
flush_to-Live kernel g p (some w) l k =
    Safe-if (is_there g p (some w) && not (w.alive && is_open w.pty.master)) (λ c. safe l)
      (λ c. write_held-Live kernel g p 2 l k)

pub keys_flush-Live :
    (kernel : ℕ → List Answer) (g : Client) (held : Held)
    → Live g
    → HeldFits held
    → Safe LiveHeld (keys_flush kernel g held)
unfolding keys_flush
keys_flush-Live kernel g none l h = safe (l, tt)
keys_flush-Live kernel g (some p) l h =
    Safe-bind (read-Safe g.wins p.0 (omega (arith, l.slots.size_eq)))
      λ slot r. Safe-bind (flush_to-Live kernel g p slot l h) λ g' k. safe (k, tt)
