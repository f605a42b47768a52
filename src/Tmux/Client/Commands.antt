-- ===== src/Tmux/Client/Commands.antt =====
-- The commands on the windows keep a window to show (tmux/main.c: handle_event, and what follows the
-- end of a program).
use u.Common.{
  ℕ, zero, suc, ◌+◌, ◌-◌, ◌≤◌, ◌<◌, ◌≡◌, refl, sym, Bool, true, false, Option, none, some, List,
  inl, inr, ◌==◌, ltb, length, arith, Safe, safe, Safe-bind, Safe-if, Safe-mono, ◌>>=◌,
}
use mathlib.Core.Path.{subst}
use u.Common.Buffer.{Buffer, read, put, read-Safe}
use u.Tmux.Window.{max_windows, Pty, Window}
use u.Tmux.Input.{InputCmd, InputEvent}
use u.Tmux.Client.{
  Client, child_rows, window_free, switch_or_quit, switch_or_stay, enter_view, is_alive, is_free,
  find_slot, show_another, close_window, program_ended, new_window, enter_scrollback,
}
use u.Tmux.Client.Typing.{Answer, Held, one, two}
use u.Tmux.Client.Typing.Written.{Live, HeldFits, window_there}
use u.Tmux.Client.Typing.Passing.{write_to_active-Live}
use u.Tmux.Client.Events.{keeping, handle_event}
use u.Tmux.Client.Valid.{
  Shows, HasSlots, IsRunning, put-HasSlots, put-other, set_window-put,
  render_scrollback_view-IsRunning, full_redraw-IsRunning, redraw_status-IsRunning,
}
use u.Tmux.Client.Switch.{switch_to-IsRunning}

-- What a search of the slots finds: one that passes the test, or nothing.
abbrev Found : (Option Window → Bool) → Buffer (Option Window) → Option ℕ → Type 0
Found test wins none = Unit
Found test wins (some j) = (j < max_windows) × (test (wins.at j) ≡ true)

find_slot-Found :
    (test : Option Window → Bool) (wins : Buffer (Option Window)) (j left : ℕ)
    → wins.size ≡ max_windows
    → j + left ≤ max_windows
    → Safe (Found test wins) (find_slot test wins j left)
unfolding find_slot
find_slot-Found test wins j zero e h = safe tt
find_slot-Found test wins j (suc left) e h = Safe-bind (read-Safe wins j (omega arith)) λ slot r.
    Safe-if (test slot) (λ t. safe (omega arith, rw (← r) t))
      (λ t. find_slot-Found test wins (j + 1) left e (omega arith))

alive_window : (o : Option Window) → is_alive o ≡ true → (w : Window) × (o ≡ some w)
alive_window none h = cc
alive_window (some w) h = (w, refl)

show_another-IsRunning :
    (pty_open : ℕ → Option Pty) (g : Client) → HasSlots g → Safe IsRunning (show_another pty_open g)
unfolding show_another switch_or_quit
show_another-IsRunning pty_open g h =
    Safe-bind (find_slot-Found is_alive g.wins 0 max_windows h.size_eq (omega arith)) go
  where
    go :
        (next : Option ℕ)
        → Found is_alive g.wins next
        → Safe IsRunning (switch_or_quit pty_open g next)
    go none f = safe (record {
      slots = record {
        size_eq = h.size_eq;
        cur_lt = h.cur_lt;
        cols_min = h.cols_min;
        slots = h.slots;
      };
      shown = λ q. cc;
    })
    go (some j) f = switch_to-IsRunning pty_open g j h (inr (f.0, alive_window (g.wins.at j) f.1))

close_window-IsRunning :
    (pty_open : ℕ → Option Pty) (g : Client) → HasSlots g → Safe IsRunning (close_window pty_open g)
unfolding close_window window_free
close_window-IsRunning pty_open g h = Safe-bind (set_window-put g g.cur none h h.cur_lt) λ g' r.
    show_another-IsRunning pty_open g' (subst HasSlots (sym r) (put-HasSlots g g.cur none h tt))

pub program_ended-IsRunning :
    (pty_open : ℕ → Option Pty) (g : Client) (i : ℕ)
    → IsRunning g
    → g.quit ≡ false
    → i < max_windows
    → Safe IsRunning (program_ended pty_open g i)
unfolding program_ended window_free
program_ended-IsRunning pty_open g i v q k = Safe-bind (set_window-put g i none v.slots k) λ g' r.
    let h = subst HasSlots (sym r) (put-HasSlots g i none v.slots tt) in
    Safe-if (i == g.cur) (λ c. show_another-IsRunning pty_open g' h)
      (λ c.
        let g2 : Client = record g { wins = put g.wins i none } in
        let w : IsRunning g2 = record {
          slots = put-HasSlots g i none v.slots tt;
          shown = λ q. rw (put-other g.wins i g.cur none (ground arith)) (v.shown q);
        } in
        rw r (redraw_status-IsRunning g2 w q))

new_window-IsRunning :
    (pty_open : ℕ → Option Pty) (g : Client)
    → IsRunning g
    → g.quit ≡ false
    → Safe IsRunning (new_window pty_open g)
unfolding new_window switch_or_stay
new_window-IsRunning pty_open g v q =
    Safe-bind (find_slot-Found _ g.wins 0 max_windows v.slots.size_eq (omega arith))
      λ slot f. go slot
  where
    go : (slot : Option ℕ) → Safe IsRunning (switch_or_stay pty_open g slot)
    go none = safe v
    go (some i) = switch_to-IsRunning pty_open g i v.slots (inl (v.shown q))

enter_scrollback-IsRunning :
    (g : Client) (offset : ℕ) (o : Option Window)
    → IsRunning g
    → g.wins.at g.cur ≡ o
    → Safe IsRunning (enter_scrollback g offset o)
unfolding enter_scrollback enter_view
enter_scrollback-IsRunning g offset none v e = safe v
enter_scrollback-IsRunning g offset (some w) v e = go w.vt.scr.scrollback refl
  where
    go : (t : Option (List ℕ)) → w.vt.scr.scrollback ≡ t → Safe IsRunning (enter_view g offset t)
    go none f = safe v
    go (some text) f =
        let g' : Client = record g { scrollback_mode = true; scrollback_offset = offset } in
        let s : Shows true (g'.wins.at g'.cur) = rw (e, f) tt in
        let h : HasSlots g' = record {
          size_eq = v.slots.size_eq;
          cur_lt = v.slots.cur_lt;
          cols_min = v.slots.cols_min;
          slots = v.slots.slots;
        } in
        Safe-if (ltb 0 (length text)) (λ c. render_scrollback_view-IsRunning g' h s s) (λ c. safe v)

in_scrollback :
    (g : Client) (offset : ℕ)
    → IsRunning g
    → Safe IsRunning (do slot ← read g.wins g.cur; enter_scrollback g offset slot)
in_scrollback g offset v =
    Safe-bind (read-Safe g.wins g.cur (omega (arith, v.slots.size_eq, v.slots.cur_lt)))
      λ slot r. enter_scrollback-IsRunning g offset slot v (sym r)

ending :
    (g : Client) → IsRunning g → (b : Bool) → IsRunning (record g { quit = true; detached = b })
ending g v b = record {
  slots = record {
    size_eq = v.slots.size_eq;
    cur_lt = v.slots.cur_lt;
    cols_min = v.slots.cols_min;
    slots = v.slots.slots;
  };
  shown = λ q. cc;
}

detaching : (g : Client) → IsRunning g → IsRunning (record g { detached = true })
detaching g v = record {
  slots = record {
    size_eq = v.slots.size_eq;
    cur_lt = v.slots.cur_lt;
    cols_min = v.slots.cols_min;
    slots = v.slots.slots;
  };
  shown = v.shown;
}

-- What a client in order and the bytes held keep.
abbrev pub RunningHeld : Client × Held → Type 0
RunningHeld x = IsRunning x.0 × HeldFits x.1

pub keeping-RunningHeld :
    (held : Held) (x : Option Client)
    → HeldFits held
    → Safe IsRunning x
    → Safe RunningHeld (keeping held x)
unfolding keeping
keeping-RunningHeld held x f s = Safe-bind s λ g v. safe (v, f)

-- Outside the scrollback view, a client that has not ended may be typed to.
pub to_Live : (g : Client) → IsRunning g → g.quit ≡ false → g.scrollback_mode ≡ false → Live g
to_Live g v q m = record {
  slots = v.slots;
  shown = shown_window (g.wins.at g.cur) g.scrollback_mode (v.shown q);
  mode = m;
}
  where
    shown_window : (o : Option Window) (viewing : Bool) → Shows viewing o → is_free o ≡ false
    shown_window none viewing s = elim s [ ]
    shown_window (some w) viewing s = refl

pub from_Live : (g : Client) → Live g → IsRunning g
from_Live g l = record {
  slots = l.slots;
  shown = λ q. let (w, e) = window_there (g.wins.at g.cur) l.shown in rw (e, l.mode) tt;
}

-- Any event keeps a client that has not ended in order.
pub handle_event-RunningHeld :
    (pty_open : ℕ → Option Pty) (kernel : ℕ → List Answer) (g : Client) (held : Held) (c : InputCmd)
    (ev : InputEvent)
    → IsRunning g
    → HeldFits held
    → g.quit ≡ false
    → g.scrollback_mode ≡ false
    → Safe RunningHeld (handle_event pty_open kernel g held c ev)
unfolding handle_event
handle_event-RunningHeld pty_open kernel g held InputCmd.cmd_none ev v f q m = safe (v, f)
handle_event-RunningHeld pty_open kernel g held InputCmd.cmd_pass_byte ev v f q m =
    Safe-mono (write_to_active-Live pty_open kernel g held (one ev.byte) (to_Live g v q m) f)
      λ x k. (from_Live x.0 k.0, k.1)
handle_event-RunningHeld pty_open kernel g held InputCmd.cmd_pass_two ev v f q m =
    Safe-mono
      (write_to_active-Live pty_open kernel g held (two ev.byte ev.byte2) (to_Live g v q m) f)
      λ x k. (from_Live x.0 k.0, k.1)
handle_event-RunningHeld pty_open kernel g held InputCmd.cmd_new_window ev v f q m =
    keeping-RunningHeld held _ f (new_window-IsRunning pty_open g v q)
handle_event-RunningHeld pty_open kernel g held InputCmd.cmd_next_window ev v f q m =
    keeping-RunningHeld held _ f (switch_to-IsRunning pty_open g _ v.slots (inl (v.shown q)))
handle_event-RunningHeld pty_open kernel g held InputCmd.cmd_prev_window ev v f q m =
    keeping-RunningHeld held _ f (switch_to-IsRunning pty_open g _ v.slots (inl (v.shown q)))
handle_event-RunningHeld pty_open kernel g held InputCmd.cmd_select_window ev v f q m =
    keeping-RunningHeld held _ f (switch_to-IsRunning pty_open g _ v.slots (inl (v.shown q)))
handle_event-RunningHeld pty_open kernel g held InputCmd.cmd_detach ev v f q m =
    safe (detaching g v, f)
handle_event-RunningHeld pty_open kernel g held InputCmd.cmd_quit ev v f q m =
    safe (ending g v g.detached, f)
handle_event-RunningHeld pty_open kernel g held InputCmd.cmd_close_window ev v f q m =
    keeping-RunningHeld held _ f (close_window-IsRunning pty_open g v.slots)
handle_event-RunningHeld pty_open kernel g held InputCmd.cmd_scrollback_enter ev v f q m =
    keeping-RunningHeld held _ f (in_scrollback g 0 v)
handle_event-RunningHeld pty_open kernel g held InputCmd.cmd_scrollback_enter_pgup ev v f q m =
    keeping-RunningHeld held _ f (in_scrollback g (child_rows g - 1) v)
handle_event-RunningHeld pty_open kernel g held InputCmd.cmd_redraw ev v f q m =
    keeping-RunningHeld held _ f (full_redraw-IsRunning g v q)
