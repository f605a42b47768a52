-- ===== src/Tmux/Client/Serve.antt =====
-- The client serves its events without a fault (tmux/main.c: the main loop, scrollback_feed).
use u.Common.{
  ℕ, ◌≤◌, ◌<◌, ◌≡◌, sym, Bool, true, false, Option, List, [], ◌∷◌, arith, Safe, safe, Safe-bind,
  Safe-if, Safe-mono, All,
}
use mathlib.Core.Path.{subst}
use u.Tmux.Window.{max_windows, Pty}
use u.Tmux.Client.{Client, render_scrollback_view}
use u.Tmux.Client.Typing.{Answer, Held, is_held}
use u.Tmux.Client.Typing.Written.{HeldFits}
use u.Tmux.Client.Typing.Passing.{keys_flush-Live}
use u.Tmux.Client.Events.{ClientEvent, is_over, leave_view, client_step, serve}
use u.Tmux.Client.Resize.{handle_resize-IsRunning}
use u.Tmux.Client.Valid.{
  HasSlots, IsRunning, refresh-same, shown_slot, viewed, render_scrollback_view-IsRunning,
}
use u.Tmux.Client.Commands.{
  RunningHeld, keeping-RunningHeld, to_Live, from_Live, handle_event-RunningHeld,
  program_ended-IsRunning,
}

-- The slot of an event is one of the ten, and a new size has two columns at least.
abbrev pub EventFits : ClientEvent → Type 0
EventFits (ClientEvent.key ev) = Unit
EventFits ClientEvent.timeout = Unit
EventFits (ClientEvent.scrolled n) = Unit
EventFits ClientEvent.view_left = Unit
EventFits (ClientEvent.ended i) = i < max_windows
EventFits (ClientEvent.resized junk rows cols) = 2 ≤ cols

same_slots :
    (g : Client) (mode lost : Bool) (offset : ℕ)
    → HasSlots g
    → HasSlots (record g { scrollback_mode = mode; scrollback_offset = offset; lost = lost })
same_slots g mode lost offset h = record {
  size_eq = h.size_eq;
  cur_lt = h.cur_lt;
  cols_min = h.cols_min;
  slots = h.slots;
}

leave_view-IsRunning : (g : Client) → IsRunning g → g.quit ≡ false → Safe IsRunning (leave_view g)
unfolding leave_view
leave_view-IsRunning g v q =
    let (w, e) = shown_slot g.scrollback_mode (g.wins.at g.cur) (v.shown q) in
    let g' : Client = record g { scrollback_mode = false; scrollback_offset = 0 } in
    let h : HasSlots g' = same_slots g false g.lost 0 v.slots in
    Safe-mono (refresh-same g' w h e)
      λ g2 r. subst IsRunning (sym r) (record { slots = h; shown = λ _. rw e tt })

scrolled-IsRunning :
    (g : Client) (n : ℕ)
    → IsRunning g
    → g.quit ≡ false
    → g.scrollback_mode ≡ true
    → Safe IsRunning (render_scrollback_view (record g { scrollback_offset = n }))
scrolled-IsRunning g n v q m =
    let s = v.shown q in
    render_scrollback_view-IsRunning (record g { scrollback_offset = n })
      (same_slots g g.scrollback_mode g.lost n v.slots) s (viewed g.scrollback_mode _ m s)

client_step-RunningHeld :
    (pty_open : ℕ → Option Pty) (kernel : ℕ → List Answer) (g : Client) (held : Held)
    (e : ClientEvent)
    → IsRunning g
    → HeldFits held
    → g.quit ≡ false
    → EventFits e
    → Safe RunningHeld (client_step pty_open kernel g held e)
unfolding client_step
client_step-RunningHeld pty_open kernel g held (ClientEvent.key ev) v f q h =
    Safe-if g.scrollback_mode (λ m. safe (v, f))
      (λ m. handle_event-RunningHeld pty_open kernel g held ev.cmd ev v f q m)
client_step-RunningHeld pty_open kernel g held ClientEvent.timeout v f q h =
    Safe-if g.scrollback_mode
      (λ m. safe (
        record {
          slots = same_slots g g.scrollback_mode (is_held held) g.scrollback_offset v.slots;
          shown = v.shown;
        },
        tt,
      ))
      (λ m.
        Safe-mono (keys_flush-Live kernel g held (to_Live g v q m) f)
          λ x k. (from_Live x.0 k.0, k.1))
client_step-RunningHeld pty_open kernel g held (ClientEvent.scrolled n) v f q h =
    Safe-if g.scrollback_mode (λ m. keeping-RunningHeld held _ f (scrolled-IsRunning g n v q m))
      (λ m. safe (v, f))
client_step-RunningHeld pty_open kernel g held ClientEvent.view_left v f q h =
    Safe-if g.scrollback_mode (λ m. keeping-RunningHeld held _ f (leave_view-IsRunning g v q))
      (λ m. safe (v, f))
client_step-RunningHeld pty_open kernel g held (ClientEvent.ended i) v f q h =
    keeping-RunningHeld held _ f (program_ended-IsRunning pty_open g i v q h)
client_step-RunningHeld pty_open kernel g held (ClientEvent.resized junk rows cols) v f q h =
    keeping-RunningHeld held _ f (handle_resize-IsRunning junk g rows cols v q h)

-- Whatever keys are typed, their bytes passed on included, whenever the timer of held bytes runs
-- out, however the scrollback view is moved or left, whatever programs end and however the terminal
-- is resized to two columns at least, in any order, up to the event that ends the client, whichever
-- calls of pty_open fail, and whatever the kernel answers to the writes, a client that shows a
-- window never uses a window or a scrollback that is not there and makes no access outside an array,
-- and in the end it has ten slots with well-formed terminals, one of them shown unless it has quit. A
-- run ends early, marked as lost, where a window that has been freed is reached by the pointer
-- held_w, or the timer runs out while the scrollback is viewed.
pub serve-IsRunning :
    (pty_open : ℕ → Option Pty) (kernel : ℕ → List Answer) (g : Client) (held : Held)
    (es : List ClientEvent)
    → IsRunning g
    → HeldFits held
    → All EventFits es
    → Safe RunningHeld (serve pty_open kernel g held es)
unfolding serve
serve-IsRunning pty_open kernel g held [] v f h = safe (v, f)
serve-IsRunning pty_open kernel g held (e ∷ es) v f h =
    Safe-if (is_over g) (λ c. safe (v, f))
      (λ c.
        Safe-bind (client_step-RunningHeld pty_open kernel g held e v f (ground arith) h.0)
          λ x k. serve-IsRunning pty_open kernel x.0 x.1 es k.0 k.1 h.1)
