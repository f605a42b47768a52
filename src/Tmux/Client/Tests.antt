-- ===== src/Tmux/Client/Tests.antt =====
-- The client of the multiplexer (tmux/main.c) at concrete inputs.
use u.Common.{
  ℕ, Bool, ltb, ◌≡◌, refl, true, false, Option, none, some, List, [], ◌∷◌, ◌==◌, if◌then◌else◌,
  arith, Safe, ◌>>=◌, ◌+◌, Bool-cases, inl, inr,
}
use u.Common.Buffer.{read, write}
use u.Vt.Cells.{fresh_cell}
use u.Vt.Samples.{parser, parser-ParserValid}
use u.Tmux.Window.{Pty, Window}
use u.Tmux.Input.{InputCmd, InputEvent, event}
use u.Tmux.Client.{
  Client, close_window, window_free, set_window, show_another, find_slot, switch_or_quit,
  full_redraw, refresh, switch_to, ensure_window, leave_for,
}
use u.Tmux.Client.Valid.{IsRunning}
use u.Tmux.Client.Typing.{
  Answer, wrote, readable, Held, write_to_active, write_to_slot, write_stdin_keys, write_keys,
  key_two, key_last, release, write_held, write_slot, pty_write_all, write_one, drain_pty,
  feed_chunks, answer_cpr,
}
use u.Tmux.Client.Events.{
  ClientEvent, key, timeout, scrolled, view_left, ended, resized, serve, client_step, keeping,
  handle_event,
}
use u.Tmux.Client.Commands.{RunningHeld}
use u.Tmux.Client.Serve.{serve-IsRunning}

-- The third call fails.
abbrev ptys : ℕ → Option Pty
ptys n = if n == 2 then none else some (record { master = some (n + 5); child = n + 100 })

abbrev shell : Window
shell = record {
  pty = record { master = some 4; child = 99 };
  vt = parser;
  alive = true;
  pristine = false;
  argv = [];
}

-- One window, in the first slot.
abbrev one_window : Client
one_window = record {
  wins = record { size = 10; at = λ i. if i == 0 then some shell else none };
  cur = 0;
  rows = 4;
  cols = 4;
  scrollback_mode = false;
  scrollback_offset = 0;
  quit = false;
  detached = false;
  opened = 3;
  made = λ i. 0;
  writes = 0;
  lost = false;
}

one_window-IsRunning : IsRunning one_window
one_window-IsRunning = record {
  slots = record {
    size_eq = refl;
    cur_lt = omega arith;
    cols_min = omega arith;
    slots = λ i h. elim (Bool-cases (i == 0)) [ inl e ↦ rw e parser-ParserValid | inr e ↦ rw e tt ];
  };
  shown = λ q. tt;
}

-- In each write the first byte goes at once, then the queue is full: output is read, and the rest
-- goes.
abbrev answers : ℕ → List Answer
answers n = wrote 1 ∷ readable ((b'h' ∷ b'i' ∷ []) ∷ []) false ∷ wrote 2 ∷ []

abbrev typed : InputCmd → ℕ → ℕ → InputEvent
typed c b b' = record { cmd = c; byte = b; byte2 = b'; arg = 0 }

abbrev session : List ClientEvent
session =
    key (typed InputCmd.cmd_pass_byte b'l' 0)
    ∷ key (event InputCmd.cmd_new_window)
    ∷ key (typed InputCmd.cmd_pass_two 0x1B b'[')
    ∷ timeout
    ∷ key (event InputCmd.cmd_scrollback_enter)
    ∷ scrolled 3
    ∷ view_left
    ∷ ended 0
    ∷ resized (λ i. fresh_cell) 9 7
    ∷ key (event InputCmd.cmd_redraw)
    ∷ key (event InputCmd.cmd_close_window)
    ∷ []

serve-IsRunning_example : Safe RunningHeld (serve ptys answers one_window none session)
serve-IsRunning_example =
    serve-IsRunning ptys answers one_window none session one_window-IsRunning tt (omega arith)

-- A redraw that is typed right behind the command that closes the only window, before the loop sees
-- that the client is to end, reads the window that is gone.
redraw_after_close : (close_window ptys one_window >>= full_redraw) ≡ none
unfolding close_window window_free set_window show_another find_slot switch_or_quit full_redraw
    refresh ◌>>=◌ read write
redraw_after_close = refl

abbrev is_lost : Option (Client × Held) → Bool
is_lost none = false
is_lost (some x) = x.0.lost

abbrev in_app_mode : Window
in_app_mode = record shell { vt = record parser { scr = record parser.scr { app_cursor = true } } }

abbrev two_windows : Client
two_windows = record one_window {
  wins = record { size = 10; at = λ i. if ltb i 2 then some in_app_mode else none };
}

-- The bytes ESC [ are held back, the window is closed, and the next byte goes to the other one: the
-- held bytes are written by the pointer to the window that has been freed.
held_after_close :
    is_lost (
      serve ptys answers two_windows none (
        key (typed InputCmd.cmd_pass_two 0x1B b'[')
        ∷ key (event InputCmd.cmd_close_window)
        ∷ key (typed InputCmd.cmd_pass_byte b'x' 0)
        ∷ []))
    ≡ true
unfolding serve client_step keeping handle_event write_to_active write_to_slot write_stdin_keys
    write_keys key_two key_last release write_held write_slot pty_write_all write_one close_window
    window_free set_window show_another find_slot switch_or_quit switch_to ensure_window leave_for
    refresh drain_pty feed_chunks answer_cpr ◌>>=◌ read write
held_after_close = refl
