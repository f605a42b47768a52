-- ===== src/Tmux/Client/Events.antt =====
-- The events of the keys and what else the main loop acts on (tmux/main.c: handle_event,
-- scrollback_feed, the loops of main).
use u.Common.{
  ℕ, ◌+◌, ◌-◌, ◌%◌, Bool, true, false, ◌||◌, Option, none, some, List, [], ◌∷◌, if◌then◌else◌,
  ◌>>=◌,
}
use u.Common.Buffer.{read}
use u.Vt.Types.{Cell}
use u.Tmux.Window.{max_windows, Pty}
use u.Tmux.Input.{InputCmd, InputEvent}
use u.Tmux.Client.{
  Client, child_rows, switch_to, close_window, program_ended, new_window, enter_scrollback,
  full_redraw, refresh, handle_resize, render_scrollback_view,
}
use u.Tmux.Client.Typing.{Answer, Held, one, two, is_held, write_to_active, keys_flush}

-- The event of a command, which holds no bytes back and releases none.
unfoldable pub keeping : Held → Option Client → Option (Client × Held)
keeping held x = do g' ← x; some (g', held)

-- The two globals that handle_event changes are the client and what is held.
unfoldable pub handle_event :
    (ℕ → Option Pty)
    → (ℕ → List Answer)
    → Client
    → Held
    → InputCmd
    → InputEvent
    → Option (Client × Held)
handle_event pty_open kernel g held InputCmd.cmd_none ev = some (g, held)
handle_event pty_open kernel g held InputCmd.cmd_pass_byte ev =
    write_to_active pty_open kernel g held (one ev.byte)
handle_event pty_open kernel g held InputCmd.cmd_pass_two ev =
    write_to_active pty_open kernel g held (two ev.byte ev.byte2)
handle_event pty_open kernel g held InputCmd.cmd_new_window ev =
    keeping held (new_window pty_open g)
handle_event pty_open kernel g held InputCmd.cmd_next_window ev =
    keeping held (switch_to pty_open g ((g.cur + 1) % max_windows))
handle_event pty_open kernel g held InputCmd.cmd_prev_window ev =
    keeping held (switch_to pty_open g ((g.cur + max_windows - 1) % max_windows))
handle_event pty_open kernel g held InputCmd.cmd_select_window ev =
    keeping held (switch_to pty_open g ev.arg)
handle_event pty_open kernel g held InputCmd.cmd_detach ev =
    some (record g { detached = true }, held)
handle_event pty_open kernel g held InputCmd.cmd_quit ev = some (record g { quit = true }, held)
handle_event pty_open kernel g held InputCmd.cmd_close_window ev =
    keeping held (close_window pty_open g)
handle_event pty_open kernel g held InputCmd.cmd_scrollback_enter ev =
    keeping held (do slot ← read g.wins g.cur; enter_scrollback g 0 slot)
handle_event pty_open kernel g held InputCmd.cmd_scrollback_enter_pgup ev =
    keeping held (do slot ← read g.wins g.cur; enter_scrollback g (child_rows g - 1) slot)
handle_event pty_open kernel g held InputCmd.cmd_redraw ev = keeping held (full_redraw g)

-- What the main loop acts on here: a key's event, the timer of the bytes held, what a byte does to
-- the scrollback view (a new offset, or its end), the end of the program in a slot, or a new size of
-- the terminal.
pub data ClientEvent : Type 0 where
  key : InputEvent → ClientEvent
  timeout : ClientEvent
  scrolled : ℕ → ClientEvent
  view_left : ClientEvent
  ended : ℕ → ClientEvent
  resized : (ℕ → Cell) → ℕ → ℕ → ClientEvent

unfoldable pub leave_view : Client → Option Client
leave_view g = refresh (record g { scrollback_mode = false; scrollback_offset = 0 })

-- The viewer has the bytes of the keys as long as it is open, and there is no event then.
unfoldable pub client_step :
    (ℕ → Option Pty) → (ℕ → List Answer) → Client → Held → ClientEvent → Option (Client × Held)
client_step pty_open kernel g held (ClientEvent.key ev) =
    if g.scrollback_mode then some (g, held) else handle_event pty_open kernel g held ev.cmd ev
client_step pty_open kernel g held ClientEvent.timeout =
    if g.scrollback_mode
    then some (record g { lost = is_held held }, none)
    else keys_flush kernel g held
client_step pty_open kernel g held (ClientEvent.scrolled n) =
    if g.scrollback_mode
    then keeping held (render_scrollback_view (record g { scrollback_offset = n }))
    else some (g, held)
client_step pty_open kernel g held ClientEvent.view_left =
    if g.scrollback_mode then keeping held (leave_view g) else some (g, held)
client_step pty_open kernel g held (ClientEvent.ended i) = keeping held (program_ended pty_open g i)
client_step pty_open kernel g held (ClientEvent.resized junk rows cols) =
    keeping held (handle_resize junk g rows cols)

abbrev pub is_over : Client → Bool
is_over g = g.quit || g.detached || g.lost

-- `while (!g_quit)`, one event in each round; a process that has detached goes on with none. A round
-- of the code may handle several events, between which g_quit is not tested: those behind the one
-- that sets it are left out here.
unfoldable pub serve :
    (ℕ → Option Pty) → (ℕ → List Answer) → Client → Held → List ClientEvent → Option (Client × Held)
serve pty_open kernel g held [] = some (g, held)
serve pty_open kernel g held (e ∷ es) =
    if is_over g
    then some (g, held)
    else (do (g', held') ← client_step pty_open kernel g held e; serve pty_open kernel g' held' es)
