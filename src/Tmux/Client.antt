-- ===== src/Tmux/Client.antt =====
-- The windows of the live client and the commands on them (tmux/main.c: window_create, window_free,
-- switch_to, and what follows the end of a program; handle_event is in Client/Events), in the plain
-- build, with SCROLLBACK_ENABLED and without REMAIN_ON_EXIT. What is drawn is left out, but not what
-- drawing reads: `none` is the use of a window or a scrollback that is not there, or an access
-- outside an array.
pub mod Typing
pub mod Events
pub mod Valid
pub mod Switch
pub mod Resize
pub mod Commands
pub mod Serve
mod Tests
use u.Common.{
  ℕ, zero, suc, ◌+◌, ◌-◌, ◌%◌, Bool, true, false, not, ◌&&◌, ◌||◌, Option, none, some, List, [],
  ◌∷◌, ◌==◌, ltb, leb, if◌then◌else◌, length, check, ◌>>=◌,
}
use u.Common.Buffer.{Buffer, read, write}
use u.Vt.Types.{Cell, Screen, VtParser}
use u.Vt.Reflow.Commit.{vt_resize}
use u.Vt.Init.{vt_init}
use u.Tmux.Window.{max_windows, Pty, Window}
use u.Tmux.Input.{InputCmd, InputEvent}

-- The globals of the client. `opened` counts the calls of pty_open, and `detached` says that the
-- process has gone into the background, from which it does not come back. `made` is the number of
-- the pty_open with which the window of a slot was made, by which a pointer to a window is told from
-- one to its successor in the slot, and `writes` counts the calls of pty_write_all. `lost` says that
-- a window that had been freed was used by its pointer held_w, or that held bytes went out behind
-- the scrollback view: such a run is followed no further.
pub record Client : Type 0 where
  pub wins : Buffer (Option Window)
  pub cur : ℕ
  pub rows : ℕ
  pub cols : ℕ
  pub scrollback_mode : Bool
  pub scrollback_offset : ℕ
  pub quit : Bool
  pub detached : Bool
  pub opened : ℕ
  pub made : ℕ → ℕ
  pub writes : ℕ
  pub lost : Bool

unfoldable pub child_rows : Client → ℕ
child_rows g = if ltb 1 g.rows then g.rows - 1 else 1

-- `vt_resize`, with what malloc gives it, on each window there is.
unfoldable pub resize_slot : (ℕ → Cell) → ℕ → ℕ → Option Window → Option (Option Window)
resize_slot junk rows cols none = some none
resize_slot junk rows cols (some w) = do
  vt ← vt_resize junk w.vt rows cols
  some (some (record w { vt = vt }))

-- The loop over the slots, from slot `i`, with the slots left.
unfoldable pub resize_slots :
    (ℕ → Cell) → ℕ → ℕ → Buffer (Option Window) → ℕ → ℕ → Option (Buffer (Option Window))
resize_slots junk rows cols wins i zero = some wins
resize_slots junk rows cols wins i (suc left) = do
  slot ← read wins i
  slot' ← resize_slot junk rows cols slot
  wins' ← write wins i slot'
  resize_slots junk rows cols wins' (i + 1) left

-- The number of newlines of a text, and whether bytes follow the last one.
unfoldable pub sb_lines : List ℕ → ℕ
sb_lines [] = 0
sb_lines (c ∷ cs) = let n = sb_lines cs in if c == b'\n' then n + 1 else n

unfoldable pub partial_after : ℕ → List ℕ → ℕ
partial_after last [] = if last == b'\n' then 0 else 1
partial_after last (c ∷ cs) = partial_after c cs

abbrev pub partial : List ℕ → ℕ
partial text = partial_after b'\n' text

-- `total > view_rows ? total - view_rows : 0`, for the history and the rows of the screen
abbrev pub max_off : Client → Screen → List ℕ → ℕ
max_off g s text = sb_lines text + partial text + s.rows - child_rows g

-- The scrollback view clips the offset. Without a window or a scrollback, it and full_redraw call
-- one another without an end.
unfoldable pub render_scrollback_view : Client → Option Client
render_scrollback_view g = do
  slot ← read g.wins g.cur
  w ← slot
  text ← w.vt.scr.scrollback
  let most = max_off g w.vt.scr text
  some (record g {
    scrollback_offset = if ltb most g.scrollback_offset then most else g.scrollback_offset;
  })

-- The displayed window is drawn.
unfoldable pub refresh : Client → Option Client
refresh g = do slot ← read g.wins g.cur; w ← slot; some g

unfoldable pub full_redraw : Client → Option Client
full_redraw g = if g.scrollback_mode then render_scrollback_view g else refresh g

-- The terminal has a new size.
unfoldable pub handle_resize : (ℕ → Cell) → Client → ℕ → ℕ → Option Client
handle_resize junk g rows cols = do
  let g' = record g { rows = rows; cols = cols }
  wins ← resize_slots junk (child_rows g') cols g.wins 0 max_windows
  full_redraw (record g' { wins = wins })

-- Nothing is drawn where there is no window.
unfoldable pub redraw_status : Client → Option Client
redraw_status g = if g.scrollback_mode then render_scrollback_view g else some g

unfoldable pub set_window : Client → ℕ → Option Window → Option Client
set_window g idx w = do wins ← write g.wins idx w; some (record g { wins = wins })

-- A window with the terminal that pty_open gave, where it did not fail.
unfoldable pub start_window : Option Pty → Client → ℕ → List (List ℕ) → Option (Bool × Client)
start_window none g idx argv = some (false, g)
start_window (some pty) g idx argv = do
  vt ← vt_init (child_rows g) g.cols
  g' ←
      set_window g idx (
        some
          (record { pty = pty; vt = vt; alive = true; pristine = length argv == 0; argv = argv }))
  some (true, record g' { made = λ j. if j == idx then g.opened else g.made j })

-- Whether there is a new window, and the globals. `pty_open` gives what its calls return, by their
-- number: the master and the process, or nothing where it fails. A list of no words is the default
-- shell.
unfoldable pub window_create :
    (ℕ → Option Pty) → Client → ℕ → List (List ℕ) → Option (Bool × Client)
window_create pty_open g idx argv =
    start_window (pty_open g.opened) (record g { opened = g.opened + 1 }) idx argv

unfoldable pub window_free : Client → ℕ → Option Client
window_free g idx = set_window g idx none

-- Whether the window in a slot is one that nothing was typed into.
abbrev pub is_pristine : Option Window → Bool
is_pristine none = false
is_pristine (some w) = w.pristine

-- The window `idx`, which is made if it is not there.
unfoldable pub ensure_window :
    (ℕ → Option Pty) → Client → ℕ → Option Window → Option (Bool × Client)
ensure_window pty_open g idx none = window_create pty_open g idx []
ensure_window pty_open g idx (some w) = some (true, g)

-- What is left of `switch_to`, where the window is there.
unfoldable pub leave_for : Client → ℕ → Option Client
leave_for g idx = do
  prev ← read g.wins g.cur
  g' ← (if not (g.cur == idx) && is_pristine prev then window_free g g.cur else some g)
  refresh (record g' { cur = idx; scrollback_mode = false; scrollback_offset = 0 })

unfoldable pub switch_to : (ℕ → Option Pty) → Client → ℕ → Option Client
switch_to pty_open g idx = if leb max_windows idx then some g else (do
  slot ← read g.wins idx
  (there, g') ← ensure_window pty_open g idx slot
  if there then leave_for g' idx else some g')

abbrev pub is_alive : Option Window → Bool
is_alive none = false
is_alive (some w) = w.alive

abbrev pub is_free : Option Window → Bool
is_free none = true
is_free (some w) = false

-- The first slot from `j` on that passes the test, with the slots left.
unfoldable pub find_slot :
    (Option Window → Bool) → Buffer (Option Window) → ℕ → ℕ → Option (Option ℕ)
find_slot test wins j zero = some none
find_slot test wins j (suc left) = do
  slot ← read wins j
  if test slot then some (some j) else find_slot test wins (j + 1) left

-- Where no window is alive, the client ends.
unfoldable pub switch_or_quit : (ℕ → Option Pty) → Client → Option ℕ → Option Client
switch_or_quit pty_open g none = some (record g { quit = true })
switch_or_quit pty_open g (some j) = switch_to pty_open g j

-- The displayed window is gone: the first one that is alive is shown.
unfoldable pub show_another : (ℕ → Option Pty) → Client → Option Client
show_another pty_open g = do
  next ← find_slot is_alive g.wins 0 max_windows
  switch_or_quit pty_open g next

-- CMD_CLOSE_WINDOW
unfoldable pub close_window : (ℕ → Option Pty) → Client → Option Client
close_window pty_open g = do g' ← window_free g g.cur; show_another pty_open g'

-- The program of window `i` has ended.
unfoldable pub program_ended : (ℕ → Option Pty) → Client → ℕ → Option Client
program_ended pty_open g i = do
  g' ← window_free g i
  if i == g.cur then show_another pty_open g' else redraw_status g'

unfoldable pub switch_or_stay : (ℕ → Option Pty) → Client → Option ℕ → Option Client
switch_or_stay pty_open g none = some g
switch_or_stay pty_open g (some i) = switch_to pty_open g i

-- CMD_NEW_WINDOW
unfoldable pub new_window : (ℕ → Option Pty) → Client → Option Client
new_window pty_open g = do
  slot ← find_slot is_free g.wins 0 max_windows
  switch_or_stay pty_open g slot

-- CMD_SCROLLBACK_ENTER and CMD_SCROLLBACK_ENTER_PGUP, where the view starts `offset` lines up
unfoldable pub enter_view : Client → ℕ → Option (List ℕ) → Option Client
enter_view g offset none = some g
enter_view g offset (some text) =
    if ltb 0 (length text)
    then render_scrollback_view (record g { scrollback_mode = true; scrollback_offset = offset })
    else some g

unfoldable pub enter_scrollback : Client → ℕ → Option Window → Option Client
enter_scrollback g offset none = some g
enter_scrollback g offset (some w) = enter_view g offset w.vt.scr.scrollback
