-- ===== src/Tmux/Client/Typing.antt =====
-- The bytes that the client passes on to the displayed window (tmux/main.c: drain_pty,
-- pty_write_all, write_stdin_keys, keys_flush, window_respawn, write_to_active; tmux/session.c:
-- window_answer_cpr). What the kernel answers is a list of values; the bytes themselves leave the
-- model.
pub mod Written
pub mod Passing
use u.Common.{
  ℕ, zero, suc, ◌+◌, ◌-◌, Bool, true, false, not, ◌&&◌, ◌||◌, Option, none, some, List, [], ◌∷◌,
  ◌==◌, leb, if◌then◌else◌, length, ◌>>=◌,
}
use u.Common.Buffer.{read}
use u.Vt.Types.{VtParser}
use u.Vt.Init.{vt_init}
use u.Vt.Feed.{vt_feed}
use u.Tmux.Window.{Pty, Window}
use u.Tmux.Client.{Client, child_rows, set_window, full_redraw, is_free}

-- What one round of `pty_write_all` meets: bytes taken, EINTR, another error, or a full queue, with
-- what `select` says: output to read, which comes in chunks and ends with EAGAIN or with an error,
-- room to write, or nothing for 100 ms.
pub data Answer : Type 0 where
  wrote : ℕ → Answer
  interrupted : Answer
  failed : Answer
  readable : List (List ℕ) → Bool → Answer
  writable : Answer
  silent : Answer

unfoldable pub answer_cpr : Option ℕ → Window → Window
answer_cpr none w = w
answer_cpr (some fd) w = record w { vt = record w.vt { cpr_requested = false } }

abbrev pub window_answer_cpr : Window → Window
window_answer_cpr w = answer_cpr w.pty.master w

unfoldable pub feed_chunks : VtParser → List (List ℕ) → Option VtParser
feed_chunks p [] = some p
feed_chunks p (c ∷ cs) = do p' ← vt_feed p c; feed_chunks p' cs

-- `gone` says that the last read fails with an error that is not EAGAIN.
unfoldable pub drain_pty : Window → List (List ℕ) → Bool → Option Window
drain_pty w chunks gone = do
  vt ← feed_chunks w.vt chunks
  some (window_answer_cpr (record w { vt = vt; alive = if gone then false else w.alive }))

-- With the bytes left, and the rounds in which nothing moved. It ends with the answers there are.
unfoldable pub pty_write_all : List Answer → ℕ → ℕ → Window → Option Window
pty_write_all [] stalled n w = some w
pty_write_all (a ∷ more) stalled zero w = some w
pty_write_all (Answer.wrote k ∷ more) stalled (suc n) w = pty_write_all more 0 (suc n - k) w
pty_write_all (Answer.interrupted ∷ more) stalled (suc n) w = pty_write_all more stalled (suc n) w
pty_write_all (Answer.failed ∷ more) stalled (suc n) w = some w
pty_write_all (Answer.readable chunks gone ∷ more) stalled (suc n) w = do
  w' ← drain_pty w chunks gone
  pty_write_all more 0 (suc n) w'
pty_write_all (Answer.writable ∷ more) stalled (suc n) w = pty_write_all more 0 (suc n) w
pty_write_all (Answer.silent ∷ more) stalled (suc n) w =
    let rest = pty_write_all more (stalled + 1) (suc n) w in
    if leb 10 (stalled + 1) then some w else rest

-- A write of `n` bytes to the window in slot `slot`; `kernel` gives the answers by the number of the
-- call.
unfoldable pub write_slot : (ℕ → List Answer) → Client → ℕ → ℕ → Option Client
write_slot kernel g slot n = do
  o ← read g.wins slot
  w ← o
  w' ← pty_write_all (kernel g.writes) 0 n w
  set_window (record g { writes = g.writes + 1 }) slot (some w')

-- `held_w`, where nheld is not 0: the slot of the window, and the number with which it was made.
abbrev pub Held : Type 0
Held = Option (ℕ × ℕ)

-- Whether the window of `held_w` is still the one in its slot.
abbrev pub is_there : Client → ℕ × ℕ → Option Window → Bool
is_there g p slot = g.made p.0 == p.1 && not (is_free slot)

-- A write through `held_w`. Where that window has been freed, what the code does is undefined:
-- `lost`.
unfoldable pub write_held : (ℕ → List Answer) → Client → ℕ × ℕ → ℕ → Option Client
write_held kernel g p n = do
  slot ← read g.wins p.0
  if is_there g p slot then write_slot kernel g p.0 n else some (record g { lost = true })

-- `c >= 'A' && c <= 'D'`
abbrev pub is_arrow : ℕ → Bool
is_arrow c = leb b'A' c && leb c b'D'

-- What is held goes out before byte `c`: as an arrow key with it, where the flag is true, or as it
-- was.
unfoldable pub release : (ℕ → List Answer) → Client → Held → Bool → ℕ → Option (Bool × Client)
release kernel g none app c = some (false, g)
release kernel g (some p) app c =
    if app && is_arrow c
    then (do g' ← write_slot kernel g g.cur 3; some (true, g'))
    else (do g' ← write_held kernel g p 2; some (false, g'))

-- One byte that is passed as it is.
unfoldable pub write_one : (ℕ → List Answer) → Client → Option (Client × Held)
write_one kernel g = do g' ← write_slot kernel g g.cur 1; some (g', none)

-- The loop of `write_stdin_keys`, for the one or two bytes of an event, of which the second is the
-- last. `app` is app_cursor.
unfoldable pub key_last : (ℕ → List Answer) → Bool → Client → Held → ℕ → Option (Client × Held)
key_last kernel app g held c = do
  (taken, g') ← release kernel g held app c
  if taken then some (g', none) else write_one kernel g'

unfoldable pub key_two : (ℕ → List Answer) → Bool → Client → Held → ℕ → ℕ → Option (Client × Held)
key_two kernel app g held c d = do
  (taken, g') ← release kernel g held app c
  if taken
      then key_last kernel app g' none d
      else if app && (c == 0x1B && d == b'[')
      then some (g', some (g'.cur, g'.made g'.cur))
      else (do (g'', held') ← write_one kernel g'; key_last kernel app g'' held' d)

-- The bytes of an event: one or two.
pub data Passed : Type 0 where
  one : ℕ → Passed
  two : ℕ → ℕ → Passed

abbrev pub passed_length : Passed → ℕ
passed_length (Passed.one b) = 1
passed_length (Passed.two b c) = 2

unfoldable pub write_keys :
    (ℕ → List Answer) → Bool → Client → Held → Passed → Option (Client × Held)
write_keys kernel app g held (Passed.one b) = key_last kernel app g held b
write_keys kernel app g held (Passed.two b c) = key_two kernel app g held b c

abbrev pub is_open : Option ℕ → Bool
is_open none = false
is_open (some fd) = true

abbrev pub is_held : Held → Bool
is_held none = false
is_held (some p) = true

unfoldable pub write_stdin_keys :
    (ℕ → List Answer) → Client → Held → Window → Passed → Option (Client × Held)
write_stdin_keys kernel g held w bytes =
    if not w.vt.scr.app_cursor && not (is_held held)
    then (do g' ← write_slot kernel g g.cur (passed_length bytes); some (g', held))
    else write_keys kernel w.vt.scr.app_cursor g held bytes

-- Whether there is a new process, and the globals.
unfoldable pub respawn_with : Option Pty → Client → ℕ → Window → Option (Bool × Client)
respawn_with none g idx w = some (false, g)
respawn_with (some pty) g idx w = do
  vt ← vt_init (child_rows g) g.cols
  g' ← set_window g idx (some (record w { pty = pty; vt = vt; alive = true }))
  some (true, g')

unfoldable pub respawn_slot : (ℕ → Option Pty) → Client → ℕ → Option Window → Option (Bool × Client)
respawn_slot pty_open g idx none = some (false, g)
respawn_slot pty_open g idx (some w) =
    if w.alive
    then some (false, g)
    else respawn_with (pty_open g.opened) (record g { opened = g.opened + 1 }) idx w

unfoldable pub window_respawn : (ℕ → Option Pty) → Client → ℕ → Option (Bool × Client)
window_respawn pty_open g idx = do slot ← read g.wins idx; respawn_slot pty_open g idx slot

-- A byte typed to a window whose program has ended: Enter starts it again.
unfoldable pub respawn_on : (ℕ → Option Pty) → Client → ℕ → Option Client
respawn_on pty_open g b =
    if b == b'\r' || b == b'\n'
    then (do
      (started, g') ← window_respawn pty_open g g.cur
      if started then full_redraw g' else some g')
    else some g

unfoldable pub respawn_keys : (ℕ → Option Pty) → Client → Passed → Option Client
respawn_keys pty_open g (Passed.one b) = respawn_on pty_open g b
respawn_keys pty_open g (Passed.two b c) = do g' ← respawn_on pty_open g b; respawn_on pty_open g' c

unfoldable pub write_to_slot :
    (ℕ → Option Pty)
    → (ℕ → List Answer)
    → Client
    → Held
    → Passed
    → Option Window
    → Option (Client × Held)
write_to_slot pty_open kernel g held bytes none = some (g, held)
write_to_slot pty_open kernel g held bytes (some w) =
    if w.alive
    then (do
      g' ← set_window g g.cur (some (record w { pristine = false }))
      write_stdin_keys kernel g' held w bytes)
    else (do g' ← respawn_keys pty_open g bytes; some (g', held))

unfoldable pub write_to_active :
    (ℕ → Option Pty) → (ℕ → List Answer) → Client → Held → Passed → Option (Client × Held)
write_to_active pty_open kernel g held bytes = do
  slot ← read g.wins g.cur
  write_to_slot pty_open kernel g held bytes slot

-- The two bytes go out, if the window of `held_w` has a program.
unfoldable pub flush_to : (ℕ → List Answer) → Client → ℕ × ℕ → Option Window → Option Client
flush_to kernel g p none = write_held kernel g p 2
flush_to kernel g p (some w) =
    if is_there g p (some w) && not (w.alive && is_open w.pty.master)
    then some g
    else write_held kernel g p 2

unfoldable pub keys_flush : (ℕ → List Answer) → Client → Held → Option (Client × Held)
keys_flush kernel g none = some (g, none)
keys_flush kernel g (some p) = do
  slot ← read g.wins p.0
  g' ← flush_to kernel g p slot
  some (g', none)
