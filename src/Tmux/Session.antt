-- ===== src/Tmux/Session.antt =====
-- The protocol between a detached session and the process that attaches to it (tmux/session.c,
-- send_session and recv_session). The socket carries bytes, and the file descriptors of one
-- SCM_RIGHTS message beside them. `none` is a return of -1.
mod Slots
pub mod RoundTrip
mod Tests
use u.Common.{
  ℕ, zero, suc, ◌+◌, ◌%◌, Bool, true, false, not, ◌&&◌, Option, none, some, List, [], ◌∷◌, ◌++◌,
  ◌==◌, if◌then◌else◌, length, take, ◌>>=◌,
}
use u.Vt.Types.{VtParser}
use u.Vt.Wire.{put_le, get_le, put_array, get_array, from_bool, to_bool}
use u.Vt.Wire.Serial.{vt_serialize, vt_deserialize}
use u.Tmux.Window.{max_windows, Pty, Window}

abbrev pub proto_magic : ℕ
proto_magic = 0x55544D58

abbrev pub proto_version : ℕ
proto_version = 1

-- The descriptors of the windows that are alive and have one, in the order of the slots.
unfoldable pub pty_fds : List (Option Window) → List ℕ
pty_fds [] = []
pty_fds (none ∷ wins) = pty_fds wins
pty_fds (some w ∷ wins) = elim w.pty.master [
  | none ↦ pty_fds wins
  | some fd ↦ if w.alive then fd ∷ pty_fds wins else pty_fds wins
]

-- The arguments, each with its length, which is cut to 16 bits.
unfoldable pub put_args : List (List ℕ) → List ℕ → List ℕ
put_args [] rest = rest
put_args (a ∷ args) rest =
    let slen = length a % 65536 in put_le 2 slen (put_array 1 (take slen a) (put_args args rest))

unfoldable pub get_args : ℕ → List ℕ → Option (List (List ℕ) × List ℕ)
get_args zero bytes = some ([], bytes)
get_args (suc n) r0 = do
  (slen, r1) ← get_le 2 r0
  (a, r2) ← get_array 1 slen r1
  (args, r3) ← get_args n r2
  some (a ∷ args, r3)

-- One slot of the session: what the loop of `send_session` writes. The arguments are counted in 16
-- bits; there are taken to be fewer than 65536, since the count would never end.
unfoldable pub put_window : Option Window → List ℕ → Option (List ℕ)
put_window none rest = some (put_le 1 0 rest)
put_window (some w) rest = do
  vt_bytes ← vt_serialize w.vt rest
  some (
      put_le 1 1 (
        put_le 1 (from_bool w.alive)
          (put_le 4 w.pty.child (put_le 2 (length w.argv) (put_args w.argv vt_bytes)))))

unfoldable pub get_window : List ℕ → Option (Option Window × List ℕ)
get_window r0 = do
  (exists, r1) ← get_le 1 r0
  let missing : Option (Option Window × List ℕ) = some (none, r1)
  let present : Option (Option Window × List ℕ) = do
    (alive', r2) ← get_le 1 r1
    (cpid, r3) ← get_le 4 r2
    (argc, r4) ← get_le 2 r3
    (args, r5) ← get_args argc r4
    (vt', r6) ← vt_deserialize r5
    some (
      some (record {
        pty = record { master = none; child = cpid };
        vt = vt';
        alive = to_bool alive';
        pristine = false;
        argv = args;
      }),
      r6,
    )
  if exists == 0 then missing else present

unfoldable pub put_windows : List (Option Window) → List ℕ → Option (List ℕ)
put_windows [] rest = some rest
put_windows (w ∷ wins) rest = do after ← put_windows wins rest; put_window w after

unfoldable pub get_windows : ℕ → List ℕ → Option (List (Option Window) × List ℕ)
get_windows zero bytes = some ([], bytes)
get_windows (suc n) r0 = do
  (w, r1) ← get_window r0
  (wins, r2) ← get_windows n r1
  some (w ∷ wins, r2)

-- How many windows are alive: `nfds_seen`.
unfoldable pub alive_count : List (Option Window) → ℕ
alive_count [] = 0
alive_count (none ∷ wins) = alive_count wins
alive_count (some w ∷ wins) = if w.alive then 1 + alive_count wins else alive_count wins

-- The descriptors go to the windows that are alive, in the order of the slots.
unfoldable pub give_fds : List (Option Window) → List ℕ → List (Option Window)
give_fds [] fds = []
give_fds (none ∷ wins) fds = none ∷ give_fds wins fds
give_fds (some w ∷ wins) [] = some w ∷ give_fds wins []
give_fds (some w ∷ wins) (fd ∷ fds) =
    if w.alive
    then some (record w { pty = record w.pty { master = some fd } }) ∷ give_fds wins fds
    else some w ∷ give_fds wins (fd ∷ fds)

-- What goes over the socket: the bytes, and the descriptors that come with them.
pub record Message : Type 0 where
  pub bytes : List ℕ
  pub fds : List ℕ

unfoldable pub send_session : List (Option Window) → ℕ → Option Message
send_session wins cur = do
  let sent = pty_fds wins
  window_bytes ← put_windows wins []
  some (record {
    bytes =
        put_le 4 proto_magic (
          put_le 1 proto_version
            (put_le 1 (cur % 256) (put_le 1 (length sent % 256) window_bytes)));
    fds = sent;
  })

-- `recv_fds` of `n` descriptors; without a message of that many it fails.
unfoldable pub recv_fds : ℕ → List ℕ → Option (List ℕ)
recv_fds n fds = if length fds == n then some fds else none

unfoldable pub recv_session : Message → Option (List (Option Window) × ℕ)
recv_session m = do
  (magic, r1) ← get_le 4 m.bytes
  let wrong : Option (List (Option Window) × ℕ) = none
  let body : Option (List (Option Window) × ℕ) = do
    (ver, r2) ← get_le 1 r1
    let checked : Option (List (Option Window) × ℕ) = do
      (ucur, r3) ← get_le 1 r2
      (unfds, r4) ← get_le 1 r3
      (wins, r5) ← get_windows max_windows r4
      let received : Option (List (Option Window) × ℕ) = do
        fds ← (if unfds == 0 then some [] else recv_fds unfds m.fds)
        some (give_fds wins fds, ucur)
      if alive_count wins == unfds then received else wrong
    if ver == proto_version then checked else wrong
  if magic == proto_magic then body else wrong
