-- ===== src/Tmux/Session/RoundTrip.antt =====
-- A session that is sent is received (tmux/session.c, send_session and recv_session).
use u.Common.{
  Safe-step, ℕ, suc, ◌%◌, ◌≤◌, ◌<◌, ◌≡◌, refl, ◌∙◌, Bool, true, false, Option, none, some, List, [],
  ◌∷◌, ◌==◌, if◌then◌else◌, length, arith, All, ◌>>=◌, Safe, safe, Safe-bind, Safe-if, Bool-cases,
  inl, inr,
}
use u.Vt.Wire.Numbers.{get_le-put_le}
use u.Vt.Wire.Restored.{}
use u.Tmux.Window.{max_windows, Window}
use u.Tmux.Session.{
  proto_magic, proto_version, pty_fds, alive_count, give_fds, send_session, recv_fds, recv_session,
}
use u.Tmux.Session.Slots.{SlotSendable, IsReceived, SlotsRead, get_windows-put_windows}

-- A slot with its descriptor: a window that is alive has its own again, another has none.
abbrev pub SlotReceived : Option Window → Option Window → Type 0
SlotReceived none none = Unit
SlotReceived (some w) (some w') = IsReceived w w' (if w.alive then w.pty.master else none)
SlotReceived _ _ = ⊥

abbrev pub SlotsReceived : List (Option Window) → List (Option Window) → Type 0
SlotsReceived [] [] = Unit
SlotsReceived (w ∷ ws) (w' ∷ ws') = SlotReceived w w' × SlotsReceived ws ws'
SlotsReceived _ _ = ⊥

-- A window that is not alive sends no descriptor; one that is sends its own.
dead_window :
    (w : Window) (wins : List (Option Window))
    → w.alive ≡ false
    → pty_fds (some w ∷ wins) ≡ pty_fds wins
unfolding pty_fds
dead_window w wins e = cases w.pty.master
  where
    cases :
        (m : Option ℕ)
        → (elim m as (λ x. List ℕ) [
          | none ↦ pty_fds wins
          | some fd ↦ if w.alive then fd ∷ pty_fds wins else pty_fds wins
        ])
          ≡ pty_fds wins
    cases none = refl
    cases (some fd) = rw e refl

live_window :
    (w : Window) (wins : List (Option Window)) (fd : ℕ)
    → w.alive ≡ true
    → w.pty.master ≡ some fd
    → pty_fds (some w ∷ wins) ≡ fd ∷ pty_fds wins
unfolding pty_fds
live_window w wins fd e m = ground (arith, e, m)

alive_count-pty_fds :
    (wins wins' : List (Option Window))
    → All SlotSendable wins
    → SlotsRead wins wins'
    → alive_count wins' ≡ length (pty_fds wins)
unfolding alive_count pty_fds
alive_count-pty_fds [] [] h r = refl
alive_count-pty_fds [] (w' ∷ wins') h r = absurd r
alive_count-pty_fds (w ∷ wins) [] h r = absurd r
alive_count-pty_fds (none ∷ wins) (none ∷ wins') h r = alive_count-pty_fds wins wins' h.1 r.1
alive_count-pty_fds (none ∷ wins) (some w' ∷ wins') h r = absurd r.0
alive_count-pty_fds (some w ∷ wins) (none ∷ wins') h r = absurd r.0
alive_count-pty_fds (some w ∷ wins) (some w' ∷ wins') h r =
    let ih = alive_count-pty_fds wins wins' h.1 r.1 in
    elim (Bool-cases w.alive) [
      | inl e ↦ let (fd, m) = h.0.has_master e in ground (arith, ih, r.0.alive, e, m)
      | inr e ↦ ground (arith, ih, r.0.alive, e, dead_window w wins e)
    ]

no_window : (wins : List (Option Window)) → pty_fds (none ∷ wins) ≡ pty_fds wins
unfolding pty_fds
no_window wins = refl

with_master : Window → ℕ → Window
with_master w fd = record w { pty = record w.pty { master = some fd } }

give_live :
    (w : Window) (wins : List (Option Window)) (fd : ℕ) (fds : List ℕ)
    → w.alive ≡ true
    → give_fds (some w ∷ wins) (fd ∷ fds) ≡ some (with_master w fd) ∷ give_fds wins fds
unfolding give_fds with_master
give_live w wins fd fds e = ground (arith, e)

give_dead :
    (w : Window) (wins : List (Option Window)) (fds : List ℕ)
    → w.alive ≡ false
    → give_fds (some w ∷ wins) fds ≡ some w ∷ give_fds wins fds
unfolding give_fds
give_dead w wins [] e = refl
give_dead w wins (fd ∷ fds) e = ground (arith, e)

received :
    (w w' : Window) {fd : ℕ}
    → w.alive ≡ true
    → w.pty.master ≡ some fd
    → IsReceived w w' none
    → IsReceived w (with_master w' fd) (if w.alive then w.pty.master else none)
unfolding with_master
received w w' {fd} e m r = record {
  vt = r.vt;
  child = r.child;
  alive = r.alive;
  argv = r.argv;
  not_pristine = r.not_pristine;
  master_eq = ground (arith, e, m);
}

not_given :
    (w w' : Window)
    → w.alive ≡ false
    → IsReceived w w' none
    → IsReceived w w' (if w.alive then w.pty.master else none)
not_given w w' e r = record {
  vt = r.vt;
  child = r.child;
  alive = r.alive;
  argv = r.argv;
  not_pristine = r.not_pristine;
  master_eq = ground (arith, e, r.master_eq);
}

give_fds-SlotsReceived :
    (wins wins' : List (Option Window))
    → All SlotSendable wins
    → SlotsRead wins wins'
    → SlotsReceived wins (give_fds wins' (pty_fds wins))
unfolding give_fds
give_fds-SlotsReceived [] [] h r = tt
give_fds-SlotsReceived [] (w' ∷ wins') h r = absurd r
give_fds-SlotsReceived (w ∷ wins) [] h r = absurd r
give_fds-SlotsReceived (none ∷ wins) (none ∷ wins') h r =
    rw (no_window wins) (tt, give_fds-SlotsReceived wins wins' h.1 r.1)
give_fds-SlotsReceived (none ∷ wins) (some w' ∷ wins') h r = absurd r.0
give_fds-SlotsReceived (some w ∷ wins) (none ∷ wins') h r = absurd r.0
give_fds-SlotsReceived (some w ∷ wins) (some w' ∷ wins') h r =
    let ih = give_fds-SlotsReceived wins wins' h.1 r.1 in
    elim (Bool-cases w.alive) [
      | inl e ↦
          let (fd, m) = h.0.has_master e in
          rw (live_window w wins fd e m, give_live w' wins' fd (pty_fds wins) (r.0.alive ∙ e))
            (received w w' e m r.0, ih)
      | inr e ↦
          rw (dead_window w wins e, give_dead w' wins' (pty_fds wins) (r.0.alive ∙ e))
            (not_given w w' e r.0, ih)
    ]

length-pty_fds : (wins : List (Option Window)) → length (pty_fds wins) ≤ length wins
unfolding pty_fds
length-pty_fds [] = omega arith
length-pty_fds (none ∷ wins) = omega (arith, length-pty_fds wins)
length-pty_fds (some w ∷ wins) = cases w.pty.master w.alive (length-pty_fds wins)
  where
    cases :
        (m : Option ℕ) (b : Bool)
        → length (pty_fds wins) ≤ length wins
        → length (elim m as (λ x. List ℕ) [
          | none ↦ pty_fds wins
          | some fd ↦ if b then fd ∷ pty_fds wins else pty_fds wins
        ])
          ≤ suc (length wins)
    cases none b h = omega arith
    cases (some fd) true h = omega arith
    cases (some fd) false h = omega arith

fds_received :
    (fds : List ℕ) → (if length fds == 0 then some [] else recv_fds (length fds) fds) ≡ some fds
unfolding recv_fds
fds_received [] = refl
fds_received (fd ∷ fds) = ground arith

-- Sending the ten slots of a session succeeds, and what is received is the same session: the window
-- that is shown, and in each slot a window where there was one, with its terminal, process and
-- arguments, and with its own descriptor if it is alive. Every window must be sendable.
pub recv_session-send_session :
    (wins : List (Option Window)) (cur : ℕ)
    → length wins ≡ max_windows
    → cur < max_windows
    → All SlotSendable wins
    → Safe
        (λ m.
          Safe
            (λ (x : List (Option Window) × ℕ). SlotsReceived wins x.0 × (x.1 ≡ cur))
            (recv_session m))
        (send_session wins cur)
unfolding send_session recv_session
recv_session-send_session wins cur n c h = Safe-bind (get_windows-put_windows wins [] h) λ bytes u.
    safe (
      Safe-step _ (get_le-put_le 4 proto_magic _ refl) (
        Safe-step _ (get_le-put_le 1 proto_version _ refl) (
          Safe-step _ (get_le-put_le 1 (cur % 256) _ (omega arith)) (
            Safe-step _ (get_le-put_le 1 (length (pty_fds wins) % 256) _ (omega arith))
              (Safe-bind (rw n at u) λ x r. slots x r)))))
  where
    slots :
        (x : List (Option Window) × List ℕ)
        → (x.1 ≡ []) × SlotsRead wins x.0
        → Safe
            (λ (y : List (Option Window) × ℕ). SlotsReceived wins y.0 × (y.1 ≡ cur))
            (if alive_count x.0 == length (pty_fds wins) % 256
              then ((if length (pty_fds wins) % 256 == 0
                    then some []
                    else recv_fds (length (pty_fds wins) % 256) (pty_fds wins))
                  >>= λ fds. some (give_fds x.0 fds, cur % 256))
              else none)
    slots x r =
        let count = alive_count-pty_fds wins x.0 h r.1 in
        let small : length (pty_fds wins) % 256 ≡ length (pty_fds wins) =
          omega (arith, n, length-pty_fds wins) in
        Safe-if (alive_count x.0 == length (pty_fds wins) % 256)
          (λ _. rw small (
            Safe-step _ (fds_received (pty_fds wins))
              (safe (give_fds-SlotsReceived wins x.0 h r.1, omega (arith, c)))))
          (λ e. absurd (ground (arith, e, count, small)))
