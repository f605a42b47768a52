-- ===== src/Tmux/Session/Slots.antt =====
-- The slots of a session are read back (tmux/session.c, the loops of send_session and recv_session).
use u.Common.{
  Safe-step, ℕ, ◌%◌, ◌<◌, ◌≡◌, refl, ap, true, false, Option, none, some, List, [], ◌∷◌, length,
  take, arith, All, Safe, safe, Safe-bind, Safe-mono,
}
use u.Vt.Safety.{ParserValid}
use u.Vt.Wire.{from_bool}
use u.Vt.Wire.Numbers.{
  bool-Fits, to_bool-from_bool, Fits, get_le_step, get_le-put_le, get_array-put_array,
}
use u.Vt.Wire.Represent.{IsRepresentable}
use u.Vt.Wire.Restored.{Restored}
use u.Vt.Wire.RoundTrip.{vt_deserialize-vt_serialize}
use u.Tmux.Window.{Window}
use u.Tmux.Session.{put_args, get_args, put_window, get_window, put_windows, get_windows}

-- A string of bytes whose length fits 16 bits.
abbrev pub IsArg : List ℕ → Type 0
IsArg a = (length a < 65536) × All (Fits 1) a

-- A window that can be sent: its terminal is well-formed, its numbers fit their C types, and it has a
-- descriptor if it is alive.
pub record IsSendable (w : Window) : Type 0 where
  pub vt_valid : ParserValid w.vt
  pub vt_fits : IsRepresentable w.vt
  pub child_fits : Fits 4 w.pty.child
  pub argc_fits : length w.argv < 65536
  pub args_fit : All IsArg w.argv
  pub has_master : w.alive ≡ true → (fd : ℕ) × (w.pty.master ≡ some fd)

abbrev pub SlotSendable : Option Window → Type 0
SlotSendable none = Unit
SlotSendable (some w) = IsSendable w

-- The window `w`, received, with `master` as its descriptor.
pub record IsReceived (w w' : Window) (master : Option ℕ) : Type 0 where
  pub vt : Restored w.vt w'.vt
  pub child : w'.pty.child ≡ w.pty.child
  pub alive : w'.alive ≡ w.alive
  pub argv : w'.argv ≡ w.argv
  pub not_pristine : w'.pristine ≡ false
  pub master_eq : w'.pty.master ≡ master

abbrev pub SlotRead : Option Window → Option Window → Type 0
SlotRead none none = Unit
SlotRead (some w) (some w') = IsReceived w w' none
SlotRead _ _ = ⊥

abbrev pub SlotsRead : List (Option Window) → List (Option Window) → Type 0
SlotsRead [] [] = Unit
SlotsRead (w ∷ ws) (w' ∷ ws') = SlotRead w w' × SlotsRead ws ws'
SlotsRead _ _ = ⊥

take_all : (xs : List ℕ) → take (length xs) xs ≡ xs
take_all [] = refl
take_all (x ∷ xs) = ap (◌∷◌ x) (take_all xs)

get_args-put_args :
    (args : List (List ℕ)) (rest : List ℕ)
    → All IsArg args
    → get_args (length args) (put_args args rest) ≡ some (args, rest)
unfolding get_args put_args
get_args-put_args [] rest h = refl
get_args-put_args (a ∷ args) rest h =
    let e : length a % 65536 ≡ length a = omega (arith, h.0.0) in
    rw (e, take_all a)
      (get_le_step _ (get_le-put_le 2 (length a) _ (omega (arith, h.0.0))) (
        get_le_step _ (get_array-put_array 1 (length a) a _ (refl, h.0.1))
          (get_le_step _ (get_args-put_args args rest h.1) refl)))

get_window-put_window :
    (w : Option Window) (rest : List ℕ)
    → SlotSendable w
    → Safe
        (λ bytes.
          Safe (λ (x : Option Window × List ℕ). (x.1 ≡ rest) × SlotRead w x.0) (get_window bytes))
        (put_window w rest)
unfolding get_window put_window
get_window-put_window none rest h =
    safe (Safe-step _ (get_le-put_le 1 0 rest refl) (safe (refl, tt)))
get_window-put_window (some w) rest h =
    Safe-bind (vt_deserialize-vt_serialize w.vt rest h.vt_valid h.vt_fits) λ bytes u. safe (
      Safe-step _ (get_le-put_le 1 1 _ refl) (
        Safe-step _ (get_le-put_le 1 (from_bool w.alive) _ (bool-Fits w.alive)) (
          Safe-step _ (get_le-put_le 4 w.pty.child _ h.child_fits) (
            Safe-step _ (get_le-put_le 2 (length w.argv) _ (omega (arith, h.argc_fits))) (
              Safe-step _ (get_args-put_args w.argv bytes h.args_fit) (
                Safe-bind u λ x r. safe (
                  r.0,
                  record {
                    vt = r.1;
                    child = refl;
                    alive = to_bool-from_bool w.alive;
                    argv = refl;
                    not_pristine = refl;
                    master_eq = refl;
                  },
                )))))))

pub get_windows-put_windows :
    (wins : List (Option Window)) (rest : List ℕ)
    → All SlotSendable wins
    → Safe
        (λ bytes.
          Safe
            (λ (x : List (Option Window) × List ℕ). (x.1 ≡ rest) × SlotsRead wins x.0)
            (get_windows (length wins) bytes))
        (put_windows wins rest)
unfolding get_windows put_windows
get_windows-put_windows [] rest h = safe (safe (refl, tt))
get_windows-put_windows (w ∷ wins) rest h =
    Safe-bind (get_windows-put_windows wins rest h.1) λ after u.
      Safe-mono (get_window-put_window w after h.0)
        λ bytes v. Safe-bind v λ x r. rw r.0 (Safe-bind u λ y t. safe (t.0, (r.1, t.1)))
