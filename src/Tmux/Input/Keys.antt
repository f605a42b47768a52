-- ===== src/Tmux/Input/Keys.antt =====
-- What typed keys mean to the multiplexer.
use u.Common.{
  ℕ, zero, suc, ◌+◌, ◌≤◌, ◌≡◌, ◌≢◌, refl, ap, List, [], ◌∷◌, ◌++◌, ◌⊎◌, ◌==◌, if◌then◌else◌, arith,
  All,
}
use u.Tmux.Input.{
  mux_prefix, fsm_ground, InputCmd, InputEvent, event, pass_byte, pass_two, ground_key, esc_key,
  command_key, command_event, input_feed, feed_all,
}

-- The bytes that a key of the terminal sends, or two keys where the first is the prefix or Escape.
pub data Key : Type 0 where
  plain : ℕ → Key
  escaped : ℕ → Key
  alt_digit : ℕ → Key
  doubled : Key
  prefixed_digit : ℕ → Key
  prefixed : ℕ → Key
  prefixed_page_up : Key

-- The commands of the prefix key.
abbrev pub commands : List (ℕ × InputCmd)
commands =
    (b'c', InputCmd.cmd_new_window)
    ∷ (b'C', InputCmd.cmd_new_window)
    ∷ (b'n', InputCmd.cmd_next_window)
    ∷ (b'N', InputCmd.cmd_next_window)
    ∷ (b'p', InputCmd.cmd_prev_window)
    ∷ (b'P', InputCmd.cmd_prev_window)
    ∷ (b'd', InputCmd.cmd_detach)
    ∷ (b'D', InputCmd.cmd_detach)
    ∷ (b'x', InputCmd.cmd_close_window)
    ∷ (b'X', InputCmd.cmd_close_window)
    ∷ (b'[', InputCmd.cmd_scrollback_enter)
    ∷ (b'q', InputCmd.cmd_quit)
    ∷ (b'Q', InputCmd.cmd_quit)
    ∷ (b'l', InputCmd.cmd_redraw)
    ∷ (b'L', InputCmd.cmd_redraw)
    ∷ (0x0C, InputCmd.cmd_redraw)
    ∷ []

-- The command of a byte behind the prefix, or none.
unfoldable pub look_up : ℕ → List (ℕ × InputCmd) → InputCmd
look_up b [] = InputCmd.cmd_none
look_up b (c ∷ cs) = let rest = look_up b cs in if b == c.0 then c.1 else rest

-- The byte of digit `d`, and the window it stands for: the keys 1 to 9 are the windows 0 to 8, and 0
-- is window 9.
abbrev pub digit : ℕ → ℕ
digit d = b'0' + d

abbrev pub window_of : ℕ → ℕ
window_of zero = 9
window_of (suc d) = d

unfoldable pub typed : Key → List ℕ
typed (Key.plain b) = b ∷ []
typed (Key.escaped b) = 0x1B ∷ b ∷ []
typed (Key.alt_digit d) = 0x1B ∷ digit d ∷ []
typed Key.doubled = mux_prefix ∷ mux_prefix ∷ []
typed (Key.prefixed_digit d) = mux_prefix ∷ digit d ∷ []
typed (Key.prefixed b) = mux_prefix ∷ b ∷ []
typed Key.prefixed_page_up = mux_prefix ∷ 0x1B ∷ b'[' ∷ b'5' ∷ b'~' ∷ []

-- No digit.
abbrev NoDigit : ℕ → Type 0
NoDigit b = (suc b ≤ b'0') ⊎ (suc b'9' ≤ b)

abbrev pub IsKey : Key → Type 0
IsKey (Key.plain b) = (b ≢ mux_prefix) × (b ≢ 0x1B)
IsKey (Key.escaped b) = NoDigit b
IsKey (Key.alt_digit d) = d ≤ 9
IsKey Key.doubled = Unit
IsKey (Key.prefixed_digit d) = d ≤ 9
IsKey (Key.prefixed b) = (b ≢ mux_prefix) × (b ≢ 0x1B) × NoDigit b
IsKey Key.prefixed_page_up = Unit

-- What a key means.
unfoldable pub meant : Key → InputEvent
meant (Key.plain b) = pass_byte b
meant (Key.escaped b) = pass_two 0x1B b
meant (Key.alt_digit d) = record (event InputCmd.cmd_select_window) { arg = window_of d }
meant Key.doubled = pass_byte mux_prefix
meant (Key.prefixed_digit d) = record (event InputCmd.cmd_select_window) { arg = window_of d }
meant (Key.prefixed b) = event (look_up b commands)
meant Key.prefixed_page_up = event InputCmd.cmd_scrollback_enter_pgup

-- The events of a list that are not CMD_NONE, on which the multiplexer acts.
unfoldable pub acted : List InputEvent → List InputEvent
acted [] = []
acted (e ∷ es) = let rest = acted es in elim e.cmd [ InputCmd.cmd_none ↦ rest | _ ↦ e ∷ rest ]

unfoldable pub typed_all : List Key → List ℕ
typed_all [] = []
typed_all (k ∷ ks) = typed k ++ typed_all ks

unfoldable pub meant_all : List Key → List InputEvent
meant_all [] = []
meant_all (k ∷ ks) = meant k ∷ meant_all ks

-- The events of what is fed from the ground state, as far as they are acted on, and the state
-- reached.
abbrev pub Gives : List ℕ → List InputEvent → Type 0
Gives bs es =
    ((feed_all fsm_ground bs).0 ≡ fsm_ground) × (acted (feed_all fsm_ground bs).1 ≡ acted es)

command_event-digit :
    (d : ℕ)
    → d ≤ 9
    → command_event (digit d) ≡ record (event InputCmd.cmd_select_window) { arg = window_of d }
unfolding command_event
command_event-digit zero h = refl
command_event-digit (suc d) h = ground arith

command_event-prefixed :
    (b : ℕ) → b ≢ mux_prefix → NoDigit b → command_event b ≡ event (look_up b commands)
unfolding command_event look_up
command_event-prefixed b h k = ground arith

-- Feeding one byte from the ground state that leads back to it.
Gives-cons :
    (e : InputEvent) (bs : List ℕ) (es : List InputEvent)
    → Gives bs es
    → acted (e ∷ (feed_all fsm_ground bs).1) ≡ acted (e ∷ es)
unfolding acted
Gives-cons e bs es g = ap (λ t. elim e.cmd [ InputCmd.cmd_none ↦ t | _ ↦ e ∷ t ]) g.1

ground_key-plain : (b : ℕ) → b ≢ mux_prefix → b ≢ 0x1B → ground_key b ≡ (fsm_ground, pass_byte b)
unfolding ground_key
ground_key-plain b h k = ground arith

esc_key-escaped : (b : ℕ) → NoDigit b → esc_key b ≡ (fsm_ground, pass_two 0x1B b)
unfolding esc_key
esc_key-escaped b h = ground arith

esc_key-digit :
    (d : ℕ)
    → d ≤ 9
    → esc_key (digit d)
      ≡ (fsm_ground, record (event InputCmd.cmd_select_window) { arg = window_of d })
unfolding esc_key
esc_key-digit zero h = refl
esc_key-digit (suc d) h = ground arith

command_key-event : (b : ℕ) → b ≢ 0x1B → command_key b ≡ (fsm_ground, command_event b)
unfolding command_key
command_key-event b h = ground arith

Gives-key :
    (k : Key) (bs : List ℕ) (es : List InputEvent)
    → IsKey k
    → Gives bs es
    → Gives (typed k ++ bs) (meant k ∷ es)
unfolding typed meant feed_all input_feed ground_key command_key command_event acted
Gives-key (Key.plain b) bs es h g =
    rw (ground_key-plain b h.0 h.1) (g.0, Gives-cons (pass_byte b) bs es g)
Gives-key (Key.escaped b) bs es h g =
    rw (esc_key-escaped b h) (g.0, Gives-cons (pass_two 0x1B b) bs es g)
Gives-key (Key.alt_digit d) bs es h g =
    rw (esc_key-digit d h) (g.0, Gives-cons (meant (Key.alt_digit d)) bs es g)
Gives-key Key.doubled bs es h g = (g.0, Gives-cons (pass_byte mux_prefix) bs es g)
Gives-key (Key.prefixed_digit d) bs es h g =
    rw (command_key-event (digit d) (omega arith), command_event-digit d h)
      (g.0, Gives-cons (meant (Key.prefixed_digit d)) bs es g)
Gives-key (Key.prefixed b) bs es h g =
    let (a, c, n) = h in
    rw (command_key-event b c, command_event-prefixed b a n)
      (g.0, Gives-cons (event (look_up b commands)) bs es g)
Gives-key Key.prefixed_page_up bs es h g =
    (g.0, Gives-cons (event InputCmd.cmd_scrollback_enter_pgup) bs es g)

-- Whatever keys are given to input_feed, byte for byte and one after the other, it is between keys
-- in the end, and the events it gives, but for CMD_NONE, are the meanings of the keys in their
-- order: an ordinary key, an Escape with a key that is no digit, and the prefix typed twice are
-- passed on with every byte; Alt and a digit, and the prefix with another key, are commands.
pub feed_all-typed_all :
    (ks : List Key)
    → All IsKey ks
    → ((feed_all fsm_ground (typed_all ks)).0 ≡ fsm_ground)
      × (acted (feed_all fsm_ground (typed_all ks)).1 ≡ acted (meant_all ks))
unfolding typed_all meant_all feed_all
feed_all-typed_all [] h = (refl, refl)
feed_all-typed_all (k ∷ ks) h =
    Gives-key k (typed_all ks) (meant_all ks) h.0 (feed_all-typed_all ks h.1)
