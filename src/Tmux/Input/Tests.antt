-- ===== src/Tmux/Input/Tests.antt =====
-- The keys of the multiplexer (tmux/input.c) at concrete inputs.
use u.Common.{◌≡◌, refl, List, [], ◌∷◌, arith}
use u.Tmux.Input.{
  mux_prefix, fsm_ground, InputCmd, event, pass_byte, input_flush_esc, feed_all, input_feed,
  ground_key, command_key, command_event,
}
use u.Tmux.Input.Keys.{Key, acted, typed_all, meant_all, feed_all-typed_all}

abbrev some_keys : List Key
some_keys =
    Key.plain b'a'
    ∷ Key.escaped b'x'
    ∷ Key.alt_digit 3
    ∷ Key.prefixed b'C'
    ∷ Key.prefixed_page_up
    ∷ []

feed_all-typed_all_example :
    ((feed_all fsm_ground (typed_all some_keys)).0 ≡ fsm_ground)
    × (acted (feed_all fsm_ground (typed_all some_keys)).1 ≡ acted (meant_all some_keys))
feed_all-typed_all_example = feed_all-typed_all some_keys (omega arith)

-- A lone Escape, which the timer sends on.
lone_escape : input_flush_esc (feed_all fsm_ground (0x1B ∷ [])).0 ≡ (fsm_ground, pass_byte 0x1B)
unfolding input_flush_esc feed_all input_feed ground_key
lone_escape = refl

new_window :
    (feed_all fsm_ground (mux_prefix ∷ b'c' ∷ [])).1
    ≡ event InputCmd.cmd_none ∷ event InputCmd.cmd_new_window ∷ []
unfolding feed_all input_feed ground_key command_key command_event
new_window = refl
