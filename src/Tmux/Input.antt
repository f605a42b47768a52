-- ===== src/Tmux/Input.antt =====
-- The keys of the multiplexer (tmux/input.c: input_feed, input_flush_esc, tmux/input.h), without the
-- raw mode of the terminal. `fsm_state` is passed along.
pub mod Keys
mod Tests
use u.Common.{ℕ, ◌-◌, Bool, ◌&&◌, ◌||◌, List, [], ◌∷◌, ◌==◌, leb, if◌then◌else◌}

-- MUX_PREFIX of tmux/config.h
abbrev pub mux_prefix : ℕ
mux_prefix = 0x02

pub data FsmState : Type 0 where
  fsm_ground : FsmState
  fsm_command : FsmState
  fsm_esc : FsmState
  fsm_prefix_esc : FsmState
  fsm_prefix_csi : FsmState
  fsm_prefix_5 : FsmState

pub data InputCmd : Type 0 where
  cmd_none : InputCmd
  cmd_pass_byte : InputCmd
  cmd_pass_two : InputCmd
  cmd_new_window : InputCmd
  cmd_next_window : InputCmd
  cmd_prev_window : InputCmd
  cmd_select_window : InputCmd
  cmd_detach : InputCmd
  cmd_quit : InputCmd
  cmd_close_window : InputCmd
  cmd_scrollback_enter : InputCmd
  cmd_scrollback_enter_pgup : InputCmd
  cmd_redraw : InputCmd

pub record InputEvent : Type 0 where
  pub cmd : InputCmd
  pub byte : ℕ
  pub byte2 : ℕ
  pub arg : ℕ

-- `InputEvent ev = { .cmd = ... }`
abbrev pub event : InputCmd → InputEvent
event c = record { cmd = c; byte = 0; byte2 = 0; arg = 0 }

abbrev pub pass_byte : ℕ → InputEvent
pass_byte b = record (event cmd_pass_byte) { byte = b }

abbrev pub pass_two : ℕ → ℕ → InputEvent
pass_two b c = record (event cmd_pass_two) { byte = b; byte2 = c }

-- `(byte == '0') ? 9 : (byte - '1')`
abbrev pub select_window : ℕ → InputEvent
select_window b = record (event cmd_select_window) { arg = if b == b'0' then 9 else b - b'1' }

abbrev pub is_digit : ℕ → Bool
is_digit b = leb b'0' b && leb b b'9'

unfoldable pub ground_key : ℕ → FsmState × InputEvent
ground_key b =
    if b == mux_prefix
    then (fsm_command, event cmd_none)
    else if b == 0x1B
    then (fsm_esc, event cmd_none)
    else (fsm_ground, pass_byte b)

unfoldable pub esc_key : ℕ → FsmState × InputEvent
esc_key b = if is_digit b then (fsm_ground, select_window b) else (fsm_ground, pass_two 0x1B b)

-- The switch of FSM_COMMAND, but for ESC.
unfoldable pub command_event : ℕ → InputEvent
command_event b =
    if b == mux_prefix
    then pass_byte mux_prefix
    else if b == b'c' || b == b'C'
    then event cmd_new_window
    else if b == b'n' || b == b'N'
    then event cmd_next_window
    else if b == b'p' || b == b'P'
    then event cmd_prev_window
    else if is_digit b
    then select_window b
    else if b == b'd' || b == b'D'
    then event cmd_detach
    else if b == b'x' || b == b'X'
    then event cmd_close_window
    else if b == b'['
    then event cmd_scrollback_enter
    else if b == b'q' || b == b'Q'
    then event cmd_quit
    else if b == b'l' || b == b'L' || b == 0x0C
    then event cmd_redraw
    else event cmd_none

unfoldable pub command_key : ℕ → FsmState × InputEvent
command_key b =
    if b == 0x1B then (fsm_prefix_esc, event cmd_none) else (fsm_ground, command_event b)

unfoldable pub input_feed : FsmState → ℕ → FsmState × InputEvent
input_feed fsm_ground b = ground_key b
input_feed fsm_esc b = esc_key b
input_feed fsm_command b = command_key b
input_feed fsm_prefix_esc b =
    if b == b'[' then (fsm_prefix_csi, event cmd_none) else (fsm_ground, event cmd_none)
input_feed fsm_prefix_csi b =
    if b == b'5' then (fsm_prefix_5, event cmd_none) else (fsm_ground, event cmd_none)
input_feed fsm_prefix_5 b =
    if b == b'~'
    then (fsm_ground, event cmd_scrollback_enter_pgup)
    else (fsm_ground, event cmd_none)

unfoldable pub input_flush_esc : FsmState → FsmState × InputEvent
input_flush_esc fsm_esc = (fsm_ground, pass_byte 0x1B)
input_flush_esc st = (st, event cmd_none)

-- The events that input_feed gives for bytes that come one after the other, and the state they leave.
unfoldable pub feed_all : FsmState → List ℕ → FsmState × List InputEvent
feed_all st [] = (st, [])
feed_all st (b ∷ bs) =
    let (st', ev) = input_feed st b in let rest = feed_all st' bs in (rest.0, ev ∷ rest.1)
