-- ===== src/Tmux/Session/Tests.antt =====
-- The session protocol at a session of two windows, one of them dead.
use u.Common.{ℕ, ◌≡◌, refl, true, false, Option, none, some, List, [], ◌∷◌, arith, Safe, All}
use u.Vt.Samples.{parser, parser-ParserValid, parser-IsRepresentable}
use u.Tmux.Window.{Window}
use u.Tmux.Session.{send_session, recv_session}
use u.Tmux.Session.Slots.{IsSendable, SlotSendable}
use u.Tmux.Session.RoundTrip.{SlotsReceived, recv_session-send_session}

abbrev shell : Window
shell = record {
  pty = record { master = some 5; child = 1234 };
  vt = parser;
  alive = true;
  pristine = true;
  argv = [];
}

abbrev finished_command : Window
finished_command = record {
  pty = record { master = none; child = 1300 };
  vt = parser;
  alive = false;
  pristine = false;
  argv = (b'l' ∷ b's' ∷ []) ∷ (b'-' ∷ b'l' ∷ []) ∷ [];
}

abbrev session : List (Option Window)
session =
    some shell ∷ none ∷ some finished_command ∷ none ∷ none ∷ none ∷ none ∷ none ∷ none ∷ none ∷ []

shell-IsSendable : IsSendable shell
shell-IsSendable = record {
  vt_valid = parser-ParserValid;
  vt_fits = parser-IsRepresentable;
  child_fits = omega arith;
  argc_fits = omega arith;
  args_fit = tt;
  has_master = λ e. (5, refl);
}

finished_command-IsSendable : IsSendable finished_command
finished_command-IsSendable = record {
  vt_valid = parser-ParserValid;
  vt_fits = parser-IsRepresentable;
  child_fits = omega arith;
  argc_fits = omega arith;
  args_fit = omega arith;
  has_master = λ e. cc;
}

session-SlotSendable : All SlotSendable session
session-SlotSendable = (
  shell-IsSendable,
  (tt, (finished_command-IsSendable, (tt, (tt, (tt, (tt, (tt, (tt, (tt, tt))))))))),
)

recv_session-send_session_example :
    Safe
      (λ m.
        Safe
          (λ (x : List (Option Window) × ℕ). SlotsReceived session x.0 × (x.1 ≡ 2))
          (recv_session m))
      (send_session session 2)
recv_session-send_session_example =
    recv_session-send_session session 2 refl (omega arith) session-SlotSendable
