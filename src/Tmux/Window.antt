-- ===== src/Tmux/Window.antt =====
-- The windows of the multiplexer (tmux/window.h, tmux/pty.h, tmux/config.h).
use u.Common.{ℕ, Bool, Option, List}
use u.Vt.Types.{VtParser}

abbrev pub max_windows : ℕ
max_windows = 10

-- The file descriptor of the master side, where it is not negative, and the process in the window.
pub record Pty : Type 0 where
  pub master : Option ℕ
  pub child : ℕ

-- `argv` is empty for the default shell, where the pointer is NULL.
pub record Window : Type 0 where
  pub pty : Pty
  pub vt : VtParser
  pub alive : Bool
  pub pristine : Bool
  pub argv : List (List ℕ)
