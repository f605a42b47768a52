-- ===== src/Tmux.antt =====
-- The terminal multiplexer (tmux/).
pub mod Window
pub mod Session
pub mod Input
pub mod Client
pub mod Status
