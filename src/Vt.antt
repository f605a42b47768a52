-- ===== src/Vt.antt =====
-- The terminal emulator of _lib/vt.c: the parser of the byte stream and the screen that it draws on.
pub mod Types
pub mod Cells
pub mod Tabs
pub mod Scrollback
pub mod Scroll
pub mod Width
pub mod Put
pub mod Control
pub mod Sgr
pub mod Csi
pub mod Init
pub mod Escape
pub mod Utf8
pub mod Feed
pub mod Resize
pub mod Reflow
pub mod Wire
pub mod Safety
pub mod Life
pub mod Samples
mod Tests
