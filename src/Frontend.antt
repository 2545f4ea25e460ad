-- ===== src/Frontend.antt =====
-- src/frontend: what the two front ends compute. Windows, files and the C library are outside.
pub mod Terminal
pub mod Keyboard
pub mod Dialog
pub mod Panel
pub mod Boot
pub mod Image
pub mod Window
pub mod Options
