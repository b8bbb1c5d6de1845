-- ===== src/Terminal.antt =====
-- The terminal: colours, pixels, strings in pages, the screen and the terminal device.
pub mod Runs
pub mod Rgb
pub mod Pixels
pub mod Screen
pub mod Text
pub mod Tty
mod Tests
