-- ===== src/Utils.antt =====
-- kernel/src/utils: the statuses that calls return, and the parser of escape sequences.
pub mod Errors
pub mod Ansi
pub mod Elf
pub mod Ustar
mod Tests
