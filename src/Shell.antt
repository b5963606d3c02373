-- ===== src/Shell.antt =====
-- The parser of lab-shell/shell.
pub mod State
pub mod Parsing
pub mod Exec
pub mod Builtin
pub mod Run
mod Tests
