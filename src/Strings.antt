-- ===== src/Strings.antt =====
-- The strings and numbers of tp2-sched/sched/lib/string.c and `printnum` of lib/printfmt.c.
mod Tests
pub mod Memory
pub mod Bytes
pub mod Numbers
