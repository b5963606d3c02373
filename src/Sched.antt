-- ===== src/Sched.antt =====
-- The scheduler of the JOS kernel (tp2-sched/sched/kern/sched.c), by parts.
pub mod State
pub mod Queue
pub mod Priority
pub mod Run
mod Tests
