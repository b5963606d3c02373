-- ===== src/Vm.antt =====
-- Physical pages and page tables: tp2-sched/sched/kern/pmap.c, by parts.
mod Tests
pub mod Demo
pub mod State
pub mod Pages
pub mod Tables
pub mod Access
pub mod Store
