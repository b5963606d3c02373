-- ===== src/Kernel.antt =====
-- Environments and system calls of tp2-sched/sched: kern/env.c and kern/syscall.c, by parts. They
-- stand on the scheduler (`Sched`) and on the pages (`Vm`).
mod Tests
pub mod Demo
pub mod State
pub mod Envs
pub mod Memory
pub mod Syscalls
pub mod Ipc
pub mod Dispatch
pub mod Traps
