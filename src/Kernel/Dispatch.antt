-- ===== src/Kernel/Dispatch.antt =====
-- `syscall` of kern/syscall.c. `cgetc` is what `cons_getc` reads from the devices.
use sistemas_operativos.Base.{ℕ, ◌-◌, ◌^◌, ◌==◌, if◌then◌else◌}
use sistemas_operativos.Kernel.State.{
  error_code, e_inval, returns, fails, leaves, faults, K, ◌>>◌, return, fail,
}
use sistemas_operativos.Kernel.Envs.{yield_cpu}
use sistemas_operativos.Kernel.Syscalls.{
  sys_cputs, sys_getenvid, sys_env_destroy, sys_exofork, sys_env_set_status,
  sys_env_set_pgfault_upcall, sys_page_alloc, sys_page_map, sys_page_unmap, sys_change_prio,
  sys_see_prio,
}
use sistemas_operativos.Kernel.Ipc.{sys_ipc_try_send, sys_ipc_recv}

-- 0 for a call without a value, and an error as a negative number of 32 bits.
abbrev pub zero_after : K (Unit {0}) → K ℕ
zero_after m = do m; return 0

abbrev pub as_int32 : K ℕ → K ℕ
as_int32 m k = elim (m k) [
  | returns v k' ↦ returns v k'
  | fails e k' ↦ returns (2 ^ 32 - error_code e) k'
  | leaves o k' ↦ leaves o k'
  | faults ↦ faults
]

-- By the numbers of inc/syscall.h.
abbrev pub call : (cpu : ℕ) → (cgetc : K ℕ) → (number a1 a2 a3 a4 a5 : ℕ) → K ℕ
call cpu cgetc number a1 a2 a3 a4 a5 =
    if number == 0
    then zero_after (sys_cputs cpu a1 a2)
    else if number == 1
    then cgetc
    else if number == 2
    then sys_getenvid
    else if number == 3
    then zero_after (sys_env_destroy cpu a1)
    else if number == 4
    then zero_after (sys_page_alloc a1 a2 a3)
    else if number == 5
    then zero_after (sys_page_map a1 a2 a3 a4 a5)
    else if number == 6
    then zero_after (sys_page_unmap a1 a2)
    else if number == 7
    then sys_exofork
    else if number == 8
    then zero_after (sys_env_set_status a1 a2)
    else if number == 9
    then zero_after (sys_env_set_pgfault_upcall cpu a1 a2)
    else if number == 10
    then yield_cpu cpu
    else if number == 11
    then zero_after (sys_ipc_try_send a1 a2 a3 a4)
    else if number == 12
    then zero_after (sys_ipc_recv cpu a1)
    else if number == 13
    then sys_see_prio a1
    else if number == 14
    then zero_after (sys_change_prio a1 a2)
    else fail e_inval

unfoldable pub syscall : (cpu : ℕ) → (cgetc : K ℕ) → (syscallno a1 a2 a3 a4 a5 : ℕ) → K ℕ
syscall cpu cgetc syscallno a1 a2 a3 a4 a5 = as_int32 (call cpu cgetc syscallno a1 a2 a3 a4 a5)
