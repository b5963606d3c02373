-- ===== src/Kernel/Syscalls.antt =====
-- The system calls of kern/syscall.c on environments, memory and priorities. `status` and the
-- priorities are bit patterns. The text that the kernel prints is not part of the state.
pub mod Map
pub mod Priority
use Prim.Native.Nat.{bit_or}
use sistemas_operativos.Base.{
  ℕ, zero, suc, ◌+◌, ◌-◌, ◌*◌, ◌/◌, ◌%◌, ◌^◌, Bool, true, false, not, ◌&&◌, ◌||◌, Option, none,
  some, ◌==◌, ltb, leb, if◌then◌else◌,
}
use sistemas_operativos.Sched.State.{Ptr, EnvStatus, env_runnable, env_not_runnable, Env, nqueues}
use sistemas_operativos.Sched.Priority.{env_change_priority, add_downgrade_call_stats}
use sistemas_operativos.Vm.State.{utop, pgsize}
use sistemas_operativos.Vm.Tables.{page_remove}
use sistemas_operativos.Kernel.State.{
  Trapframe, EnvRest, Kernel, Error, e_inval, Result, returns, fails, leaves, faults, K, ◌>>=◌,
  ◌>>◌, return, fail, fault, get, put, on_vm, on_sched, modify, env_of, set_env, set_rest,
  curenv_of,
}
use sistemas_operativos.Kernel.Envs.{envid2env, env_alloc, env_destroy}
use sistemas_operativos.Kernel.Memory.{user_mem_assert, env_page_alloc, env_page_map}

unfoldable pub sys_cputs : (cpu s len : ℕ) → K (Unit {0})
sys_cputs cpu s len k = user_mem_assert cpu (curenv_of k) s len 7 k

unfoldable pub sys_getenvid : K ℕ
sys_getenvid k = returns (env_of (curenv_of k) k).env_id k

unfoldable pub sys_env_destroy : (cpu envid : ℕ) → K (Unit {0})
sys_env_destroy cpu envid = do e ← envid2env envid true; env_destroy cpu e

unfoldable pub sys_exofork : K ℕ
sys_exofork = do
  k ← get
  e ← env_alloc (env_of (curenv_of k) k).env_id
  k₁ ← get
  let parent : EnvRest = k₁.rest (curenv_of k₁)
  let tf : Trapframe = parent.env_tf
  put (
      set_rest e (record (k₁.rest e) { env_tf = record tf { reg_eax = 0 } })
        (set_env e (record (env_of e k₁) { env_status = env_not_runnable }) k₁))
  on_sched (λ s. env_change_priority e (s.envs s.curenv).queue_num s)
  k₂ ← get
  return (env_of e k₂).env_id

-- ENV_RUNNABLE and ENV_NOT_RUNNABLE, by number.
abbrev pub settable_status : ℕ → Option EnvStatus
settable_status status =
    if status == 2 then some env_runnable else if status == 4 then some env_not_runnable else none

unfoldable pub sys_env_set_status : (envid status : ℕ) → K (Unit {0})
sys_env_set_status envid status = elim (settable_status status) as (λ _. K (Unit {0})) [
  | none ↦ fail e_inval
  | some st ↦ do
    e ← envid2env envid true
    modify (λ k. set_env e (record (env_of e k) { env_status = st }) k)
]

unfoldable pub sys_env_set_pgfault_upcall : (cpu envid func : ℕ) → K (Unit {0})
sys_env_set_pgfault_upcall cpu envid func = do
  e ← envid2env envid true
  user_mem_assert cpu e func pgsize 5
  modify (λ k. set_rest e (record (k.rest e) { env_pgfault_upcall = func }) k)

-- `va >= UTOP || va % PGSIZE`
abbrev pub bad_va : ℕ → Bool
bad_va va = leb utop va || not (va % 4096 == 0)

unfoldable pub sys_page_alloc : (envid va perm : ℕ) → K (Unit {0})
sys_page_alloc envid va perm =
    if bad_va va
    then fail e_inval
    else do e ← envid2env envid true; env_page_alloc e va (bit_or perm 5)

unfoldable pub sys_page_map : (srcenvid srcva dstenvid dstva perm : ℕ) → K (Unit {0})
sys_page_map srcenvid srcva dstenvid dstva perm =
    if bad_va srcva || bad_va dstva then fail e_inval else do
      srcenv ← envid2env srcenvid true
      dstenv ← envid2env dstenvid true
      env_page_map srcenv srcva dstenv dstva (bit_or perm 5)

unfoldable pub sys_page_unmap : (envid va : ℕ) → K (Unit {0})
sys_page_unmap envid va =
    if bad_va va
    then fail e_inval
    else do e ← envid2env envid true; k ← get; on_vm (page_remove (k.rest e).env_pgdir va)

-- `new_prio < env->queue_num`, with queue numbers that are not negative.
unfoldable pub sys_change_prio : (env_id new_prio : ℕ) → K (Unit {0})
sys_change_prio env_id new_prio = do
  e ← envid2env env_id true
  k ← get
  let q = (env_of e k).queue_num
  if leb nqueues new_prio || ltb new_prio q
      then fail e_inval
      else if new_prio == q
      then return tt
      else on_sched (λ s. env_change_priority e new_prio (add_downgrade_call_stats e q new_prio s))

unfoldable pub sys_see_prio : (env_id : ℕ) → K ℕ
sys_see_prio env_id = do e ← envid2env env_id false; k ← get; return (env_of e k).queue_num
