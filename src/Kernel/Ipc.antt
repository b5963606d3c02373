-- ===== src/Kernel/Ipc.antt =====
-- Messages between environments: the system calls `sys_ipc_try_send` and `sys_ipc_recv` of
-- kern/syscall.c.
pub mod Deliver
use Prim.Native.Nat.{bit_or}
use sistemas_operativos.Base.{
  ℕ, zero, suc, ◌+◌, ◌-◌, ◌*◌, ◌/◌, ◌%◌, ◌^◌, Bool, true, false, not, ◌&&◌, ◌||◌, Option, none,
  some, ◌==◌, ltb, leb, if◌then◌else◌,
}
use sistemas_operativos.Sched.State.{Ptr, EnvStatus, env_runnable, env_not_runnable, Env}
use sistemas_operativos.Vm.State.{utop}
use sistemas_operativos.Vm.Tables.{Pte, load_pte, page_lookup}
use sistemas_operativos.Kernel.State.{
  Trapframe, EnvRest, Kernel, Error, e_inval, e_ipc_not_recv, Result, returns, fails, leaves,
  faults, K, ◌>>=◌, ◌>>◌, return, fail, fault, get, put, on_vm, on_sched, modify, env_of, set_env,
  set_rest, curenv_of,
}
use sistemas_operativos.Kernel.Envs.{envid2env, yield_cpu}
use sistemas_operativos.Kernel.Memory.{has_p, has_w, env_page_alloc, env_page_map}
use sistemas_operativos.Kernel.Syscalls.{bad_va}

-- What follows the label `bail`.
pub deliver : (dst : Ptr) → (value : ℕ) → Kernel → Kernel
deliver dst value k =
    let r : EnvRest = k.rest dst in
    let tf : Trapframe = r.env_tf in
    set_rest dst
      (record r {
        env_ipc_from = (env_of (curenv_of k) k).env_id;
        env_ipc_recving = false;
        env_ipc_value = value;
        env_tf = record tf { reg_eax = 0 };
      })
      (set_env dst (record (env_of dst k) { env_status = env_runnable }) k)

-- `env_ipc_perm`
abbrev pub set_perm : (dst : Ptr) → (perm : ℕ) → Kernel → Kernel
set_perm dst perm k = set_rest dst (record (k.rest dst) { env_ipc_perm = perm }) k

-- The pages' part of `sys_ipc_try_send`. Where nothing is mapped at `srcva`, `srcpte` is used
-- without a value.
unfoldable pub send_page : (dst : Ptr) → (srcva perm : ℕ) → K (Unit {0})
send_page dst srcva perm = do
  if srcva % 4096 == 0 then return tt else fail e_inval
  k ← get
  let src = curenv_of k
  found ← on_vm (page_lookup (k.rest src).env_pgdir srcva)
  e ← elim found as (λ _. K ℕ) [ none ↦ fault | some (page, pte) ↦ return (load_pte pte k.vm) ]
  if not (e == 0) && not (has_p e) then fail e_inval else return tt
  if has_w perm && not (has_w e) then fail e_inval else return tt
  let dstva = (k.rest dst).env_ipc_dstva
  let all = bit_or perm 5
  if dstva == 0 then return tt else (do
    env_page_alloc dst dstva all
    env_page_map src srcva dst dstva all
    modify (set_perm dst all))

unfoldable pub sys_ipc_try_send : (envid value srcva perm : ℕ) → K (Unit {0})
unfolding deliver
sys_ipc_try_send envid value srcva perm = do
  dst ← envid2env envid false
  k ← get
  if (k.rest dst).env_ipc_recving then return tt else fail e_ipc_not_recv
  if leb utop srcva then modify (set_perm dst 0) else send_page dst srcva perm
  modify (deliver dst value)

unfoldable pub sys_ipc_recv : (cpu dstva : ℕ) → K (Unit {0})
sys_ipc_recv cpu dstva = do
  modify (λ k. set_rest (curenv_of k) (record (k.rest (curenv_of k)) { env_ipc_recving = true }) k)
  if bad_va dstva then fail e_inval else return tt
  modify (λ k.
      set_rest (curenv_of k) (record (k.rest (curenv_of k)) { env_ipc_dstva = dstva })
        (set_env (curenv_of k) (record (env_of (curenv_of k) k) { env_status = env_not_runnable })
          k))
  yield_cpu cpu
