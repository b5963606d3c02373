-- ===== src/Kernel/Envs.antt =====
-- Environments of kern/env.c: their numbers, allocation, release.
pub mod Initial
pub mod Ids
pub mod Lookup
use Prim.Native.Nat.{bit_or}
use sistemas_operativos.Base.{
  ℕ, zero, suc, ◌+◌, ◌-◌, ◌*◌, ◌/◌, ◌%◌, ◌^◌, Bool, true, false, not, ◌&&◌, ◌||◌, Option, none,
  some, ◌==◌, ltb, leb, if◌then◌else◌,
}
use sistemas_operativos.Sched.State.{
  Ptr, null, word, EnvStatus, env_free, env_dying, env_runnable, env_running, env_not_runnable, Env,
  Sched,
}
use sistemas_operativos.Sched.Priority.{sched_alloc_env, sched_free_env}
use sistemas_operativos.Sched.Run.{is_running, nenv, sched_yield}
use sistemas_operativos.Vm.State.{Vm, Run, ok, panics, M, PageInfo, update, put_word, pte_page}
use sistemas_operativos.Vm.Pages.{page_alloc, page_decref, incref}
use sistemas_operativos.Vm.Tables.{page_remove}
use sistemas_operativos.Kernel.State.{
  Trapframe, EnvRest, Kernel, Error, e_bad_env, e_no_mem, e_no_free_env, Result, returns, fails,
  leaves, faults, K, ◌>>=◌, ◌>>◌, return, fail, fault, get, put, on_vm, on_sched, modify, env_of,
  set_env, set_rest, curenv_of,
}

abbrev pub is_free : EnvStatus → Bool
is_free env_free = true
is_free _ = false

-- ENVX
abbrev pub envx : ℕ → ℕ
envx envid = envid % 1024

unfoldable pub envid2env : (envid : ℕ) → (checkperm : Bool) → K Ptr
envid2env envid checkperm k =
    if envid == 0
    then returns (curenv_of k) k
    else let e = envx envid + 1 in
      let v = env_of e k in
      if is_free v.env_status || not (v.env_id == envid)
      then fails e_bad_env k
      else if not (checkperm && not (e == curenv_of k))
      then returns e k
      else if curenv_of k == null
      then faults
      else if v.env_parent_id == (env_of (curenv_of k) k).env_id
      then returns e k
      else fails e_bad_env k

-- The loop of `env_init` over `n` environments from `envs[i]` on.
pub init_envs : (n i : ℕ) → Kernel → Kernel
init_envs zero i k = k
init_envs (suc n) i k =
    let v : Env = env_of (i + 1) k in
    let r : EnvRest = k.rest (i + 1) in
    init_envs n (i + 1) (
      set_rest (i + 1) (record r { env_link = i + 2 })
        (set_env (i + 1) (record v { env_id = 0; env_status = env_free }) k))

-- `envs[NENV - 1].env_link = NULL; env_free_list = envs`
abbrev pub close_list : Kernel → Kernel
close_list k =
    let last : EnvRest = k.rest nenv in
    record (set_rest nenv (record last { env_link = null }) k) { env_free_list = 1 }

unfoldable pub env_init : Kernel → Kernel
env_init k = close_list (init_envs nenv 0 k)

-- PDX(UVPT) and PDX(UTOP)
abbrev pub uvpt_pdx : ℕ
uvpt_pdx = 957

abbrev pub utop_pdx : ℕ
utop_pdx = 955

-- The page directory `p` of a new environment: a copy of `kern_pgdir` that holds itself at UVPT.
abbrev pub setup_directory : (kern_pgdir p : ℕ) → Vm → Vm
setup_directory kern_pgdir p s =
    put_word p uvpt_pdx (bit_or (p * 4096) 5)
      (incref p (record s { words = update s.words p (s.words kern_pgdir) }))

unfoldable pub env_setup_vm : Ptr → K (Unit {0})
unfolding page_alloc
env_setup_vm e = do
  found ← on_vm (page_alloc true)
  k ← get
  elim found as (λ _. K (Unit {0})) [
    | none ↦ fail e_no_mem
    | some p ↦
        let r : EnvRest = k.rest e in
        put (record (set_rest e (record r { env_pgdir = p }) k) {
          vm = setup_directory k.kern_pgdir p k.vm;
        })
  ]

-- `(env_id + (1 << ENVGENSHIFT)) & ~(NENV - 1)`, made positive as an `int32_t`.
abbrev pub generation : ℕ → ℕ
generation env_id =
    let g = (env_id + 4096) % word / 1024 * 1024 in if (g == 0) || leb (2 ^ 31) g then 4096 else g

-- GD_UD | 3, GD_UT | 3, USTACKTOP and FL_IF.
abbrev pub initial_tf : Trapframe
initial_tf = record {
  reg_eax = 0;
  tf_es = 0x23;
  tf_ds = 0x23;
  tf_cs = 0x1b;
  tf_eflags = 0x200;
  tf_esp = 0xeebfe000;
  tf_ss = 0x23;
  tf_rest = λ _. 0;
}

-- What `env_alloc` stores in the environment, after its page directory.
pub fill_env : (e : Ptr) → (parent_id : ℕ) → Kernel → Kernel
fill_env e parent_id k =
    let v : Env = env_of e k in
    let r : EnvRest = k.rest e in
    record (set_rest e
      (record r { env_tf = initial_tf; env_pgfault_upcall = 0; env_ipc_recving = false })
      (set_env e
        (record v {
          env_id = bit_or (generation v.env_id) (e - 1);
          env_parent_id = parent_id;
          env_status = env_runnable;
          env_runs = 0;
        })
        k)) { env_free_list = (k.rest e).env_link }

unfoldable pub env_alloc : (parent_id : ℕ) → K Ptr
unfolding env_setup_vm fill_env
env_alloc parent_id = do
  k ← get
  let e = k.env_free_list
  if e == null then fail e_no_free_env else return tt
  env_setup_vm e
  modify (fill_env e parent_id)
  on_sched (sched_alloc_env e)
  return e

-- The inner loop of `env_free` over `n` entries of the page table `pt`, from `pteno` on.
pub free_entries : (n pgdir pdeno pt pteno : ℕ) → K (Unit {0})
free_entries zero pgdir pdeno pt pteno = return tt
free_entries (suc n) pgdir pdeno pt pteno = do
  k ← get
  if k.vm.words pt pteno % 2 == 1
      then on_vm (page_remove pgdir (pdeno * 2 ^ 22 + pteno * 4096))
      else return tt
  free_entries n pgdir pdeno pt (pteno + 1)

-- One round of the outer loop, where the page table is there.
pub free_table : (pgdir pdeno : ℕ) → K (Unit {0})
unfolding free_entries
free_table pgdir pdeno = do
  k ← get
  let pt = pte_page (k.vm.words pgdir pdeno)
  if ltb pt k.vm.npages then return tt else fault
  free_entries 1024 pgdir pdeno pt 0
  modify (λ k'. record k' { vm = put_word pgdir pdeno 0 k'.vm })
  on_vm (page_decref pt)

-- The outer loop over `n` page tables from `pdeno` on.
pub free_tables : (n pgdir pdeno : ℕ) → K (Unit {0})
unfolding free_table
free_tables zero pgdir pdeno = return tt
free_tables (suc n) pgdir pdeno = do
  k ← get
  if k.vm.words pgdir pdeno % 2 == 1 then free_table pgdir pdeno else return tt
  free_tables n pgdir (pdeno + 1)

-- `env_pgdir = 0`, the status, and the return to the list of free environments.
pub release_env : Ptr → Kernel → Kernel
release_env e k =
    let v : Env = env_of e k in
    let r : EnvRest = k.rest e in
    record (set_rest e (record r { env_pgdir = 0; env_link = k.env_free_list })
      (set_env e (record v { env_status = env_free }) k)) { env_free_list = e }

-- A NULL page directory is a fault.
unfoldable pub env_free_all : Ptr → K (Unit {0})
unfolding free_tables release_env
env_free_all e = do
  k ← get
  let pgdir = (k.rest e).env_pgdir
  if pgdir == 0 then fault else return tt
  free_tables utop_pdx pgdir 0
  on_vm (page_decref pgdir)
  modify (release_env e)
  on_sched (sched_free_env e)

-- `sched_yield` does not come back.
unfoldable pub yield_cpu : {A : Type 0} → (cpu : ℕ) → K A
yield_cpu cpu k = elim (sched_yield cpu k.sched) [ none ↦ faults | some o ↦ leaves o k ]

-- What follows the release in `env_destroy`.
pub leave_if_current : (cpu : ℕ) → Ptr → K (Unit {0})
unfolding yield_cpu
leave_if_current cpu e k =
    if curenv_of k == e
    then yield_cpu cpu (record k { sched = record (k.sched) { curenv = null } })
    else returns tt k

unfoldable pub env_destroy : (cpu : ℕ) → Ptr → K (Unit {0})
unfolding env_free_all leave_if_current
env_destroy cpu e k =
    if is_running (env_of e k).env_status && not (curenv_of k == e)
    then returns tt (set_env e (record (env_of e k) { env_status = env_dying }) k)
    else (do env_free_all e; leave_if_current cpu e) k
