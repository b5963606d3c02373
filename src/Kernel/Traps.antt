-- ===== src/Kernel/Traps.antt =====
-- The traps of kern/trap.c, from the entry of `trap` on. `fault_va` is what CR2 holds, `t` and `it`
-- are the LAPIC's counts and `cgetc` is what `cons_getc` reads. Interrupts are off, no other CPU has
-- panicked, and the kernel's lock is not part of the state.
mod Tests
pub mod Entered
pub mod Overflow
pub mod Clock
use sistemas_operativos.Base.{
  ℕ, zero, suc, ◌+◌, ◌-◌, ◌*◌, ◌/◌, ◌%◌, ◌^◌, Bool, true, false, not, ◌&&◌, ◌||◌, List, [], ◌∷◌,
  ◌==◌, ltb, if◌then◌else◌,
}
use sistemas_operativos.Sched.State.{Ptr, null, EnvStatus, env_dying}
use sistemas_operativos.Sched.Priority.{mlfq_count_time}
use sistemas_operativos.Sched.Run.{runs, monitors, is_running, add_env_run_call_stats, env_run}
use sistemas_operativos.Vm.State.{pgsize, utop, update}
use sistemas_operativos.Vm.Store.{store_words}
use sistemas_operativos.Kernel.State.{
  Trapframe, EnvRest, Kernel, Result, returns, fails, leaves, faults, K, ◌>>=◌, ◌>>◌, return, fault,
  get, on_vm, modify, env_of, set_rest, curenv_of,
}
use sistemas_operativos.Kernel.Envs.{env_free_all, env_destroy, yield_cpu}
use sistemas_operativos.Kernel.Memory.{user_mem_assert}
use sistemas_operativos.Kernel.Dispatch.{syscall}

-- `struct Trapframe *`: to the frame on the kernel's stack, or to `env_tf` of an environment.
pub data Frame : Type 0 where
  on_stack : Trapframe → Frame
  saved : Ptr → Frame

abbrev pub load_frame : Frame → Kernel → Trapframe
load_frame (on_stack tf) k = tf
load_frame (saved e) k = (k.rest e).env_tf

-- What is stored in the frame on the stack is not read again.
abbrev pub store_frame : Frame → Trapframe → Kernel → Kernel
store_frame (on_stack _) tf k = k
store_frame (saved e) tf k = set_rest e (record (k.rest e) { env_tf = tf }) k

-- The words of `tf_rest` by their place in the structure.
abbrev pub tf_trapno : Trapframe → ℕ
tf_trapno tf = tf.tf_rest 10

abbrev pub tf_err : Trapframe → ℕ
tf_err tf = tf.tf_rest 11

abbrev pub tf_eip : Trapframe → ℕ
tf_eip tf = tf.tf_rest 12

-- T_BRKPT, T_PGFLT, T_SYSCALL, IRQ_OFFSET + IRQ_TIMER, IRQ_OFFSET + IRQ_SPURIOUS and GD_KT.
abbrev pub t_brkpt : ℕ
t_brkpt = 3

abbrev pub t_pgflt : ℕ
t_pgflt = 14

abbrev pub t_syscall : ℕ
t_syscall = 48

abbrev pub irq_timer : ℕ
irq_timer = 32

abbrev pub irq_spurious : ℕ
irq_spurious = 39

abbrev pub gd_kt : ℕ
gd_kt = 8

-- `exstk` and `exstk_top`.
abbrev pub exstk : ℕ
exstk = utop - pgsize

abbrev pub exstk_top : ℕ
exstk_top = utop - 1

-- `sizeof(struct UTrapframe)` and its words: `utf_fault_va`, `utf_err`, the registers in the order of
-- `struct PushRegs`, `utf_eip`, `utf_eflags` and `utf_esp`.
abbrev pub utf_size : ℕ
utf_size = 52

abbrev pub utrapframe : (fault_va : ℕ) → Trapframe → List ℕ
utrapframe fault_va tf =
    fault_va
    ∷ tf_err tf
    ∷ tf.tf_rest 0
    ∷ tf.tf_rest 1
    ∷ tf.tf_rest 2
    ∷ tf.tf_rest 3
    ∷ tf.tf_rest 4
    ∷ tf.tf_rest 5
    ∷ tf.tf_rest 6
    ∷ tf.reg_eax
    ∷ tf_eip tf
    ∷ tf.tf_eflags
    ∷ tf.tf_esp
    ∷ []

-- ADD_ENV_RUN_CALL_STATS and `env_run`, which does not come back.
unfoldable pub run_env : {A : Type 0} → (cpu : ℕ) → Ptr → K A
run_env cpu e k = leaves (runs (env_run cpu e (add_env_run_call_stats e k.sched))) k

-- `tmp` where the fault happened off the exception stack, and on it.
abbrev pub on_exstk : ℕ → Bool
on_exstk esp = not (ltb esp exstk || ltb exstk_top esp)

unfoldable pub make_room : (pgdir esp : ℕ) → K ℕ
make_room pgdir esp =
    if not (on_exstk esp)
    then return (exstk_top - utf_size)
    else do on_vm (store_words pgdir (esp - 4) (0 ∷ [])); return (esp - 4 - utf_size)

-- The part of `page_fault_handler` for an environment with an upcall.
unfoldable pub call_upcall : (cpu fault_va : ℕ) → Frame → K (Unit {0})
unfolding make_room
call_upcall cpu fault_va p = do
  k ← get
  let e = curenv_of k
  let tf : Trapframe = load_frame p k
  user_mem_assert cpu e exstk pgsize 6
  tmp ← make_room (k.rest e).env_pgdir tf.tf_esp
  on_vm (store_words (k.rest e).env_pgdir tmp (utrapframe fault_va tf))
  if on_exstk tmp then return tt else fault
  let upcall = (k.rest e).env_pgfault_upcall
  modify (store_frame p (record tf { tf_esp = tmp; tf_rest = update tf.tf_rest 12 upcall }))
  run_env cpu e

unfoldable pub page_fault_handler : (cpu fault_va : ℕ) → Frame → K (Unit {0})
unfolding call_upcall
page_fault_handler cpu fault_va p = do
  k ← get
  let tf : Trapframe = load_frame p k
  if tf.tf_cs % 4 == 0 then fault else return tt
  if (k.rest (curenv_of k)).env_pgfault_upcall == 0
      then env_destroy cpu (curenv_of k)
      else call_upcall cpu fault_va p

-- No command of the monitor gives a negative number, so `monitor` is entered for good.
unfoldable pub trap_dispatch : (cpu : ℕ) → (cgetc : K ℕ) → (fault_va : ℕ) → Frame → K (Unit {0})
unfolding page_fault_handler
trap_dispatch cpu cgetc fault_va p k =
    let tf : Trapframe = load_frame p k in
    if tf_trapno tf == t_brkpt
    then leaves (monitors k.sched) k
    else if tf_trapno tf == t_pgflt
    then page_fault_handler cpu fault_va p k
    else if tf_trapno tf == t_syscall
    then (do
      v ←
          syscall cpu cgetc tf.reg_eax (tf.tf_rest 5) (tf.tf_rest 6) (tf.tf_rest 4) (tf.tf_rest 0)
            (tf.tf_rest 1)
      modify (λ k'. store_frame p (record (load_frame p k') { reg_eax = v }) k'))
        k
    else if tf_trapno tf == irq_spurious
    then returns tt k
    else if tf_trapno tf == irq_timer
    then yield_cpu cpu k
    else if tf.tf_cs == gd_kt
    then faults
    else env_destroy cpu (curenv_of k) k

abbrev pub is_dying : EnvStatus → Bool
is_dying env_dying = true
is_dying _ = false

-- The part of `trap` for a trap from user mode.
unfoldable pub enter_user : (cpu : ℕ) → Trapframe → K Frame
enter_user cpu tf = do
  k ← get
  let e = curenv_of k
  if e == null then fault else return tt
  if is_dying (env_of e k).env_status
      then (do
        env_free_all e
        modify (λ k'. record k' { sched = record (k'.sched) { curenv = null } })
        yield_cpu cpu)
      else return tt
  modify (λ k'. set_rest e (record (k'.rest e) { env_tf = tf }) k')
  return (saved e)

-- The frame that `trap` goes on with.
unfoldable pub enter : (cpu : ℕ) → Trapframe → K Frame
unfolding enter_user
enter cpu tf k = if tf.tf_cs % 4 == 3 then enter_user cpu tf k else returns (on_stack tf) k

-- MLFQ_MIN_THRESHOLD, which an `int32_t` is compared with as a double.
abbrev pub over_threshold : ℕ → Bool
over_threshold time_remaining = ltb time_remaining (2 ^ 31) && ltb 1_000_000 time_remaining

-- What follows `trap_dispatch`.
unfoldable pub resume : (cpu : ℕ) → K (Unit {0})
unfolding run_env
resume cpu k =
    let e = curenv_of k in
    if not (e == null)
      && (is_running (env_of e k).env_status && over_threshold (env_of e k).time_remaining)
    then run_env cpu e k
    else yield_cpu cpu k

-- MLFQ_TIME_COUNT(curenv), and CPU_STARTED.
abbrev pub count_time : (t it : ℕ) → Kernel → Kernel
count_time t it k = record k {
  sched = record (mlfq_count_time t it (curenv_of k) k.sched) { halted = false };
}

unfoldable pub trap : (cpu : ℕ) → (cgetc : K ℕ) → (t it fault_va : ℕ) → Trapframe → K (Unit {0})
unfolding trap_dispatch enter resume
trap cpu cgetc t it fault_va tf = do
  modify (count_time t it)
  p ← enter cpu tf
  trap_dispatch cpu cgetc fault_va p
  resume cpu
