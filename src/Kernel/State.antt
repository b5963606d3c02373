-- ===== src/Kernel/State.antt =====
-- The state of kern/env.c and kern/syscall.c: the fields of `struct Env` that the scheduler does not
-- use, the list of free environments, and the states of the scheduler and of the pages.
use sistemas_operativos.Base.{ℕ, Bool, Option, none, some}
use sistemas_operativos.Sched.State.{Ptr, Env, Sched}
use sistemas_operativos.Sched.Queue.{put_env}
use sistemas_operativos.Sched.Run.{Outcome}
use sistemas_operativos.Vm.State.{Vm, ok, panics, M, update}

-- `tf_rest` holds the words of the frame that no code of these files names.
pub record Trapframe : Type 0 where
  pub reg_eax : ℕ
  pub tf_es : ℕ
  pub tf_ds : ℕ
  pub tf_cs : ℕ
  pub tf_eflags : ℕ
  pub tf_esp : ℕ
  pub tf_ss : ℕ
  pub tf_rest : ℕ → ℕ

-- `env_pgdir` is the number of the page of the directory, 0 for NULL. `env_type` has one value only.
pub record EnvRest : Type 0 where
  pub env_tf : Trapframe
  pub env_link : Ptr
  pub env_pgdir : ℕ
  pub env_pgfault_upcall : ℕ
  pub env_ipc_recving : Bool
  pub env_ipc_dstva : ℕ
  pub env_ipc_value : ℕ
  pub env_ipc_from : ℕ
  pub env_ipc_perm : ℕ

-- `envs[i]` is at address `i + 1`, in two parts.
pub record Kernel : Type 0 where
  pub sched : Sched
  pub rest : Ptr → EnvRest
  pub env_free_list : Ptr
  pub vm : Vm
  pub kern_pgdir : ℕ

-- inc/error.h
pub data Error : Type 0 where
  e_bad_env e_inval e_no_mem e_no_free_env e_ipc_not_recv : Error

abbrev pub error_code : Error → ℕ
error_code e_bad_env = 2
error_code e_inval = 3
error_code e_no_mem = 4
error_code e_no_free_env = 5
error_code e_ipc_not_recv = 7

-- How a function of the kernel ends: with a value, with an error, in the scheduler, which does not
-- come back (the kernel then holds all but the scheduler's state), or with a panic or a fault.
pub data Result (A : Type 0) : Type 0 where
  returns : A → Kernel → Result A
  fails : Error → Kernel → Result A
  leaves : Outcome → Kernel → Result A
  faults : Result A

abbrev pub K : Type 0 → Type 0
K A = Kernel → Result A

infixl 5 ◌>>=◌ ◌>>◌
abbrev pub ◌>>=◌ : {A B : Type 0} → K A → (A → K B) → K B
◌>>=◌ m f k = elim (m k) [
  | returns a k' ↦ f a k'
  | fails e k' ↦ fails e k'
  | leaves o k' ↦ leaves o k'
  | faults ↦ faults
]

abbrev pub ◌>>◌ : {A B : Type 0} → K A → K B → K B
m >> n = m >>= λ _. n

abbrev pub return : {A : Type 0} → A → K A
return a k = returns a k

abbrev pub fail : {A : Type 0} → Error → K A
fail e k = fails e k

abbrev pub fault : {A : Type 0} → K A
fault k = faults

abbrev pub get : K Kernel
get k = returns k k

abbrev pub put : Kernel → K (Unit {0})
put k' k = returns tt k'

-- A call of kern/pmap.c, and one of kern/sched.c.
abbrev pub on_vm : {A : Type 0} → M A → K A
on_vm m k = elim (m k.vm) [ ok a s ↦ returns a (record k { vm = s }) | panics ↦ faults ]

abbrev pub on_sched : (Sched → Option Sched) → K (Unit {0})
on_sched f k = elim (f k.sched) [ none ↦ faults | some s ↦ returns tt (record k { sched = s }) ]

abbrev pub modify : (Kernel → Kernel) → K (Unit {0})
modify f k = returns tt (f k)

-- `*e` in its two parts.
abbrev pub env_of : Ptr → Kernel → Env
env_of e k = k.sched.envs e

abbrev pub set_env : Ptr → Env → Kernel → Kernel
set_env e v k = record k { sched = put_env e v k.sched }

abbrev pub set_rest : Ptr → EnvRest → Kernel → Kernel
set_rest e v k = record k { rest = update k.rest e v }

abbrev pub curenv_of : Kernel → Ptr
curenv_of k = k.sched.curenv
