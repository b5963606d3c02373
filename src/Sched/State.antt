-- ===== src/Sched/State.antt =====
-- The data that kern/sched.c works on: `struct Env` (inc/env.h), `queue_t`, `sched_stats_t`
-- (inc/sched.h) and the kernel's variables. Environments live at addresses, so that the links of
-- the queues are aliases as in the source.
use sistemas_operativos.Base.{ℕ, ◌^◌, Bool, ◌==◌, if◌then◌else◌}

-- The address of an element of `envs`; 0 is NULL.
abbrev pub Ptr : Type 0
Ptr = ℕ

abbrev pub null : Ptr
null = 0

abbrev pub nqueues : ℕ
nqueues = 8

abbrev pub word : ℕ
word = 2 ^ 32

pub data EnvStatus : Type 0 where
  env_free env_dying env_runnable env_running env_not_runnable : EnvStatus

-- The fields that the scheduler reads or writes. 32-bit fields hold bit patterns.
pub record Env : Type 0 where
  pub env_id : ℕ
  pub env_parent_id : ℕ
  pub env_status : EnvStatus
  pub env_runs : ℕ
  pub env_cpunum : ℕ
  pub queue_num : ℕ
  pub next_env : Ptr
  pub time_remaining : ℕ
  pub time_in_queue : ℕ

pub record Queue : Type 0 where
  pub envs : Ptr
  pub last_env : Ptr
  pub num_envs : ℕ

pub record EnvInfo : Type 0 where
  pub env_id : ℕ
  pub last_prio : ℕ
  pub curr_prio : ℕ

pub record SchedStats : Type 0 where
  pub sched_calls : ℕ
  pub boost_calls : ℕ
  pub downgrade_calls : ℕ → EnvInfo
  pub num_downgrade_calls : ℕ
  pub laps_num_downgrade_calls : ℕ
  pub env_run_calls : ℕ → EnvInfo
  pub num_env_run_calls : ℕ
  pub laps_env_run_calls : ℕ

-- `timer` is what was last written to the LAPIC's initial count; `halted` is `cpu_status ==
-- CPU_HALTED` of this CPU.
pub record Sched : Type 0 where
  pub envs : Ptr → Env
  pub queues : ℕ → Queue
  pub mlfq_time_count : ℕ
  pub stats : SchedStats
  pub curenv : Ptr
  pub timer : ℕ
  pub halted : Bool

abbrev pub update {ℓ} : {A : Type ℓ} → (ℕ → A) → ℕ → A → ℕ → A
update f p v q = if q == p then v else f q
