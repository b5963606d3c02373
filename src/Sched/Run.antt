-- ===== src/Sched/Run.antt =====
-- Choosing and running an environment: `env_switch` and `env_run` of kern/env.c, and the
-- schedulers of kern/sched.c. `env_run` does not return, so a scheduler either switches or falls
-- through. `cpu` is what `cpunum()` gives. `none` is a fault or the end of the fuel.
pub mod Choice
pub mod Best
pub mod Mlfq
pub mod Dispatch
use sistemas_operativos.Base.{
  ℕ, zero, suc, ◌+◌, ◌%◌, Bool, true, false, not, ◌&&◌, ◌||◌, Option, none, some, ◌==◌,
  if◌then◌else◌,
}
use sistemas_operativos.Base.Returns.{◌>>=◌}
use sistemas_operativos.Sched.State.{
  Ptr, null, nqueues, word, EnvStatus, env_free, env_dying, env_runnable, env_running,
  env_not_runnable, Env, EnvInfo, Sched, update,
}
use sistemas_operativos.Sched.Queue.{put_env}
use sistemas_operativos.Sched.Priority.{
  mlfq_base_timer, log_size, should_env_downgrade, downgrade_env, should_boost, boost,
}

pub data Flow : Type 0 where
  switched : Sched → Flow
  back : Sched → Flow

-- How `sched_yield` ends: an environment runs, the CPU halts, or the monitor is entered for good.
pub data Outcome : Type 0 where
  runs : Sched → Outcome
  halts : Sched → Outcome
  monitors : Sched → Outcome

abbrev pub is_runnable : EnvStatus → Bool
is_runnable env_runnable = true
is_runnable _ = false

abbrev pub is_running : EnvStatus → Bool
is_running env_running = true
is_running _ = false

-- CPU_TIME_HALT and NENV.
abbrev pub cpu_time_halt : ℕ
cpu_time_halt = 500_000

abbrev pub nenv : ℕ
nenv = 1024

-- The load of the page directory is not part of the state.
pub env_switch : Ptr → Sched → Sched
env_switch e s =
    let s₁ =
      if not (s.curenv == null) && is_running (s.envs s.curenv).env_status
      then put_env s.curenv (record (s.envs s.curenv) { env_status = env_runnable }) s
      else s in
    let v = s₁.envs e in
    put_env e (record v { env_runs = (v.env_runs + 1) % word; env_status = env_running })
      (record s₁ { curenv = e })

pub env_run : (cpu : ℕ) → Ptr → Sched → Sched
unfolding env_switch
env_run cpu e s =
    let s₁ = env_switch e s in
    put_env e (record (s₁.envs e) { env_cpunum = cpu })
      (record s₁ { timer = (s₁.envs e).time_remaining })

-- ADD_ENV_RUN_CALL_STATS
pub add_env_run_call_stats : Ptr → Sched → Sched
add_env_run_call_stats e s =
    let full = s.stats.num_env_run_calls == log_size in
    let n = if full then 0 else s.stats.num_env_run_calls in
    let laps =
      if full then (s.stats.laps_env_run_calls + 1) % word else s.stats.laps_env_run_calls in
    let old : EnvInfo = s.stats.env_run_calls n in
    let info : EnvInfo = record old {
      env_id = (s.envs e).env_id;
      curr_prio = (s.envs e).queue_num;
    } in
    record s {
      stats = record (s.stats) {
        env_run_calls = update s.stats.env_run_calls n info;
        num_env_run_calls = n + 1;
        laps_env_run_calls = laps;
      };
    }

-- The body of both `if`s of `sched_round_robin`.
unfoldable pub dispatch : (cpu : ℕ) → Ptr → Sched → Sched
unfolding add_env_run_call_stats env_run
dispatch cpu e s = env_run cpu e (
    add_env_run_call_stats e (put_env e (record (s.envs e) { time_remaining = mlfq_base_timer }) s))

-- `while (curr_env)`
pub scan : (cpu fuel : ℕ) → Ptr → Sched → Option Flow
scan cpu zero curr s = none
scan cpu (suc fuel) curr s =
    let rest = scan cpu fuel (s.envs curr).next_env s in
    if curr == null
    then some (back s)
    else if is_runnable (s.envs curr).env_status
    then some (switched (dispatch cpu curr s))
    else rest

-- `while (curr_env && (curr_env != last_run_env->next_env))`
pub scan_wrapped : (cpu fuel : ℕ) → (last curr : Ptr) → Sched → Option Flow
scan_wrapped cpu zero last curr s = none
scan_wrapped cpu (suc fuel) last curr s =
    let rest = scan_wrapped cpu fuel last (s.envs curr).next_env s in
    if (curr == null) || (curr == (s.envs last).next_env)
    then some (back s)
    else if is_runnable (s.envs curr).env_status
        || (is_running (s.envs curr).env_status && (curr == last))
    then some (switched (dispatch cpu curr s))
    else rest

-- The early end of the scan that follows the first loop.
pub wrap_around : (cpu fuel : ℕ) → (envs last : Ptr) → Flow → Option Flow
unfolding scan_wrapped
wrap_around cpu fuel envs last (switched s) = some (switched s)
wrap_around cpu fuel envs last (back s) =
    if last == null then some (back s) else scan_wrapped cpu fuel last envs s

-- The fuel is one more than the count of the queue.
unfoldable pub sched_round_robin : (cpu fuel : ℕ) → (envs last : Ptr) → Sched → Option Flow
unfolding scan wrap_around
sched_round_robin cpu fuel envs last s =
    scan cpu fuel (if last == null then envs else (s.envs last).next_env) s
    >>= wrap_around cpu fuel envs last

-- What follows a call that may not return.
abbrev pub fall_through : Flow → (Sched → Option Flow) → Option Flow
fall_through (switched s) k = some (switched s)
fall_through (back s) k = k s

-- The loop of `sched_MLFQ` over the queues, from `i` on.
pub scan_queues : (cpu n i : ℕ) → Sched → Option Flow
scan_queues cpu zero i s = some (back s)
scan_queues cpu (suc n) i s =
    let last =
      if not (s.curenv == null) && ((s.envs s.curenv).queue_num == i) then s.curenv else null in
    sched_round_robin cpu ((s.queues i).num_envs + 1) (s.queues i).envs last s >>= λ f.
    fall_through f (λ s'. scan_queues cpu n (i + 1) s')

-- The two tests at the start of `sched_MLFQ`.
pub adjust : Sched → Option Sched
adjust s = do
  s₁ ← if should_env_downgrade s.curenv s then downgrade_env s.curenv s else some s
  if should_boost s₁ then boost s₁ else some s₁

unfoldable pub sched_mlfq : (cpu : ℕ) → Sched → Option Flow
unfolding adjust scan_queues
sched_mlfq cpu s = adjust s >>= scan_queues cpu nqueues 0

-- Whether one of the environments at addresses 1 to `n` keeps the system alive.
abbrev pub is_alive : EnvStatus → Bool
is_alive env_free = false
is_alive env_not_runnable = false
is_alive _ = true

pub any_alive : ℕ → (Ptr → Env) → Bool
any_alive zero h = false
any_alive (suc n) h = is_alive (h (suc n)).env_status || any_alive n h

unfoldable pub sched_halt : Sched → Outcome
unfolding any_alive
sched_halt s =
    if any_alive nenv s.envs
    then halts (record s { curenv = null; timer = cpu_time_halt; halted = true })
    else monitors s

pub finish : Flow → Outcome
unfolding sched_halt
finish (switched s) = runs s
finish (back s) = sched_halt s

unfoldable pub sched_yield : (cpu : ℕ) → Sched → Option Outcome
unfolding finish
sched_yield cpu s =
    sched_mlfq cpu
      (record s { stats = record (s.stats) { sched_calls = (s.stats.sched_calls + 1) % word } })
    >>= λ f. some (finish f)
