-- ===== src/Sched/Priority.antt =====
-- The priorities of kern/sched.c: allocation and freeing, changes of priority, downgrade, boost.
pub mod IsMlfq
pub mod Move
pub mod Boost
pub mod Downgrade
use sistemas_operativos.Base.{
  ℕ, zero, suc, ◌+◌, ◌-◌, ◌*◌, ◌%◌, ◌^◌, Bool, not, ◌&&◌, Option, none, some, ◌==◌, ltb, leb,
  if◌then◌else◌,
}
use sistemas_operativos.Base.Returns.{◌>>=◌}
use sistemas_operativos.Sched.State.{
  Ptr, null, nqueues, word, Env, EnvInfo, SchedStats, Sched, update,
}
use sistemas_operativos.Sched.Queue.{put_env, queue_push, queue_remove}

-- MLFQ_BASE_TIMER and MLFQ_BOOST.
abbrev pub mlfq_base_timer : ℕ
mlfq_base_timer = 10_000_000

abbrev pub mlfq_boost : ℕ
mlfq_boost = mlfq_base_timer * 20

-- NDWN_CALLS and NRUN_CALLS.
abbrev pub log_size : ℕ
log_size = 4096 * 4

-- MLFQ_MAX_TIME_IN_QUEUE: MLFQ_BASE_TIMER * 0.5 is the whole number 5,000,000, and the products
-- are exact in a double.
pub max_time_in_queue : ℕ → ℕ
max_time_in_queue queue_num = 5_000_000 * (queue_num + 1)

-- MLFQ_TQ_OVER: the comparison of an `int32_t`, here a bit pattern, with a positive double.
pub tq_over : Env → Bool
unfolding max_time_in_queue
tq_over v = ltb v.time_in_queue (2 ^ 31) && leb (max_time_in_queue v.queue_num) v.time_in_queue

-- MLFQ_TIME_COUNT, with `t` and `it` what the LAPIC's current and initial counts read.
unfoldable pub mlfq_count_time : (t it : ℕ) → Ptr → Sched → Sched
mlfq_count_time t it e s =
    let d = (it + word - t) % word in
    let s' = record s { mlfq_time_count = (s.mlfq_time_count + d) % word } in
    if e == null
    then s'
    else put_env e (record (s'.envs e) { time_remaining = t; time_in_queue = d }) s'

-- MLFQ_TIME_RESET
abbrev pub time_reset : Env → Env
time_reset v = record v { time_remaining = 0; time_in_queue = 0 }

-- ADD_DOWNGRADE_CALL_STATS
unfoldable pub add_downgrade_call_stats : Ptr → (lprio cprio : ℕ) → Sched → Sched
add_downgrade_call_stats e lprio cprio s =
    let full = s.stats.num_downgrade_calls == log_size in
    let n = if full then 0 else s.stats.num_downgrade_calls in
    let laps =
      if full
      then (s.stats.laps_num_downgrade_calls + 1) % word
      else s.stats.laps_num_downgrade_calls in
    let info : EnvInfo = record {
      env_id = (s.envs e).env_id;
      last_prio = lprio;
      curr_prio = cprio;
    } in
    record s {
      stats = record (s.stats) {
        downgrade_calls = update s.stats.downgrade_calls n info;
        num_downgrade_calls = n + 1;
        laps_num_downgrade_calls = laps;
      };
    }

pub sched_alloc_env : Ptr → Sched → Option Sched
sched_alloc_env e s =
    queue_push 0 e (put_env e (time_reset (record (s.envs e) { next_env = null; queue_num = 0 })) s)

pub sched_free_env : Ptr → Sched → Option Sched
sched_free_env e s = queue_remove (s.envs e).queue_num e s

-- What `env_change_priority` stores between the removal and the insertion.
pub set_priority : Ptr → ℕ → Sched → Sched
set_priority e prio s = put_env e (time_reset (record (s.envs e) { queue_num = prio })) s

-- The callers pass an environment, and a priority that is not negative.
unfoldable pub env_change_priority : Ptr → ℕ → Sched → Option Sched
unfolding set_priority
env_change_priority e prio s =
    if leb nqueues prio
    then some s
    else do s₁ ← queue_remove (s.envs e).queue_num e s; queue_push prio e (set_priority e prio s₁)

unfoldable pub should_env_downgrade : Ptr → Sched → Bool
unfolding tq_over
should_env_downgrade e s = not (e == null) && (ltb (s.envs e).queue_num 7 && tq_over (s.envs e))

unfoldable pub downgrade_env : Ptr → Sched → Option Sched
unfolding add_downgrade_call_stats
downgrade_env e s =
    let q = (s.envs e).queue_num in
    env_change_priority e (q + 1) (add_downgrade_call_stats e q (q + 1) s)

unfoldable pub should_boost : Sched → Bool
should_boost s = leb mlfq_boost s.mlfq_time_count

-- `while (queues[i].envs) env_change_priority(queues[i].envs, 0)`
pub boost_queue : ℕ → ℕ → Sched → Option Sched
boost_queue zero i s = none
boost_queue (suc fuel) i s =
    let rest = env_change_priority (s.queues i).envs 0 s >>= (λ s'. boost_queue fuel i s') in
    if (s.queues i).envs == null then some s else rest

-- The queues from `i` on, `n` of them; each loop is given one round more than the queue counts.
pub boost_from : (n i : ℕ) → Sched → Option Sched
unfolding boost_queue
boost_from zero i s = some s
boost_from (suc n) i s =
    boost_queue ((s.queues i).num_envs + 1) i s >>= (λ s'. boost_from n (i + 1) s')

unfoldable pub boost : Sched → Option Sched
unfolding boost_from
boost s = boost_from 7 1 (record s {
  mlfq_time_count = 0;
  stats = record (s.stats) { boost_calls = (s.stats.boost_calls + 1) % word };
})
