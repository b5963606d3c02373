-- ===== src/Sched/Priority/Downgrade.antt =====
-- Allocation, freeing and downgrade of environments.
use sistemas_operativos.Base.{
  ℕ, ◌+◌, ◌*◌, ◌≤◌, ◌<◌, ◌^◌, ◌≡◌, ◌≢◌, ◌↔◌, true, false, arith, ◌==◌, if◌then◌else◌, has,
}
use sistemas_operativos.Base.Returns
use sistemas_operativos.Base.Returns.{Returns, returns}
use sistemas_operativos.Sched.State.{Ptr, null, nqueues, word, Sched}
use sistemas_operativos.Sched.Queue.Remove.{queue_remove-erase}
use sistemas_operativos.Sched.Priority.{
  mlfq_base_timer, log_size, mlfq_count_time, add_downgrade_call_stats, tq_over,
  should_env_downgrade, downgrade_env, sched_alloc_env, sched_free_env,
}
use sistemas_operativos.Sched.Priority.IsMlfq.{Queues, IsMlfq, total, IsMlfq-Removed}
use sistemas_operativos.Sched.Priority.Move.{
  removed, appended, SameEnv, IsAbsent, IsAbsent-removed, IsMlfq-put_env, IsMlfq-push,
  env_change_priority-moves,
}

-- `should_env_downgrade` holds exactly of an environment above the last queue whose last slice,
-- read as an `int32_t`, has reached 5,000,000 * (queue_num + 1).
pub should_env_downgrade_iff :
    (e : Ptr) (s : Sched)
    → (should_env_downgrade e s ≡ true) ↔ (
        (e ≢ null)
        × ((s.envs e).queue_num < 7)
        × ((s.envs e).time_in_queue < 2 ^ 31)
        × (5_000_000 * ((s.envs e).queue_num + 1) ≤ (s.envs e).time_in_queue))
unfolding should_env_downgrade tq_over
should_env_downgrade_iff e s =
    (λ h. (ground arith, ground arith, ground arith, ground arith), λ h. ground arith)

-- The entry that a downgrade logs, and its place.
abbrev pub Logged : Ptr → Sched → ℕ → Sched → Type 0
Logged e s i s' =
    (s'.stats.downgrade_calls
        (if s.stats.num_downgrade_calls == log_size then 0 else s.stats.num_downgrade_calls)
      ≡ record { env_id = (s.envs e).env_id; last_prio = i; curr_prio = i + 1 })
    × (s'.stats.num_downgrade_calls
        ≡ (if s.stats.num_downgrade_calls == log_size then 1 else s.stats.num_downgrade_calls + 1))

module _ (e : Ptr) (s : Sched) (qs : Queues) (v : IsMlfq s qs) where
  -- A new environment, of no queue, is put at the end of the first one with its times reset.
  pub sched_alloc_env-appends :
      e ≢ null
      → IsAbsent e qs
      → total nqueues qs + 1 < word
      → Returns
          (λ s'.
            IsMlfq s' (appended 0 e qs)
            × ((s'.envs e).queue_num ≡ 0)
            × ((s'.envs e).time_in_queue ≡ 0))
          (sched_alloc_env e s)
  unfolding sched_alloc_env
  sched_alloc_env-appends ne out room =
      Returns.mono
        (IsMlfq-push 0 e _ qs (IsMlfq-put_env e _ s qs v out) (omega arith) ne out (ground arith)
          room)
        λ s' p. (p.0, ground (arith, p.1.fields e), ground (arith, p.1.fields e))

  -- Freeing an environment takes it out of the queue of its number, and of no other.
  pub sched_free_env-removes :
      (i : ℕ)
      → i < nqueues
      → has e (qs i) ≡ true
      → Returns
          (λ s'. IsMlfq s' (removed i e qs) × IsAbsent e (removed i e qs))
          (sched_free_env e s)
  unfolding sched_free_env
  sched_free_env-removes i hi m = rw (v.home i e hi m) (
      Returns.mono (queue_remove-erase i e s (qs i) (v.queue i hi) m)
        λ s' r. (IsMlfq-Removed i e s s' qs v hi m r, IsAbsent-removed i e s qs v hi m))

  -- An environment that should be downgraded goes to the end of the next queue with its times
  -- reset, and the move is logged. No environment's identity, status or count of runs changes, nor the
  -- current environment and the count of time.
  pub downgrade_env-moves :
      (i : ℕ)
      → i < nqueues
      → has e (qs i) ≡ true
      → should_env_downgrade e s ≡ true
      → Returns
          (λ s'.
            IsMlfq s' (appended (i + 1) e (removed i e qs))
            × ((s'.envs e).time_in_queue ≡ 0)
            × Logged e s i s'
            × ((a : Ptr) → SameEnv (s.envs a) (s'.envs a))
            × (s'.curenv ≡ s.curenv)
            × (s'.mlfq_time_count ≡ s.mlfq_time_count)
            × ((s'.envs e).time_remaining ≡ 0))
          (downgrade_env e s)
  unfolding downgrade_env add_downgrade_call_stats
  downgrade_env-moves i hi m should =
      let at = v.home i e hi m in
      let low = (should_env_downgrade_iff e s).0 should in
      rw at (
        Returns.mono
          (env_change_priority-moves i (i + 1) e _ qs
            (record { queue = v.queue; home = v.home; fits = v.fits }) hi (omega arith) m)
          λ s' (w, mv, z, r, _). (
            w,
            z,
            ground (arith, mv.rest),
            mv.envs,
            ground (arith, mv.rest),
            ground (arith, mv.rest),
            r,
          ))

-- The counts are differences of 32-bit readings of the timer; it counts down from at most
-- MLFQ_TIMER. So the last slice of an environment in queue 2 or below never reaches its limit, and
-- after it is measured the environment is not downgraded.
pub downgrade_stops :
    (t it : ℕ) (e : Ptr) (s : Sched)
    → t ≤ it
    → it ≤ mlfq_base_timer
    → 2 ≤ (s.envs e).queue_num
    → should_env_downgrade e (mlfq_count_time t it e s) ≡ false
unfolding should_env_downgrade tq_over mlfq_count_time
downgrade_stops t it e s h k low = ground arith
