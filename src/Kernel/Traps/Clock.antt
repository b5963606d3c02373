-- ===== src/Kernel/Traps/Clock.antt =====
-- The clock interrupt in `trap`: the scheduler runs.
use sistemas_operativos.Base.{ℕ, ◌+◌, ◌%◌, ◌≡◌}
use sistemas_operativos.Base.Returns
use sistemas_operativos.Base.Returns.{Returns, returns}
use sistemas_operativos.Sched.State.{Ptr, word, Sched}
use sistemas_operativos.Kernel.State.{Kernel}

-- The scheduler's state as `sched_yield` hands it to `sched_MLFQ`.
abbrev pub add_sched_call_stats : Sched → Sched
add_sched_call_stats s = record s {
  stats = record (s.stats) { sched_calls = (s.stats.sched_calls + 1) % word };
}

-- The state `g` keeps the queues of `s`, and the place of each environment.
record Keeps (s g : Sched) : Type 0 where
  queues : (i : ℕ) → g.queues i ≡ s.queues i
  next : (a : Ptr) → (g.envs a).next_env ≡ (s.envs a).next_env
  number : (a : Ptr) → (g.envs a).queue_num ≡ (s.envs a).queue_num
  current : g.curenv ≡ s.curenv
