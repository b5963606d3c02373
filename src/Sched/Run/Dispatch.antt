-- ===== src/Sched/Run/Dispatch.antt =====
-- What `sched_round_robin` does to the environment that it runs.
use sistemas_operativos.Base.{ℕ, ◌≡◌, ◌≢◌, arith, ==_refl}
use sistemas_operativos.Sched.State.{Ptr, null, env_running, env_runnable, Sched}
use sistemas_operativos.Sched.Priority.{mlfq_base_timer}
use sistemas_operativos.Sched.Run.{dispatch}

-- No environment of this CPU but the current one is RUNNING.
abbrev pub OneRunning : Sched → Type 0
OneRunning s = (a : Ptr) → a ≢ null → (s.envs a).env_status ≡ env_running → a ≡ s.curenv

-- Running an environment on a CPU where only the current one is RUNNING leaves just the new one
-- RUNNING, also where there was no current one, as the current one with a full time slice on the timer; the one that was RUNNING
-- before, if another, is RUNNABLE.
pub dispatch-OneRunning :
    (cpu x : ℕ) (s : Sched)
    → OneRunning s
    → OneRunning (dispatch cpu x s)
      × ((dispatch cpu x s).curenv ≡ x)
      × (((dispatch cpu x s).envs x).env_status ≡ env_running)
      × ((dispatch cpu x s).timer ≡ mlfq_base_timer)
      × (s.curenv ≢ null
          → x ≢ s.curenv
          → (s.envs s.curenv).env_status ≡ env_running
          → ((dispatch cpu x s).envs s.curenv).env_status ≡ env_runnable)
unfolding dispatch
dispatch-OneRunning cpu x s one = (
  λ a n r. ground (arith, one a),
  ground arith,
  ground (arith, ==_refl x),
  ground (arith, ==_refl x),
  λ ne n r. ground (arith, ==_refl s.curenv),
)
