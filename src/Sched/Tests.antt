-- ===== src/Sched/Tests.antt =====
-- A state of three environments: runs of the scheduler of kern/sched.c, and its theorems at it.
use mathlib.Core.Option
use sistemas_operativos.Base.{
  ℕ, zero, suc, ◌+◌, ◌≡◌, refl, ◌≢◌, true, false, [], ◌∷◌, some, arith, has,
}
use sistemas_operativos.Base.Returns.{Returns}
use sistemas_operativos.Sched.State.{
  null, Ptr, EnvStatus, env_free, env_runnable, env_running, Env, Queue, EnvInfo, Sched,
}
use sistemas_operativos.Sched.Queue.{queue_push, queue_remove}
use sistemas_operativos.Sched.Queue.Chain.{IsQueue}
use sistemas_operativos.Sched.Queue.Push.{Pushed, queue_push-append}
use sistemas_operativos.Sched.Queue.Remove.{Removed, queue_remove-erase}
use sistemas_operativos.Sched.Priority.{
  mlfq_base_timer, mlfq_count_time, env_change_priority, boost, should_boost, should_env_downgrade,
  downgrade_env,
}
use sistemas_operativos.Sched.Priority.IsMlfq.{Queues, IsMlfq}
use sistemas_operativos.Sched.Priority.Move.{
  removed, appended, IsAbsent, SameEnv, Moved, Repriced, env_change_priority-moves,
}
use sistemas_operativos.Sched.Priority.Boost.{collected, boost-collects}
use sistemas_operativos.Sched.Priority.Downgrade.{Logged, downgrade_env-moves, downgrade_stops}
use sistemas_operativos.Sched.Run.{Flow, switched, back, dispatch, sched_round_robin, sched_mlfq}
use sistemas_operativos.Sched.Run.Choice.{pick, sched_round_robin-turn}
use sistemas_operativos.Sched.Run.Mlfq.{IsReady, Scheduled, sched_mlfq-Scheduled}
use sistemas_operativos.Sched.Run.Dispatch.{OneRunning, dispatch-OneRunning}

abbrev env_at : (queue_num next_env time_in_queue : ℕ) → EnvStatus → Env
env_at q n t st = record {
  env_id = 4096;
  env_parent_id = 0;
  env_status = st;
  env_runs = 1;
  env_cpunum = 0;
  queue_num = q;
  next_env = n;
  time_remaining = 0;
  time_in_queue = t;
}

abbrev empty_queue : Queue
empty_queue = record { envs = 0; last_env = 0; num_envs = 0 }

abbrev no_info : EnvInfo
no_info = record { env_id = 0; last_prio = 0; curr_prio = 0 }

-- Environments 1 and 2 in the first queue, 3 in the second and running.
abbrev demo_envs : Ptr → Env
demo_envs (suc zero) = env_at 0 2 0 env_runnable
demo_envs (suc (suc zero)) = env_at 0 0 0 env_runnable
demo_envs (suc (suc (suc zero))) = env_at 1 0 10_000_000 env_running
demo_envs _ = env_at 0 0 0 env_free

abbrev demo_queues : ℕ → Queue
demo_queues zero = record { envs = 1; last_env = 2; num_envs = 2 }
demo_queues (suc zero) = record { envs = 3; last_env = 3; num_envs = 1 }
demo_queues _ = empty_queue

abbrev demo : Sched
demo = record {
  envs = demo_envs;
  queues = demo_queues;
  mlfq_time_count = 0;
  stats = record {
    sched_calls = 0;
    boost_calls = 0;
    downgrade_calls = λ _. no_info;
    num_downgrade_calls = 0;
    laps_num_downgrade_calls = 0;
    env_run_calls = λ _. no_info;
    num_env_run_calls = 0;
    laps_env_run_calls = 0;
  };
  curenv = 3;
  timer = 0;
  halted = false;
}

abbrev held : Queues
held zero = 1 ∷ 2 ∷ []
held (suc zero) = 3 ∷ []
held _ = []

demo-IsQueue : (i : ℕ) → IsQueue demo_envs (demo_queues i) (held i)
demo-IsQueue zero = record {
  chain = omega arith;
  distinct = (refl, (refl, tt));
  last = refl;
  count = refl;
  small = omega arith;
}
demo-IsQueue (suc zero) = record {
  chain = omega arith;
  distinct = (refl, tt);
  last = refl;
  count = refl;
  small = omega arith;
}
demo-IsQueue (suc (suc i)) = record {
  chain = refl;
  distinct = tt;
  last = refl;
  count = refl;
  small = omega arith;
}

demo_home : (i e : ℕ) → has e (held i) ≡ true → (demo_envs e).queue_num ≡ i
demo_home zero e m = ground arith
demo_home (suc zero) e m = ground arith
demo_home (suc (suc i)) e m = cc

demo-IsMlfq : IsMlfq demo held
demo-IsMlfq = record {
  queue = λ i hi. demo-IsQueue i;
  home = λ i e hi m. demo_home i e m;
  fits = omega arith;
}

demo-IsReady : IsReady demo held
demo-IsReady = record {
  mlfq = demo-IsMlfq;
  current = record { number = λ n. omega arith; stands = λ n. refl };
}

absent : IsAbsent 4 held
absent zero h = refl
absent (suc zero) h = refl
absent (suc (suc i)) h = refl

-- The last environment that ran is downgraded, and the first of queue 0 runs.
sched_mlfq_runs :
    Option.map (λ (f : Flow). elim f [ switched s ↦ s.curenv | back s ↦ 0 ]) (sched_mlfq 0 demo)
    ≡ some 1
unfolding sched_mlfq should_env_downgrade downgrade_env env_change_priority queue_push queue_remove
    should_boost sched_round_robin dispatch
sched_mlfq_runs = refl

queue_push-append_example : Returns (Pushed 0 4 demo (1 ∷ 2 ∷ [])) (queue_push 0 4 demo)
queue_push-append_example =
    queue_push-append 0 4 demo (1 ∷ 2 ∷ []) (demo-IsQueue 0) (omega arith) refl (omega arith)

queue_remove-erase_example : Returns (Removed 0 2 demo (1 ∷ 2 ∷ [])) (queue_remove 0 2 demo)
queue_remove-erase_example = queue_remove-erase 0 2 demo (1 ∷ 2 ∷ []) (demo-IsQueue 0) refl

env_change_priority-moves_example :
    Returns
      (λ s'.
        IsMlfq s' (appended 2 1 (removed 0 1 held))
        × Moved demo s'
        × ((s'.envs 1).time_in_queue ≡ 0)
        × ((s'.envs 1).time_remaining ≡ 0)
        × Repriced 1 2 demo s')
      (env_change_priority 1 2 demo)
env_change_priority-moves_example =
    env_change_priority-moves 0 2 1 demo held demo-IsMlfq (omega arith) (omega arith) refl

boost-collects_example :
    Returns
      (λ s'.
        IsMlfq s' (collected held)
        × (s'.mlfq_time_count ≡ 0)
        × ((a : Ptr) → SameEnv (demo.envs a) (s'.envs a))
        × (s'.curenv ≡ 3))
      (boost demo)
boost-collects_example = boost-collects demo held demo-IsMlfq

downgrades : should_env_downgrade 3 demo ≡ true
unfolding should_env_downgrade
downgrades = refl

downgrade_env-moves_example :
    Returns
      (λ s'.
        IsMlfq s' (appended 2 3 (removed 1 3 held))
        × ((s'.envs 3).time_in_queue ≡ 0)
        × Logged 3 demo 1 s'
        × ((a : Ptr) → SameEnv (demo.envs a) (s'.envs a))
        × (s'.curenv ≡ 3)
        × (s'.mlfq_time_count ≡ demo.mlfq_time_count)
        × ((s'.envs 3).time_remaining ≡ 0))
      (downgrade_env 3 demo)
downgrade_env-moves_example =
    downgrade_env-moves 3 demo held demo-IsMlfq 1 (omega arith) refl downgrades

low : Sched
low = record demo { envs = λ a. env_at 2 0 0 env_running }

downgrade_stops_example : should_env_downgrade 3 (mlfq_count_time 0 10_000_000 3 low) ≡ false
unfolding low
downgrade_stops_example =
    downgrade_stops 0 10_000_000 3 low (omega arith) (omega arith) (omega arith)

sched_round_robin-turn_example : sched_round_robin 0 (2 + 1) 1 2 demo ≡ some (pick 0 demo (some 1))
sched_round_robin-turn_example =
    sched_round_robin-turn 0 demo 2 0 (1 ∷ 2 ∷ []) (demo-IsQueue 0) (λ n. refl)

sched_mlfq-Scheduled_example : Returns (Scheduled 0 demo held) (sched_mlfq 0 demo)
sched_mlfq-Scheduled_example = sched_mlfq-Scheduled 0 demo held demo-IsReady

demo-OneRunning : OneRunning demo
demo-OneRunning zero n r = cc
demo-OneRunning (suc zero) n r = cc
demo-OneRunning (suc (suc zero)) n r = cc
demo-OneRunning (suc (suc (suc zero))) n r = refl
demo-OneRunning (suc (suc (suc (suc a)))) n r = cc

dispatch-OneRunning_example :
    OneRunning (dispatch 0 1 demo)
    × ((dispatch 0 1 demo).curenv ≡ 1)
    × (((dispatch 0 1 demo).envs 1).env_status ≡ env_running)
    × ((dispatch 0 1 demo).timer ≡ mlfq_base_timer)
    × (◌≢◌ {A = ℕ} 3 null
        → ◌≢◌ {A = ℕ} 1 3
        → env_running ≡ env_running
        → ((dispatch 0 1 demo).envs 3).env_status ≡ env_runnable)
dispatch-OneRunning_example = dispatch-OneRunning 0 1 demo demo-OneRunning
