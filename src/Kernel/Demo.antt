-- ===== src/Kernel/Demo.antt =====
-- A kernel with a running environment and its child, which waits for a message.
use sistemas_operativos.Base.{
  ℕ, zero, suc, ◌+◌, ◌==◌, ◌≡◌, refl, true, false, [], ◌∷◌, arith, if◌then◌else◌, has,
}
use sistemas_operativos.Sched.State.{
  Ptr, EnvStatus, env_free, env_running, env_not_runnable, Env, Queue, Sched,
}
use sistemas_operativos.Sched.Queue.Chain.{IsQueue}
use sistemas_operativos.Sched.Priority.IsMlfq.{Queues, IsMlfq}
use sistemas_operativos.Vm.Demo.{demo_vm}
use sistemas_operativos.Kernel.State.{EnvRest, Kernel}
use sistemas_operativos.Kernel.Envs.{initial_tf}

abbrev pub env_at : (id parent next : ℕ) → EnvStatus → Env
env_at id parent next st = record {
  env_id = id;
  env_parent_id = parent;
  env_status = st;
  env_runs = 1;
  env_cpunum = 0;
  queue_num = 0;
  next_env = next;
  time_remaining = 0;
  time_in_queue = 0;
}

abbrev pub demo_envs : Ptr → Env
demo_envs (suc zero) = env_at 4096 0 2 env_running
demo_envs (suc (suc zero)) = env_at 4097 4096 0 env_not_runnable
demo_envs _ = env_at 0 0 0 env_free

abbrev pub demo_queues : ℕ → Queue
demo_queues zero = record { envs = 1; last_env = 2; num_envs = 2 }
demo_queues _ = record { envs = 0; last_env = 0; num_envs = 0 }

abbrev pub demo_sched : Sched
demo_sched = record {
  envs = demo_envs;
  queues = demo_queues;
  mlfq_time_count = 0;
  stats = record {
    sched_calls = 0;
    boost_calls = 0;
    downgrade_calls = λ _. record { env_id = 0; last_prio = 0; curr_prio = 0 };
    num_downgrade_calls = 0;
    laps_num_downgrade_calls = 0;
    env_run_calls = λ _. record { env_id = 0; last_prio = 0; curr_prio = 0 };
    num_env_run_calls = 0;
    laps_env_run_calls = 0;
  };
  curenv = 1;
  timer = 0;
  halted = false;
}

-- The directories are the pages 2 and 4.
abbrev pub demo_rest : Ptr → EnvRest
demo_rest e = record {
  env_tf = initial_tf;
  env_link = e + 1;
  env_pgdir = if e == 1 then 2 else if e == 2 then 4 else 0;
  env_pgfault_upcall = 0;
  env_ipc_recving = e == 2;
  env_ipc_dstva = 0;
  env_ipc_value = 0;
  env_ipc_from = 0;
  env_ipc_perm = 0;
}

abbrev pub demo : Kernel
demo = record {
  sched = demo_sched;
  rest = demo_rest;
  env_free_list = 3;
  vm = demo_vm;
  kern_pgdir = 1;
}

abbrev pub held : Queues
held zero = 1 ∷ 2 ∷ []
held _ = []

demo-IsQueue : (i : ℕ) → IsQueue demo_envs (demo_queues i) (held i)
demo-IsQueue zero = record {
  chain = omega arith;
  distinct = (refl, (refl, tt));
  last = refl;
  count = refl;
  small = omega arith;
}
demo-IsQueue (suc i) = record {
  chain = refl;
  distinct = tt;
  last = refl;
  count = refl;
  small = omega arith;
}

demo_home : (i e : ℕ) → has e (held i) ≡ true → (demo_envs e).queue_num ≡ i
demo_home zero e m = ground arith
demo_home (suc i) e m = cc

pub demo-IsMlfq : IsMlfq demo_sched held
demo-IsMlfq = record {
  queue = λ i hi. demo-IsQueue i;
  home = λ i e hi m. demo_home i e m;
  fits = omega arith;
}
