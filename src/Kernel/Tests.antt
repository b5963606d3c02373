-- ===== src/Kernel/Tests.antt =====
-- The theorems on kern/env.c and kern/syscall.c at a kernel with a running environment and its child.
use sistemas_operativos.Base.{ℕ, ◌%◌, ◌^◌, ◌≡◌, ◌≢◌, ◌≤◌, ◌<◌, refl, ◌⊎◌, true, false, some, arith}
use sistemas_operativos.Sched.State.{nqueues, Sched}
use sistemas_operativos.Sched.Priority.IsMlfq.{IsMlfq}
use sistemas_operativos.Sched.Priority.Move.{removed, appended}
use sistemas_operativos.Vm.State.{ok, utop}
use sistemas_operativos.Vm.Tables.{make_table, find_pte, pgdir_walk, page_lookup}
use sistemas_operativos.Vm.Tables.Remove.{place}
use sistemas_operativos.Vm.Demo.{demo_vm}
use sistemas_operativos.Kernel.Demo.{demo, held, demo-IsMlfq}
use sistemas_operativos.Kernel.State.{
  Kernel, e_bad_env, e_inval, e_ipc_not_recv, returns, fails, env_of,
}
use sistemas_operativos.Kernel.Envs.{envid2env, fill_env}
use sistemas_operativos.Kernel.Envs.Lookup.{Named, envid2env-Named}
use sistemas_operativos.Kernel.Envs.Ids.{fill_env-envid2env}
use sistemas_operativos.Kernel.Syscalls.{sys_change_prio, sys_page_map}
use sistemas_operativos.Kernel.Syscalls.Priority.{sys_change_prio-lowers}
use sistemas_operativos.Kernel.Syscalls.Map.{sys_page_map-page}
use sistemas_operativos.Kernel.Ipc.{sys_ipc_try_send}
use sistemas_operativos.Kernel.Ipc.Deliver.{Received, sys_ipc_try_send-Received}

finds_child : envid2env 4097 true demo ≡ returns 2 demo
unfolding envid2env
finds_child = refl

envid2env-Named_example : (◌≡◌ {A = Kernel} demo demo) × Named 4097 true 2 demo
envid2env-Named_example = envid2env-Named 4097 true 2 demo demo finds_child

-- The third environment is free and gets its first number, 0x1002.
fill_env-envid2env_example :
    let k' = fill_env 3 4096 demo in
    let id = (env_of 3 k').env_id in
    (0 < id)
    × (id < 2 ^ 31)
    × (envid2env id false k' ≡ returns 3 k')
    × (◌<◌ 0 (2 ^ 31)
        → ◌≢◌ {A = ℕ} 0 0
        → ◌≡◌ {A = ℕ} (0 % 1024) 2
        → envid2env 0 false k' ≡ fails e_bad_env k')
fill_env-envid2env_example = fill_env-envid2env 2 4096 demo (omega arith)

sys_ipc_try_send-Received_example :
    (k' : Kernel) × (sys_ipc_try_send 4097 7 utop 0 demo ≡ returns tt k')
    × Received 2 7 demo k'
    × ((value' srcva' perm' : ℕ)
        → sys_ipc_try_send 4097 value' srcva' perm' k' ≡ fails e_ipc_not_recv k')
sys_ipc_try_send-Received_example =
    sys_ipc_try_send-Received 4097 7 utop 0 2 demo (λ e. omega arith) refl refl refl refl
      (omega arith)

sys_change_prio-lowers_example :
    ((◌≤◌ nqueues 3) ⊎ (◌<◌ 3 0) → sys_change_prio 4097 3 demo ≡ fails e_inval demo)
    × (◌<◌ 3 nqueues → ◌≡◌ {A = ℕ} 3 0 → sys_change_prio 4097 3 demo ≡ returns tt demo)
    × (◌<◌ 3 nqueues
        → ◌<◌ 0 3
        → (s : Sched) × (sys_change_prio 4097 3 demo ≡ returns tt (record demo { sched = s }))
          × IsMlfq s (appended 3 2 (removed 0 2 held))
          × ((s.envs 2).time_in_queue ≡ 0))
sys_change_prio-lowers_example =
    sys_change_prio-lowers 4097 3 2 demo held finds_child demo-IsMlfq (omega arith) refl

finds_self : envid2env 4096 true demo ≡ returns 1 demo
unfolding envid2env
finds_self = refl

finds_page : page_lookup 2 0x1000 demo_vm ≡ ok (some (20, (3, 1))) demo_vm
unfolding page_lookup pgdir_walk make_table find_pte
finds_page = refl

walks : pgdir_walk 4 0x2000 true demo_vm ≡ ok (some (place 4 0x2000 demo_vm)) demo_vm
unfolding pgdir_walk make_table find_pte
walks = refl

-- Page 20 is asked for, and page 21 is mapped.
sys_page_map-page_example :
    (k' : Kernel) × (sys_page_map 4096 0x1000 4097 0x2000 0x1000 demo ≡ returns tt k')
    × (page_lookup 4 0x2000 k'.vm ≡ ok (some (21, place 4 0x2000 demo_vm)) k'.vm)
sys_page_map-page_example =
    sys_page_map-page 4096 0x1000 4097 0x2000 0x1000 20 (3, 1) 1 2 demo finds_self finds_child refl
      finds_page refl demo_vm walks (omega arith) (λ e. omega arith) (omega arith)
      (λ ne. absurd (ne refl))
