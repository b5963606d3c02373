-- ===== src/Kernel/Syscalls/Priority.antt =====
-- `sys_change_prio` of kern/syscall.c on the queues of kern/sched.c.
use sistemas_operativos.Base.{ℕ, ◌≤◌, ◌<◌, true, ◌≡◌, ◌⊎◌, arith, has, some}
use sistemas_operativos.Base.Returns
use sistemas_operativos.Base.Returns.{Returns}
use sistemas_operativos.Sched.State.{Ptr, nqueues, Sched}
use sistemas_operativos.Sched.Priority.{env_change_priority, add_downgrade_call_stats}
use sistemas_operativos.Sched.Priority.IsMlfq.{Queues, IsMlfq}
use sistemas_operativos.Sched.Priority.Move.{removed, appended, env_change_priority-moves}
use sistemas_operativos.Kernel.State.{Kernel, e_inval, returns, fails, env_of}
use sistemas_operativos.Kernel.Envs.{envid2env}
use sistemas_operativos.Kernel.Syscalls.{sys_change_prio}

IsMlfq-logged :
    (e q new : ℕ) (s : Sched) (qs : Queues)
    → IsMlfq s qs
    → IsMlfq (add_downgrade_call_stats e q new s) qs
unfolding add_downgrade_call_stats
IsMlfq-logged e q new s qs v = record { queue = v.queue; home = v.home; fits = v.fits }

module _ (env_id new : ℕ) (e : Ptr) (k : Kernel)
    (found : envid2env env_id true k ≡ returns e k) where
  refuses :
      (nqueues ≤ new) ⊎ (new < (env_of e k).queue_num)
      → sys_change_prio env_id new k ≡ fails e_inval k
  unfolding sys_change_prio
  refuses bad = ground (arith, found, bad)

  stays : new < nqueues → new ≡ (env_of e k).queue_num → sys_change_prio env_id new k ≡ returns tt k
  unfolding sys_change_prio
  stays low same = ground (arith, found)

  changes :
      (s : Sched)
      → new < nqueues
      → (env_of e k).queue_num < new
      → env_change_priority e new (add_downgrade_call_stats e (env_of e k).queue_num new k.sched)
        ≡ some s
      → sys_change_prio env_id new k ≡ returns tt (record k { sched = s })
  unfolding sys_change_prio
  changes s low down moved = ground (arith, found, moved)

-- `sys_change_prio` on well-formed queues, for an environment that `envid2env` grants and that stands in
-- the queue of its number: it fails with -E_INVAL and no change for a number out of range or below that of
-- the environment, changes nothing for the same number, and otherwise moves the environment to the end of
-- the lower queue with its time reset and the queues well formed.
pub sys_change_prio-lowers :
    (env_id new : ℕ) (e : Ptr) (k : Kernel) (qs : Queues)
    → envid2env env_id true k ≡ returns e k
    → IsMlfq k.sched qs
    → (env_of e k).queue_num < nqueues
    → has e (qs (env_of e k).queue_num) ≡ true
    → ((nqueues ≤ new) ⊎ (new < (env_of e k).queue_num)
        → sys_change_prio env_id new k ≡ fails e_inval k)
      × (new < nqueues → new ≡ (env_of e k).queue_num → sys_change_prio env_id new k ≡ returns tt k)
      × (new < nqueues
          → (env_of e k).queue_num < new
          → (s : Sched) × (sys_change_prio env_id new k ≡ returns tt (record k { sched = s }))
            × IsMlfq s (appended new e (removed (env_of e k).queue_num e qs))
            × ((s.envs e).time_in_queue ≡ 0))
sys_change_prio-lowers env_id new e k qs found v high m = (
  refuses env_id new e k found,
  stays env_id new e k found,
  λ low down.
      let (s, moved, p) = Returns.value (
        env_change_priority-moves (env_of e k).queue_num new e _ qs
          (IsMlfq-logged e (env_of e k).queue_num new k.sched qs v) high low m) in
      (s, changes env_id new e k found s low down moved, p.0, p.2),
)
