-- ===== src/Sched/Queue/Relinked.antt =====
-- What `queue_push` and `queue_remove` of kern/sched.c leave alone.
use sistemas_operativos.Base.{◌≡◌, ◌≢◌, false, List, has}
use sistemas_operativos.Sched.State.{Ptr, Sched}

-- From `s` to `s'` at most queue `i` and the links of `e` and of `xs` have changed.
pub record Relinked (i e : Ptr) (xs : List Ptr) (s s' : Sched) : Type 0 where
  pub others : (j : Ptr) → j ≢ i → s'.queues j ≡ s.queues j
  pub fields : (a : Ptr) → s'.envs a ≡ record (s.envs a) { next_env = (s'.envs a).next_env }
  pub outside : (a : Ptr) → has a xs ≡ false → a ≢ e → s'.envs a ≡ s.envs a
  pub rest : s' ≡ record s { envs = s'.envs; queues = s'.queues }
