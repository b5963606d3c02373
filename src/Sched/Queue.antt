-- ===== src/Sched/Queue.antt =====
-- `queue_push` and `queue_remove` of kern/sched.c. `none` is a fault (a NULL dereference) or the
-- end of the fuel.
pub mod Chain
pub mod Relinked
pub mod Push
pub mod Remove
use sistemas_operativos.Base.{ℕ, zero, suc, ◌+◌, ◌-◌, ◌%◌, Option, none, some, ◌==◌, if◌then◌else◌}
use sistemas_operativos.Base.Returns.{◌>>=◌}
use sistemas_operativos.Sched.State.{Ptr, null, word, Env, Queue, Sched, update}

-- `queues[i] = q` and `*e = v`
abbrev pub put_queue : ℕ → Queue → Sched → Sched
put_queue i q s = record s { queues = update s.queues i q }

abbrev pub put_env : Ptr → Env → Sched → Sched
put_env e v s = record s { envs = update s.envs e v }

-- `p->next_env = n`, a fault at NULL
abbrev pub set_next : Ptr → Ptr → Sched → Option Sched
set_next p n s = if p == null then none else some (put_env p (record (s.envs p) { next_env = n }) s)

-- The two branches on `queue->envs`.
pub push_link : ℕ → Ptr → Sched → Option Sched
push_link i e s =
    if (s.queues i).envs == null
    then some (put_queue i (record (s.queues i) { envs = e }) s)
    else set_next (s.queues i).last_env e s

-- `queue->last_env = env; env->next_env = NULL; queue->num_envs++`
pub push_last : ℕ → Ptr → Sched → Sched
push_last i e s =
    let q = s.queues i in
    put_env e (record (s.envs e) { next_env = null })
      (put_queue i (record q { last_env = e; num_envs = (q.num_envs + 1) % word }) s)

-- The queue is the address `queues + i`, which is not NULL.
unfoldable pub queue_push : ℕ → Ptr → Sched → Option Sched
unfolding push_link push_last
queue_push i e s = if e == null then some s else do s' ← push_link i e s; some (push_last i e s')

-- The body of the loop's `if (curr == env)`, where `env` is not NULL.
pub unlink : ℕ → (e prev : Ptr) → Sched → Sched
unlink i e prev s =
    let n = (s.envs e).next_env in
    let q = s.queues i in
    let s₁ = if e == q.envs then put_queue i (record q { envs = n }) s else s in
    let q₁ = s₁.queues i in
    let s₂ = if e == q₁.last_env then put_queue i (record q₁ { last_env = prev }) s₁ else s₁ in
    let s₃ =
      if prev == null then s₂ else put_env prev (record (s₂.envs prev) { next_env = n }) s₂ in
    let q₃ = s₃.queues i in
    put_env e (record (s₃.envs e) { next_env = null })
      (put_queue i (record q₃ { num_envs = (q₃.num_envs + word - 1) % word }) s₃)

pub remove_loop : ℕ → ℕ → (e prev curr : Ptr) → Sched → Option Sched
remove_loop zero i e prev curr s = none
remove_loop (suc fuel) i e prev curr s =
    let rest = remove_loop fuel i e curr (s.envs curr).next_env s in
    if curr == null then some s else if curr == e then some (unlink i e prev s) else rest

-- The loop is given one round more than the queue counts environments.
unfoldable pub queue_remove : ℕ → Ptr → Sched → Option Sched
unfolding remove_loop unlink
queue_remove i e s =
    if e == null
    then some s
    else remove_loop ((s.queues i).num_envs + 1) i e null (s.queues i).envs s
