-- ===== src/Sched/Priority/Move.antt =====
-- `env_change_priority` moves an environment to the end of its new queue.
use sistemas_operativos.Base.{
  ℕ, ◌+◌, ◌<◌, ◌≡◌, ◌≢◌, true, false, [], ◌∷◌, ◌++◌, arith, leb, has, erase, ==_refl, ne→==,
}
use sistemas_operativos.Base.Returns
use sistemas_operativos.Base.Returns.{Returns, returns}
use sistemas_operativos.Sched.State.{Ptr, null, nqueues, word, Env, Sched, update}
use sistemas_operativos.Sched.Queue.Chain.{ne_null, has-erase, length-erase, links}
use sistemas_operativos.Sched.Queue.Push.{queue_push-append}
use sistemas_operativos.Sched.Queue.Remove.{Removed, queue_remove-erase}
use sistemas_operativos.Sched.Queue.{put_env, queue_push}
use sistemas_operativos.Sched.Queue.Relinked.{Relinked}
use sistemas_operativos.Sched.Priority.{time_reset, set_priority, env_change_priority}
use sistemas_operativos.Sched.Priority.IsMlfq.{
  Queues, IsMlfq, total, total-update, IsQueue-frame, IsMlfq-Removed, IsMlfq-Pushed,
  length-le-total,
}

-- `e` taken out of queue `i`, and put at the end of queue `k`.
abbrev pub removed : ℕ → Ptr → Queues → Queues
removed i e qs = update qs i (erase e (qs i))

abbrev pub appended : ℕ → Ptr → Queues → Queues
appended k e qs = update qs k (qs k ++ e ∷ [])

-- `e` stands in no queue.
abbrev pub IsAbsent : Ptr → Queues → Type 0
IsAbsent e qs = (j : ℕ) → j < nqueues → has e (qs j) ≡ false

-- What an operation on the queues leaves of an environment.
pub record SameEnv (v w : Env) : Type 0 where
  pub env_id : w.env_id ≡ v.env_id
  pub env_status : w.env_status ≡ v.env_status
  pub env_runs : w.env_runs ≡ v.env_runs
  pub env_parent_id : w.env_parent_id ≡ v.env_parent_id

-- What `env_change_priority` leaves of the state.
pub record Moved (s s' : Sched) : Type 0 where
  pub envs : (a : Ptr) → SameEnv (s.envs a) (s'.envs a)
  pub rest : s' ≡ record s { envs = s'.envs; queues = s'.queues }

-- What a change of `e` to priority `k` leaves of the environments: of `e` all but the priority, the times
-- and the link, of the others all but the links.
pub record Repriced (e : Ptr) (k : ℕ) (s s' : Sched) : Type 0 where
  pub own : s'.envs e ≡ record (s.envs e) {
    queue_num = k;
    next_env = (s'.envs e).next_env;
    time_remaining = 0;
    time_in_queue = 0;
  }
  pub others : (a : Ptr) → a ≢ e → s'.envs a ≡ record (s.envs a) { next_env = (s'.envs a).next_env }

pub IsAbsent-removed :
    (i e : ℕ) (s : Sched) (qs : Queues)
    → IsMlfq s qs
    → i < nqueues
    → has e (qs i) ≡ true
    → IsAbsent e (removed i e qs)
IsAbsent-removed i e s qs v hi m j hj =
    ground (arith, has-erase e e (qs i) (v.queue i hi).distinct, v.home j e hj, v.home i e hi m)

-- An environment that no queue holds may be changed.
pub IsMlfq-put_env :
    (e : Ptr) (w : Env) (s : Sched) (qs : Queues)
    → IsMlfq s qs
    → IsAbsent e qs
    → IsMlfq (put_env e w s) qs
IsMlfq-put_env e w s qs v out = record {
  queue = λ i hi.
      IsQueue-frame s.envs (s.queues i) _ (qs i) (v.queue i hi) (λ a m. ground (arith, out i hi));
  home = λ i a hi m. ground (arith, out i hi, v.home i a hi m);
  fits = v.fits;
}

-- `queue_push` of an environment that no queue holds, on the queue of its number.
pub IsMlfq-push :
    (k e : ℕ) (s : Sched) (qs : Queues)
    → IsMlfq s qs
    → k < nqueues
    → e ≢ null
    → IsAbsent e qs
    → (s.envs e).queue_num ≡ k
    → total nqueues qs + 1 < word
    → Returns (λ s'. IsMlfq s' (appended k e qs) × Relinked k e (qs k) s s') (queue_push k e s)
IsMlfq-push k e s qs v hk ne out at room =
    Returns.mono
      (queue_push-append k e s (qs k) (v.queue k hk) ne (out k hk)
        (omega (arith, length-le-total nqueues k qs hk)))
      λ s' r. (IsMlfq-Pushed k e s s' qs v hk out at room r, r.1)

module _ (i k e : ℕ) (s : Sched) (qs : Queues) (v : IsMlfq s qs) where
  -- The second half of `env_change_priority`, from the state that `queue_remove` leaves.
  push_back :
      (s₁ : Sched)
      → i < nqueues
      → k < nqueues
      → has e (qs i) ≡ true
      → Removed i e s (qs i) s₁
      → Returns
          (λ s'.
            IsMlfq s' (appended k e (removed i e qs))
            × Moved s s'
            × ((s'.envs e).time_in_queue ≡ 0)
            × ((s'.envs e).time_remaining ≡ 0)
            × Repriced e k s s')
          (queue_push k e (set_priority e k s₁))
  unfolding set_priority
  push_back s₁ hi hk m r =
      let ne : e ≢ null =
        ground (arith, ne_null (links s.envs) e (s.queues i).envs (qs i) (v.queue i hi).chain m) in
      let out = IsAbsent-removed i e s qs v hi m in
      let taken = IsMlfq-Removed i e s s₁ qs v hi m r in
      let set =
        IsMlfq-put_env e (time_reset (record (s₁.envs e) { queue_num = k })) s₁ _ taken out in
      let room : total nqueues (removed i e qs) + 1 < word =
        omega
          (arith, v.fits, total-update nqueues i (erase e (qs i)) qs hi, length-erase e (qs i) m) in
      Returns.mono (IsMlfq-push k e _ _ set hk ne out (ground arith) room) λ s' p. (
        p.0,
        record {
          envs = λ a. ground (arith, p.1.fields a, r.1.fields a);
          rest = ground (arith, p.1.rest, r.1.rest);
        },
        ground (arith, p.1.fields e),
        ground (arith, p.1.fields e),
        record {
          own = ground (arith, p.1.fields e, r.1.fields e, ==_refl e);
          others = λ a n. ground (arith, p.1.fields a, r.1.fields a, ne→== a e n);
        },
      )

  -- `env_change_priority` of an environment of queue `i` ends without a fault and moves it to the end of
  -- queue `k`: the queues stay well formed, its priority is `k` and its times are 0, and of the other
  -- environments at most the links change, and nothing else but the queues.
  pub env_change_priority-moves :
      i < nqueues
      → k < nqueues
      → has e (qs i) ≡ true
      → Returns
          (λ s'.
            IsMlfq s' (appended k e (removed i e qs))
            × Moved s s'
            × ((s'.envs e).time_in_queue ≡ 0)
            × ((s'.envs e).time_remaining ≡ 0)
            × Repriced e k s s')
          (env_change_priority e k s)
  unfolding env_change_priority
  env_change_priority-moves hi hk m =
      let low : leb nqueues k ≡ false = ground arith in
      rw (low, v.home i e hi m)
        (Returns.bind (queue_remove-erase i e s (qs i) (v.queue i hi) m)
          λ s₁ r. push_back s₁ hi hk m r)
