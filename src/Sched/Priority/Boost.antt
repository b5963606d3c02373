-- ===== src/Sched/Priority/Boost.antt =====
-- `boost` collects every environment in the first queue.
use mathlib.Core.Path.{fun_ext}
use mathlib.Core.List.{append-nil, append_assoc}
use sistemas_operativos.Base.{
  ℕ, zero, suc, ◌+◌, ◌≤◌, ◌<◌, ◌≡◌, refl, true, List, [], ◌∷◌, ◌++◌, arith, ◌==◌, ==_refl, ne→==,
  Bool-cases, ==→eq, inl, inr, length, has,
}
use sistemas_operativos.Base.Returns
use sistemas_operativos.Base.Returns.{Returns, returns}
use sistemas_operativos.Sched.State.{Ptr, null, nqueues, Sched, update}
use sistemas_operativos.Sched.Queue.Chain.{IsQueue}
use sistemas_operativos.Sched.Priority.{boost_queue, boost_from, boost}
use sistemas_operativos.Sched.Priority.IsMlfq.{Queues, IsMlfq, total}
use sistemas_operativos.Sched.Priority.Move.{
  removed, appended, SameEnv, Moved, env_change_priority-moves,
}

-- Queue `i` emptied into the first one.
abbrev drain : ℕ → Queues → Queues
drain i qs = update (update qs 0 (qs 0 ++ qs i)) i []

drain_step :
    (i x : ℕ) (xs : List Ptr) (qs : Queues)
    → 0 < i
    → qs i ≡ x ∷ xs
    → drain i (appended 0 x (removed i x qs)) ≡ drain i qs
drain_step i x xs qs h e =
    fun_ext λ j. ground (arith, append_assoc (qs 0) (x ∷ []) xs, ==_refl x, ==_refl i)

drain_done : (i : ℕ) (qs : Queues) → qs i ≡ [] → drain i qs ≡ qs
drain_done i qs e = fun_ext λ j. elim (Bool-cases (j == i)) [
  | inl same ↦ rw (==→eq j i same, ==_refl i, e)
  | inr diff ↦ ground (arith, append-nil (qs 0))
]

Moved-refl : (s : Sched) → Moved s s
Moved-refl s = record { envs = λ a. ground arith; rest = refl }

Moved-trans : (s t u : Sched) → Moved s t → Moved t u → Moved s u
Moved-trans s t u m n = record {
  envs = λ a. ground (arith, m.envs a, n.envs a);
  rest = ground (arith, m.rest, n.rest);
}

boost_queue-drains :
    (fuel i : ℕ) (xs : List Ptr) (s : Sched) (qs : Queues)
    → IsMlfq s qs
    → 0 < i
    → i < nqueues
    → qs i ≡ xs
    → length xs < fuel
    → Returns (λ s'. IsMlfq s' (drain i qs) × Moved s s') (boost_queue fuel i s)
unfolding boost_queue
boost_queue-drains zero i xs s qs v h hi e f = absurd (omega arith)
boost_queue-drains (suc k) i [] s qs v h hi e f =
    let c : IsQueue s.envs (s.queues i) [] = rw e at (v.queue i hi) in
    rw c.chain (returns (rw (drain_done i qs e) v, Moved-refl s))
boost_queue-drains (suc k) i (x ∷ xs) s qs v h hi e f =
    let c : IsQueue s.envs (s.queues i) (x ∷ xs) = rw e at (v.queue i hi) in
    let m : has x (qs i) ≡ true = rw e (ground (arith, ==_refl x)) in
    rw (c.chain.0, ne→== x null c.chain.1)
      (Returns.bind (env_change_priority-moves i 0 x s qs v hi (omega arith) m)
        λ s₁ (v₁, mv, _, _, _).
          Returns.mono
            (boost_queue-drains k i xs s₁ (appended 0 x (removed i x qs)) v₁ h hi
              (ground (arith, ==_refl i, ==_refl x)) (omega arith))
            λ s' (w, mw). (rw (drain_step i x xs qs h e) at w, Moved-trans s s₁ s' mv mw))

-- Queues `i` to `i + n - 1` emptied into the first one, in turn.
abbrev drain_from : (n i : ℕ) → Queues → Queues
drain_from zero i qs = qs
drain_from (suc n) i qs = drain_from n (i + 1) (drain i qs)

boost_from-drains :
    (n i : ℕ) (s : Sched) (qs : Queues)
    → IsMlfq s qs
    → 0 < i
    → i + n ≤ nqueues
    → Returns (λ s'. IsMlfq s' (drain_from n i qs) × Moved s s') (boost_from n i s)
unfolding boost_from
boost_from-drains zero i s qs v h f = returns (v, Moved-refl s)
boost_from-drains (suc n) i s qs v h f =
    let hi : i < nqueues = omega arith in
    Returns.bind
      (boost_queue-drains ((s.queues i).num_envs + 1) i (qs i) s qs v h hi refl
        (omega (arith, (v.queue i hi).count)))
      λ s₁ (v₁, mv).
        Returns.mono (boost_from-drains n (i + 1) s₁ (drain i qs) v₁ (omega arith) (omega arith))
          λ s' (w, mw). (w, Moved-trans s s₁ s' mv mw)

-- All environments in the first queue, by rising number of the queue that held them.
abbrev pub collected : Queues → Queues
collected qs zero = qs 0 ++ (qs 1 ++ (qs 2 ++ (qs 3 ++ (qs 4 ++ (qs 5 ++ (qs 6 ++ qs 7))))))
collected qs (suc i) = []

total-cong : (n : ℕ) (qs rs : Queues) → ((i : ℕ) → i < n → qs i ≡ rs i) → total n qs ≡ total n rs
total-cong zero qs rs same = refl
total-cong (suc n) qs rs same =
    rw (total-cong n qs rs (λ i h. same i (omega arith)), same n (omega arith))

IsMlfq-cong :
    (s : Sched) (qs rs : Queues) → ((i : ℕ) → i < nqueues → qs i ≡ rs i) → IsMlfq s qs → IsMlfq s rs
IsMlfq-cong s qs rs same v = record {
  queue = λ i hi. rw (← same i hi) (v.queue i hi);
  home = λ i e hi m. v.home i e hi (rw (same i hi) m);
  fits = rw (← total-cong nqueues qs rs same) v.fits;
}

drain_from-collected : (qs : Queues) (i : ℕ) → i < nqueues → drain_from 7 1 qs i ≡ collected qs i
drain_from-collected qs zero h = simp append_assoc
drain_from-collected qs (suc i) h = ground arith

-- From any state whose queues are well formed, `boost` ends without a fault: every environment
-- stands in the first queue, ordered by the number of its old queue and its place there, the other
-- queues are empty, the time count is 0, and no environment's identity, status or count of runs
-- has changed, nor the current environment.
pub boost-collects :
    (s : Sched) (qs : Queues)
    → IsMlfq s qs
    → Returns
        (λ s'.
          IsMlfq s' (collected qs)
          × (s'.mlfq_time_count ≡ 0)
          × ((a : Ptr) → SameEnv (s.envs a) (s'.envs a))
          × (s'.curenv ≡ s.curenv))
        (boost s)
unfolding boost
boost-collects s qs v =
    Returns.mono
      (boost_from-drains 7 1 _ qs (record { queue = v.queue; home = v.home; fits = v.fits })
        (omega arith) (omega arith))
      λ s' (w, m). (
        IsMlfq-cong s' _ _ (drain_from-collected qs) w,
        ground (arith, m.rest),
        m.envs,
        ground (arith, m.rest),
      )
