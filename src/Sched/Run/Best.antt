-- ===== src/Sched/Run/Best.antt =====
-- `sched_MLFQ` runs an environment of the highest priority.
use sistemas_operativos.Base.{
  ℕ, zero, suc, ◌+◌, ◌≤◌, ◌<◌, ◌≡◌, refl, ◌≢◌, ◌⊎◌, inl, inr, true, false, Option, none, some, List,
  [], ◌∷◌, arith, ◌==◌, ==_refl, Bool-cases, Option-cases, has, Distinct,
}
use sistemas_operativos.Sched.State.{Ptr, null, nqueues, Env, env_running, Sched}
use sistemas_operativos.Sched.Queue.Chain.{links, ne_null}
use sistemas_operativos.Sched.Priority.IsMlfq.{Queues, IsMlfq}
use sistemas_operativos.Sched.Run.{Flow, fall_through, is_runnable, is_running, scan_queues}
use sistemas_operativos.Sched.Run.Choice.{
  find_first, or_else, after, up_to, ready, ready_or_last, turn, last_of, choice, pick, HasCurrent,
  sched_round_robin-turn,
}

-- No environment of the list is runnable.
abbrev pub Idle : (Ptr → Env) → List Ptr → Type 0
Idle h xs = (a : Ptr) → has a xs ≡ true → is_runnable (h a).env_status ≡ false

-- `x` of queue `i` may run, no queue of higher priority has a runnable environment, and the
-- current environment goes on only if no other one of its queue is runnable.
pub record IsBest (s : Sched) (qs : Queues) (i : ℕ) (x : Ptr) : Type 0 where
  pub in_range : i < nqueues
  pub stands : has x (qs i) ≡ true
  pub may_run :
      (is_runnable (s.envs x).env_status ≡ true)
      ⊎ ((x ≡ s.curenv) × ((s.envs x).env_status ≡ env_running))
  pub higher_idle : (j : ℕ) → j < i → Idle s.envs (qs j)
  pub last_resort :
      x ≡ s.curenv
      → (a : Ptr) → has a (qs i) ≡ true
      → a ≢ x
      → is_runnable (s.envs a).env_status ≡ false

-- What a choice says: the best environment, or that no queue has a runnable one.
abbrev pub Chosen : Sched → Queues → Option Ptr → Type 0
Chosen s qs none = (j : ℕ) → j < nqueues → Idle s.envs (qs j)
Chosen s qs (some x) = (i : ℕ) × IsBest s qs i x

module _ (h : Ptr → Env) where
  find_first-none :
      (a : Ptr) (xs : List Ptr)
      → find_first (ready h) xs ≡ none
      → has a xs ≡ true
      → ready h a ≡ false
  find_first-none a [] e m = cc
  find_first-none a (x ∷ xs) e m = ground (arith, find_first-none a xs)

  find_first-some :
      (x : Ptr) (xs : List Ptr)
      → find_first (ready h) xs ≡ some x
      → (has x xs ≡ true) × (ready h x ≡ true)
  find_first-some x [] e = cc
  find_first-some x (y ∷ ys) e = ground (arith, find_first-some x ys, ==_refl x)

  has-after : (a l : Ptr) (xs : List Ptr) → has a (after l xs) ≡ true → has a xs ≡ true
  has-after a l [] m = m
  has-after a l (x ∷ xs) m = ground (arith, has-after a l xs)

  not-has-after : (l : Ptr) (xs : List Ptr) → Distinct xs → has l (after l xs) ≡ false
  not-has-after l [] d = refl
  not-has-after l (x ∷ xs) d = ground (arith, not-has-after l xs d.1)

  up_to-some :
      (l x : Ptr) (xs : List Ptr)
      → find_first (ready_or_last h l) (up_to l xs) ≡ some x
      → (has x xs ≡ true) × ((ready h x ≡ true) ⊎ ((x ≡ l) × (is_running (h x).env_status ≡ true)))
  up_to-some l x [] e = cc
  up_to-some l x (y ∷ ys) e = ground (arith, up_to-some l x ys, ==_refl x)

  -- The scan comes to `l` only past environments that are not ready.
  up_to-last :
      (l a : Ptr) (xs : List Ptr)
      → find_first (ready_or_last h l) (up_to l xs) ≡ some l
      → has a xs ≡ true
      → a ≢ l
      → (has a (after l xs) ≡ true → ready h a ≡ false)
      → ready h a ≡ false
  up_to-last l a [] e m n idle = cc
  up_to-last l a (y ∷ ys) e m n idle = elim (Bool-cases (y == l)) [
    | inl hit ↦ idle (rw hit (ground arith))
    | inr miss ↦ elim (Bool-cases (a == y)) [
      | inl same ↦ ground arith
      | inr other ↦ up_to-last l a ys (ground arith) (ground arith) n (rw miss at idle)
    ]
  ]

  up_to-none :
      (l a : Ptr) (xs : List Ptr)
      → find_first (ready_or_last h l) (up_to l xs) ≡ none
      → has a xs ≡ true
      → (has a (after l xs) ≡ true → ready h a ≡ false)
      → ready h a ≡ false
  up_to-none l a [] e m idle = cc
  up_to-none l a (y ∷ ys) e m idle = elim (Bool-cases (y == l)) [
    | inl hit ↦ elim (Bool-cases (a == y)) [
      | inl same ↦ ground arith
      | inr other ↦ idle (rw hit (ground arith))
    ]
    | inr miss ↦ elim (Bool-cases (a == y)) [
      | inl same ↦ ground arith
      | inr other ↦ up_to-none l a ys (ground arith) (ground arith) (rw miss at idle)
    ]
  ]

  -- The turn of a queue finds nothing only if no environment of it is ready.
  turn-none : (l a : Ptr) (xs : List Ptr) → turn h l xs ≡ none → has a xs ≡ true → ready h a ≡ false
  turn-none l a xs e m = elim (Bool-cases (l == null)) [
    | inl new ↦ find_first-none a xs (ground arith) m
    | inr old ↦
        up_to-none l a xs (ground arith) m (λ k. find_first-none a (after l xs) (ground arith) k)
  ]

  turn-some :
      (l x : Ptr) (xs : List Ptr)
      → turn h l xs ≡ some x
      → (has x xs ≡ true) × ((ready h x ≡ true) ⊎ ((x ≡ l) × (is_running (h x).env_status ≡ true)))
  turn-some l x xs e = ground (
    arith,
    find_first-some x xs,
    find_first-some x (after l xs),
    has-after x l xs,
    up_to-some l x xs,
  )

  -- The last environment is found only if no other one of the queue is ready.
  turn-last :
      (l a : Ptr) (xs : List Ptr)
      → l ≢ null
      → Distinct xs
      → turn h l xs ≡ some l
      → has a xs ≡ true
      → a ≢ l
      → ready h a ≡ false
  turn-last l a xs n d e m other = elim (Option-cases (find_first (ready h) (after l xs))) [
    | inl none_after ↦
        up_to-last l a xs (ground arith) m other (λ k. find_first-none a (after l xs) none_after k)
    | inr found ↦ ground (arith, found.1, find_first-some l (after l xs), not-has-after l xs d)
  ]

module _ (s : Sched) (qs : Queues) (v : IsMlfq s qs) (c : HasCurrent s qs) where
  last_of-has : (i : ℕ) → last_of i s ≢ null → has (last_of i s) (qs i) ≡ true
  last_of-has i n = ground (arith, c.stands)

  pub choice-none :
      (n i j a : ℕ)
      → choice n i s qs ≡ none
      → i ≤ j
      → j < i + n
      → has a (qs j) ≡ true
      → is_runnable (s.envs a).env_status ≡ false
  choice-none zero i j a e low high m = absurd (omega arith)
  choice-none (suc n) i j a e low high m = elim (Bool-cases (j == i)) [
    | inl same ↦ turn-none s.envs (last_of i s) a (qs i) (ground arith) (ground arith)
    | inr other ↦ choice-none n (i + 1) j a (ground arith) (ground arith) (ground arith) m
  ]

  ne_null_of_has : (i x : ℕ) → i < nqueues → has x (qs i) ≡ true → (x == null) ≡ false
  ne_null_of_has i x hi m = ne_null (links s.envs) x (s.queues i).envs (qs i) (v.queue i hi).chain m

  turn-current :
      (i a : ℕ)
      → i < nqueues
      → has s.curenv (qs i) ≡ true
      → turn s.envs (last_of i s) (qs i) ≡ some s.curenv
      → has a (qs i) ≡ true
      → a ≢ s.curenv
      → is_runnable (s.envs a).env_status ≡ false
  turn-current i a hi k e m n =
      let ne = ne_null_of_has i s.curenv hi k in
      let l : last_of i s ≡ s.curenv = ground (arith, v.home i s.curenv hi k, ==_refl i) in
      turn-last s.envs s.curenv a (qs i) (ground arith) (v.queue i hi).distinct (rw l at e) m n

  turn-IsBest :
      (i x : ℕ)
      → i < nqueues
      → turn s.envs (last_of i s) (qs i) ≡ some x
      → ((j : ℕ) → j < i → Idle s.envs (qs j))
      → IsBest s qs i x
  turn-IsBest i x hi e idle = record {
    in_range = hi;
    stands = (turn-some s.envs (last_of i s) x (qs i) e).0;
    may_run = ground (arith, turn-some s.envs (last_of i s) x (qs i) e, ne_null_of_has i x hi);
    higher_idle = idle;
    last_resort = λ same a m n.
        turn-current i a hi (rw same at (turn-some s.envs (last_of i s) x (qs i) e).0)
          (rw same at e) m (rw (← same) n);
  }

  pub choice-IsBest :
      (n i x : ℕ)
      → i + n ≤ nqueues
      → choice n i s qs ≡ some x
      → ((j : ℕ) → j < i → Idle s.envs (qs j))
      → (k : ℕ) × IsBest s qs k x
  choice-IsBest zero i x r e idle = cc
  choice-IsBest (suc n) i x r e idle = elim (Option-cases (turn s.envs (last_of i s) (qs i))) [
    | inl out ↦ choice-IsBest n (i + 1) x (omega arith) (ground arith) (λ j h a m.
        elim (Bool-cases (j == i)) [
          | inl same ↦ turn-none s.envs (last_of i s) a (qs i) out (ground arith)
          | inr other ↦ idle j (ground arith) a m
        ])
    | inr found ↦ (i, turn-IsBest i x (omega arith) (ground (arith, found.1)) idle)
  ]

  fall_through-pick :
      (cpu : ℕ) (o r : Option Ptr) (k : Sched → Option Flow)
      → k s ≡ some (pick cpu s r)
      → fall_through (pick cpu s o) k ≡ some (pick cpu s (or_else o r))
  fall_through-pick cpu none r k e = e
  fall_through-pick cpu (some x) r k e = refl

  pub scan_queues-choice :
      (cpu n i : ℕ) → i + n ≤ nqueues → scan_queues cpu n i s ≡ some (pick cpu s (choice n i s qs))
  unfolding scan_queues
  scan_queues-choice cpu zero i r = refl
  scan_queues-choice cpu (suc n) i r =
      rw
        (sched_round_robin-turn cpu s (last_of i s) i (qs i) (v.queue i (omega arith))
          (last_of-has i))
        (fall_through-pick cpu (turn s.envs (last_of i s) (qs i)) (choice n (i + 1) s qs) _
          (scan_queues-choice cpu n (i + 1) (omega arith)))
