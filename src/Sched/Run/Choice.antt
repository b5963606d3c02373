-- ===== src/Sched/Run/Choice.antt =====
-- Which environment the scans of kern/sched.c choose, as a search in lists.
use sistemas_operativos.Base.{
  ℕ, zero, suc, ◌+◌, ◌≤◌, ◌<◌, ◌≡◌, refl, ◌≢◌, ◌⊎◌, inl, inr, Bool, true, false, not, ◌&&◌, ◌||◌,
  Option, none, some, List, [], ◌∷◌, arith, ◌==◌, if◌then◌else◌, ==_refl, Bool-cases, ==→eq, length,
  has, Distinct,
}
use sistemas_operativos.Sched.State.{Ptr, null, nqueues, Env, Sched}
use sistemas_operativos.Sched.Queue.Chain.{links, Chain, IsQueue}
use sistemas_operativos.Sched.Priority.IsMlfq.{Queues}
use sistemas_operativos.Sched.Run.{
  Flow, switched, back, is_runnable, is_running, dispatch, scan, scan_wrapped, wrap_around,
  sched_round_robin,
}

abbrev pub find_first : (Ptr → Bool) → List Ptr → Option Ptr
find_first p [] = none
find_first p (x ∷ xs) = if p x then some x else find_first p xs

abbrev pub or_else : Option Ptr → Option Ptr → Option Ptr
or_else (some x) o = some x
or_else none o = o

-- The environments behind `l`, and those up to it.
abbrev pub after : Ptr → List Ptr → List Ptr
after l [] = []
after l (x ∷ xs) = if x == l then xs else after l xs

abbrev pub up_to : Ptr → List Ptr → List Ptr
up_to l [] = []
up_to l (x ∷ xs) = if x == l then x ∷ [] else x ∷ up_to l xs

module _ (h : Ptr → Env) where
  abbrev pub ready : Ptr → Bool
  ready x = is_runnable (h x).env_status

  abbrev pub ready_or_last : Ptr → Ptr → Bool
  ready_or_last l x = ready x || (is_running (h x).env_status && (x == l))

  -- The turn of a queue: behind the last environment first, then from the front up to it.
  abbrev pub turn : Ptr → List Ptr → Option Ptr
  turn l xs =
      if l == null
      then find_first ready xs
      else or_else (find_first ready (after l xs)) (find_first (ready_or_last l) (up_to l xs))

-- The last environment that the scan of queue `i` starts from.
abbrev pub last_of : ℕ → Sched → Ptr
last_of i s =
    if not (s.curenv == null) && ((s.envs s.curenv).queue_num == i) then s.curenv else null

-- The choice among the queues from `i` on.
abbrev pub choice : (n i : ℕ) → Sched → Queues → Option Ptr
choice zero i s qs = none
choice (suc n) i s qs = or_else (turn s.envs (last_of i s) (qs i)) (choice n (i + 1) s qs)

abbrev pub pick : ℕ → Sched → Option Ptr → Flow
pick cpu s none = back s
pick cpu s (some x) = switched (dispatch cpu x s)

-- The current environment, if there is one, stands in the queue of its number.
pub record HasCurrent (s : Sched) (qs : Queues) : Type 0 where
  pub number : s.curenv ≢ null → (s.envs s.curenv).queue_num < nqueues
  pub stands : s.curenv ≢ null → has s.curenv (qs (s.envs s.curenv).queue_num) ≡ true

module _ (cpu : ℕ) (s : Sched) where
  scan-find_first :
      (fuel p : ℕ) (xs : List Ptr)
      → Chain (links s.envs) p xs
      → length xs < fuel
      → scan cpu fuel p s ≡ some (pick cpu s (find_first (ready s.envs) xs))
  unfolding scan
  scan-find_first zero p xs c f = absurd (omega arith)
  scan-find_first (suc k) p [] c f = ground arith
  scan-find_first (suc k) p (x ∷ xs) c f = ground (arith, scan-find_first k (links s.envs x) xs c.2)

  -- The link of `l` leads out of the list, or to an environment behind the first.
  link_behind :
      (p l x : ℕ) (xs : List Ptr)
      → Chain (links s.envs) p (x ∷ xs)
      → has l (x ∷ xs) ≡ true
      → (links s.envs l ≡ null) ⊎ (has (links s.envs l) xs ≡ true)
  link_behind p l x [] c m = inl (ground arith)
  link_behind p l x (y ∷ ys) c m = elim (Bool-cases (x == l)) [
    | inl hit ↦ inr (ground (arith, ==_refl y))
    | inr miss ↦ ground (arith, link_behind (links s.envs x) l y ys c.2)
  ]

  length-after : (l : Ptr) (xs : List Ptr) → length (after l xs) ≤ length xs
  length-after l [] = omega arith
  length-after l (x ∷ xs) = ground (arith, length-after l xs)

  Chain-after :
      (p l : ℕ) (xs : List Ptr)
      → Chain (links s.envs) p xs
      → has l xs ≡ true
      → Chain (links s.envs) (links s.envs l) (after l xs)
  Chain-after p l [] c m = cc
  Chain-after p l (x ∷ xs) c m = elim (Bool-cases (x == l)) [
    | inl hit ↦ rw hit (rw (==→eq x l hit) at c.2)
    | inr miss ↦ rw miss (Chain-after (links s.envs x) l xs c.2 (ground arith))
  ]

  scan_wrapped-stops :
      (fuel l : ℕ) → 0 < fuel → scan_wrapped cpu fuel l (links s.envs l) s ≡ some (back s)
  unfolding scan_wrapped
  scan_wrapped-stops zero l f = elim f [ ]
  scan_wrapped-stops (suc k) l f = ground (arith, ==_refl (links s.envs l))

  scan_wrapped-find_first :
      (fuel l p : ℕ) (xs : List Ptr)
      → Chain (links s.envs) p xs
      → Distinct xs
      → has l xs ≡ true
      → length xs < fuel
      → scan_wrapped cpu fuel l p s
        ≡ some (pick cpu s (find_first (ready_or_last s.envs l) (up_to l xs)))
  unfolding scan_wrapped
  scan_wrapped-find_first zero l p xs c d m f = absurd (omega arith)
  scan_wrapped-find_first (suc k) l p [] c d m f = cc
  scan_wrapped-find_first (suc k) l p (x ∷ xs) c d m f = elim (Bool-cases (x == l)) [
    | inl hit ↦ ground (arith, link_behind p l x xs c m, scan_wrapped-stops k l, ==_refl l)
    | inr miss ↦
        ground
          (arith, link_behind p l x xs c m, scan_wrapped-find_first k l (links s.envs x) xs c.2 d.1)
  ]

  -- `sched_round_robin` on a well-formed queue, from NULL or from an environment of the queue,
  -- ends: it runs the first ready environment behind the last one, or else the first one from the
  -- front up to the last one, which may itself go on.
  pub sched_round_robin-turn :
      (l : Ptr) (i : ℕ) (xs : List Ptr)
      → IsQueue s.envs (s.queues i) xs
      → (l ≢ null → has l xs ≡ true)
      → sched_round_robin cpu ((s.queues i).num_envs + 1) (s.queues i).envs l s
        ≡ some (pick cpu s (turn s.envs l xs))
  unfolding sched_round_robin
  sched_round_robin-turn l i xs v m = elim (Bool-cases (l == null)) [
    | inl new ↦
        rw
          (
            new,
            scan-find_first ((s.queues i).num_envs + 1) (s.queues i).envs xs v.chain
                (omega (arith, v.count)),
          )
          (wrapped_new new (find_first (ready s.envs) xs))
    | inr old ↦
        let held = m (ground arith) in
        rw
          (
            old,
            scan-find_first ((s.queues i).num_envs + 1) (links s.envs l) (after l xs)
                (Chain-after (s.queues i).envs l xs v.chain held)
                (omega (arith, v.count, length-after l xs)),
          )
          (wrapped_old old (find_first (ready s.envs) (after l xs)) held)
  ]
    where
      wrapped_new :
          (l == null) ≡ true
          → (o : Option Ptr)
          → wrap_around cpu ((s.queues i).num_envs + 1) (s.queues i).envs l (pick cpu s o)
            ≡ some (pick cpu s o)
      wrapped_new e none = ground arith
      wrapped_new e (some x) = refl

      wrapped_old :
          (l == null) ≡ false
          → (o : Option Ptr) → has l xs ≡ true
          → wrap_around cpu ((s.queues i).num_envs + 1) (s.queues i).envs l (pick cpu s o)
            ≡ some (pick cpu s (or_else o (find_first (ready_or_last s.envs l) (up_to l xs))))
      wrapped_old e (some x) held = refl
      wrapped_old e none held = rw e (
          scan_wrapped-find_first ((s.queues i).num_envs + 1) l (s.queues i).envs xs v.chain
            v.distinct held (omega (arith, v.count)))
