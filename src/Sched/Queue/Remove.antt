-- ===== src/Sched/Queue/Remove.antt =====
-- `queue_remove` takes the environment out of the queue.
use sistemas_operativos.Base.{
  ℕ, zero, suc, ◌+◌, ◌<◌, ◌≡◌, true, false, List, [], ◌∷◌, some, arith, ◌==◌, if◌then◌else◌, length,
  has, erase,
}
use sistemas_operativos.Base.Returns.{Returns, returns}
use sistemas_operativos.Sched.State.{Ptr, null, Sched}
use sistemas_operativos.Sched.Queue.{remove_loop, unlink, queue_remove}
use sistemas_operativos.Sched.Queue.Chain.{
  links, Chain, IsQueue, pred_of, pred_of-has, bypass, not-has-null, ne_null, length-erase,
  last_or-erase, Distinct-erase,
}
use sistemas_operativos.Sched.Queue.Relinked.{Relinked}

module _ (i e : Ptr) (s : Sched) where
  loop_found :
      (fuel prev p : ℕ) (xs : List Ptr)
      → Chain (links s.envs) p xs
      → has e xs ≡ true
      → length xs < fuel
      → remove_loop fuel i e prev p s ≡ some (unlink i e (pred_of e prev xs) s)
  unfolding remove_loop
  loop_found zero prev p xs c m f = absurd (omega arith)
  loop_found (suc k) prev p [] c m f = cc
  loop_found (suc k) prev p (x ∷ xs) c m f =
      ground (arith, loop_found k x (s.envs x).next_env xs c.2)

  loop_missing :
      (fuel prev p : ℕ) (xs : List Ptr)
      → Chain (links s.envs) p xs
      → has e xs ≡ false
      → length xs < fuel
      → remove_loop fuel i e prev p s ≡ some s
  unfolding remove_loop
  loop_missing zero prev p xs c m f = absurd (omega arith)
  loop_missing (suc k) prev p [] c m f = ground arith
  loop_missing (suc k) prev p (x ∷ xs) c m f =
      ground (arith, loop_missing k x (s.envs x).next_env xs c.2)

  module _ (xs : List Ptr) (v : IsQueue s.envs (s.queues i) xs) (m : has e xs ≡ true) where
    unlinked : Sched
    unlinked = unlink i e (pred_of e null xs) s

    unlink-Relinked : Relinked i e xs s unlinked
    unfolding unlinked unlink
    unlink-Relinked = record {
      others = λ j n. ground arith;
      fields = λ a. ground arith;
      outside = λ a o n. ground (arith, pred_of-has e null xs);
      rest = ground arith;
    }

    head-unlink :
        (unlinked.queues i).envs
        ≡ (if e == (s.queues i).envs then (s.envs e).next_env else (s.queues i).envs)
    unfolding unlinked unlink
    head-unlink = ground arith

    links-unlink :
        (a : Ptr)
        → has a xs ≡ true
        → (a == e) ≡ false
        → links unlinked.envs a
          ≡ (if a == pred_of e null xs then links s.envs e else links s.envs a)
    unfolding unlinked unlink
    links-unlink a k n = ground (arith, ne_null (links s.envs) a (s.queues i).envs xs v.chain k)

    Chain-unlink : Chain (links unlinked.envs) (unlinked.queues i).envs (erase e xs)
    Chain-unlink = rw head-unlink (
        bypass (links s.envs) _ (s.queues i).envs e null xs v.chain v.distinct
          (not-has-null _ _ xs v.chain) m links-unlink)

    unlink-IsQueue : IsQueue unlinked.envs (unlinked.queues i) (erase e xs)
    unfolding unlinked unlink
    unlink-IsQueue = record {
      chain = Chain-unlink;
      distinct = Distinct-erase e xs v.distinct;
      last = ground (arith, last_or-erase e null xs v.distinct m);
      count = ground (arith, length-erase e xs m, v.count, v.small);
      small = omega (arith, length-erase e xs m, v.small);
    }

  abbrev pub Removed : List Ptr → Sched → Type 0
  Removed xs s' = IsQueue s'.envs (s'.queues i) (erase e xs) × Relinked i e xs s s'

  -- On an environment of the queue, `queue_remove` ends and takes it out of the list, and out of
  -- nothing else.
  pub queue_remove-erase :
      (xs : List Ptr)
      → IsQueue s.envs (s.queues i) xs
      → has e xs ≡ true
      → Returns (Removed xs) (queue_remove i e s)
  unfolding queue_remove unlinked
  queue_remove-erase xs v m =
      rw
        (
          ne_null (links s.envs) e (s.queues i).envs xs v.chain m,
          loop_found ((s.queues i).num_envs + 1) null (s.queues i).envs xs v.chain m
              (omega (arith, v.count)),
        )
        (returns (unlink-IsQueue xs v m, unlink-Relinked xs v m))

  -- On an environment that the queue does not hold, `queue_remove` ends and changes nothing.
  pub queue_remove-absent :
      (xs : List Ptr)
      → IsQueue s.envs (s.queues i) xs
      → has e xs ≡ false
      → queue_remove i e s ≡ some s
  unfolding queue_remove
  queue_remove-absent xs v m = ground (
    arith,
    loop_missing ((s.queues i).num_envs + 1) null (s.queues i).envs xs v.chain m
        (omega (arith, v.count)),
  )
