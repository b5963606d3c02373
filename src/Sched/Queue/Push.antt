-- ===== src/Sched/Queue/Push.antt =====
-- `queue_push` appends to the queue.
use sistemas_operativos.Base.{
  ℕ, ◌+◌, ◌<◌, ◌≡◌, refl, ◌≢◌, false, List, [], ◌∷◌, ◌++◌, arith, ◌==◌, ==_refl, ne→==, length,
  length-append, has, has-append, Distinct, last_or,
}
use sistemas_operativos.Base.Returns.{Returns, returns}
use sistemas_operativos.Sched.State.{Ptr, null, word, Sched}
use sistemas_operativos.Sched.Queue.{queue_push}
use sistemas_operativos.Sched.Queue.Chain.{IsQueue, links, snoc, has_last, ne_null}
use sistemas_operativos.Sched.Queue.Relinked.{Relinked}

Distinct-snoc : (e : Ptr) (xs : List Ptr) → Distinct xs → has e xs ≡ false → Distinct (xs ++ e ∷ [])
Distinct-snoc e [] d out = (refl, tt)
Distinct-snoc e (x ∷ xs) d out =
    (rw (has-append x xs (e ∷ []), d.0) (ground arith), Distinct-snoc e xs d.1 (ground arith))

last_or-snoc : (d e : Ptr) (xs : List Ptr) → last_or d (xs ++ e ∷ []) ≡ e
last_or-snoc d e [] = refl
last_or-snoc d e (x ∷ xs) = last_or-snoc x e xs

abbrev pub Pushed : ℕ → Ptr → Sched → List Ptr → Sched → Type 0
Pushed i e s xs s' = IsQueue s'.envs (s'.queues i) (xs ++ e ∷ []) × Relinked i e xs s s'

module _ (i e : Ptr) (s : Sched) where
  -- `queue_push` ends without a fault and appends to the list, for an environment that it does not
  -- hold and while the count does not wrap.
  pub queue_push-append :
      (xs : List Ptr)
      → IsQueue s.envs (s.queues i) xs
      → e ≢ null
      → has e xs ≡ false
      → length xs + 1 < word
      → Returns (Pushed i e s xs) (queue_push i e s)
  unfolding queue_push
  queue_push-append [] v ne out small =
      rw (ne→== e null ne, v.chain)
        (returns (
          record {
            chain = ground arith;
            distinct = (refl, tt);
            last = ground arith;
            count = ground arith;
            small = omega arith;
          },
          record {
            others = λ j n. ground arith;
            fields = λ a. ground arith;
            outside = λ a m n. ground arith;
            rest = refl;
          },
        ))
  queue_push-append (x ∷ xs) v ne out small =
      let full : ((s.queues i).envs == null) ≡ false = ground arith in
      let linked : ((s.queues i).last_env == null) ≡ false =
        rw v.last (ne_null (links s.envs) _ (s.queues i).envs (x ∷ xs) v.chain (has_last x xs)) in
      rw (ne→== e null ne, full, linked)
        (returns (
          record {
            chain = rw (==_refl i) (
                snoc (links s.envs) _ (s.queues i).envs e x xs v.chain v.distinct ne
                  (λ a m. ground (arith, v.last)) (ground arith));
            distinct = Distinct-snoc e (x ∷ xs) v.distinct out;
            last = ground (arith, last_or-snoc x e xs);
            count = ground (arith, length-append xs (e ∷ []), v.count);
            small = omega (arith, length-append (x ∷ xs) (e ∷ []));
          },
          record {
            others = λ j n. ground arith;
            fields = λ a. ground arith;
            outside = λ a m n. ground (arith, has_last x xs, v.last);
            rest = refl;
          },
        ))
