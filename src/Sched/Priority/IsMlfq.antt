-- ===== src/Sched/Priority/IsMlfq.antt =====
-- The invariant of the queues of kern/sched.c: each holds the environments of its number, each
-- once, and together they are fewer than 2^32.
use sistemas_operativos.Base.{
  ℕ, zero, suc, ◌+◌, ◌≤◌, ◌<◌, ◌≡◌, refl, ap, ◌≢◌, true, false, List, [], ◌∷◌, ◌++◌, arith, ◌==◌,
  ==_refl, Bool-cases, ==→eq, inl, inr, length, length-append, has, has-append, erase,
}
use sistemas_operativos.Sched.State.{Ptr, nqueues, word, Env, Queue, Sched, update}
use sistemas_operativos.Sched.Queue.Chain.{IsQueue, links, frame, has-erase, length-erase}
use sistemas_operativos.Sched.Queue.Relinked.{Relinked}
use sistemas_operativos.Sched.Queue.Push.{Pushed}
use sistemas_operativos.Sched.Queue.Remove.{Removed}

-- What the queues hold, by number.
abbrev pub Queues : Type 0
Queues = ℕ → List Ptr

abbrev pub total : ℕ → Queues → ℕ
total zero qs = 0
total (suc n) qs = total n qs + length (qs n)

pub record IsMlfq (s : Sched) (qs : Queues) : Type 0 where
  pub queue : (i : ℕ) → i < nqueues → IsQueue s.envs (s.queues i) (qs i)
  pub home : (i e : ℕ) → i < nqueues → has e (qs i) ≡ true → (s.envs e).queue_num ≡ i
  pub fits : total nqueues qs < word

pub length-le-total : (n i : ℕ) (qs : Queues) → i < n → length (qs i) ≤ total n qs
length-le-total zero i qs h = elim h [ ]
length-le-total (suc n) i qs h = ground (arith, length-le-total n i qs)

pub total-update_above :
    (n i : ℕ) (xs : List Ptr) (qs : Queues) → n ≤ i → total n (update qs i xs) ≡ total n qs
total-update_above zero i xs qs h = refl
total-update_above (suc n) i xs qs h = ground (arith, total-update_above n i xs qs)

pub total-update :
    (n i : ℕ) (xs : List Ptr) (qs : Queues)
    → i < n
    → total n (update qs i xs) + length (qs i) ≡ total n qs + length xs
total-update zero i xs qs h = elim h [ ]
total-update (suc n) i xs qs h =
    ground (arith, total-update n i xs qs, total-update_above n i xs qs)

-- A queue is kept by a change away from its environments.
pub IsQueue-frame :
    (h : Ptr → Env) (q : Queue) (g : Ptr → Env) (xs : List Ptr)
    → IsQueue h q xs
    → ((a : Ptr) → has a xs ≡ true → g a ≡ h a)
    → IsQueue g q xs
IsQueue-frame h q g xs v same = record {
  chain =
      frame (links h) (links g) q.envs xs v.chain (λ a m. ap (λ (w : Env). w.next_env) (same a m));
  distinct = v.distinct;
  last = v.last;
  count = v.count;
  small = v.small;
}

module _ (i e : ℕ) (s s' : Sched) (qs : Queues) (v : IsMlfq s qs) (hi : i < nqueues) where
  -- The other queues are kept by an operation on queue `i` and `e`.
  other :
      Relinked i e (qs i) s s'
      → (j : ℕ) → j < nqueues
      → j ≢ i
      → has e (qs j) ≡ false
      → IsQueue s'.envs (s'.queues j) (qs j)
  other r j hj n out = rw (r.others j n) (
      IsQueue-frame s.envs (s.queues j) s'.envs (qs j) (v.queue j hj)
        (λ a m. ground (arith, r.outside a, v.home j a hj m, v.home i a hi)))

  pub IsMlfq-Removed :
      has e (qs i) ≡ true → Removed i e s (qs i) s' → IsMlfq s' (update qs i (erase e (qs i)))
  IsMlfq-Removed m r = record {
    queue = λ j hj. elim (Bool-cases (j == i)) [
      | inl same ↦ rw (==→eq j i same, ==_refl i) r.0
      | inr diff ↦
          rw diff (other r.1 j hj (ground arith) (ground (arith, v.home j e hj, v.home i e hi m)))
    ];
    home = λ j a hj.
        ground (arith, r.1.fields a, v.home j a hj, has-erase a e (qs i) (v.queue i hi).distinct);
    fits =
        ground
          (arith, v.fits, total-update nqueues i (erase e (qs i)) qs hi, length-erase e (qs i) m);
  }

  pub IsMlfq-Pushed :
      ((j : ℕ) → j < nqueues → has e (qs j) ≡ false)
      → (s.envs e).queue_num ≡ i
      → total nqueues qs + 1 < word
      → Pushed i e s (qs i) s'
      → IsMlfq s' (update qs i (qs i ++ e ∷ []))
  IsMlfq-Pushed out at room r = record {
    queue = λ j hj. elim (Bool-cases (j == i)) [
      | inl same ↦ rw (==→eq j i same, ==_refl i) r.0
      | inr diff ↦ rw diff (other r.1 j hj (ground arith) (out j hj))
    ];
    home = λ j a hj. ground (arith, r.1.fields a, v.home j a hj, has-append a (qs i) (e ∷ []));
    fits =
        ground
          (arith, total-update nqueues i (qs i ++ e ∷ []) qs hi, length-append (qs i) (e ∷ []));
  }
