-- ===== src/Sched/Run/Mlfq.antt =====
-- `sched_MLFQ` as a whole: downgrade, boost, and the choice.
use mathlib.Core.Path.{subst, sym}
use sistemas_operativos.Base.{
  ◌||◌, ◌∙◌, leb, ℕ, zero, suc, ◌+◌, ◌<◌, ◌≡◌, refl, ◌≢◌, inl, inr, Bool, true, false, Option, some,
  [], ◌∷◌, arith, if◌then◌else◌, ==_refl, Bool-cases, Option-cases, has, has-append,
}
use sistemas_operativos.Base.Returns
use sistemas_operativos.Base.Returns.{Returns, returns}
use sistemas_operativos.Sched.State.{Ptr, null, nqueues, Env, Sched}
use sistemas_operativos.Sched.Priority.{
  mlfq_boost, should_env_downgrade, downgrade_env, should_boost, boost,
}
use sistemas_operativos.Sched.Priority.IsMlfq.{Queues, IsMlfq}
use sistemas_operativos.Sched.Priority.Move.{removed, appended, SameEnv}
use sistemas_operativos.Sched.Priority.Boost.{collected, boost-collects}
use sistemas_operativos.Sched.Priority.Downgrade.{downgrade_env-moves, should_env_downgrade_iff}
use sistemas_operativos.Sched.Run.{Flow, adjust, sched_mlfq}
use sistemas_operativos.Sched.Run.Choice.{choice, pick, HasCurrent}
use sistemas_operativos.Sched.Run.Best.{Chosen, choice-IsBest, choice-none, scan_queues-choice}

-- The queues are well formed and the current environment stands in its own.
pub record IsReady (s : Sched) (qs : Queues) : Type 0 where
  pub mlfq : IsMlfq s qs
  pub current : HasCurrent s qs

-- The queues after the downgrade that `sched_MLFQ` may make, and after the boost.
abbrev pub demoted : Sched → Queues → Queues
demoted s qs =
    let i = (s.envs s.curenv).queue_num in
    if should_env_downgrade s.curenv s
    then appended (i + 1) s.curenv (removed i s.curenv qs)
    else qs

abbrev pub raised : Sched → Queues → Queues
raised s qs = if leb mlfq_boost s.mlfq_time_count then collected qs else qs

-- What the choice of `sched_MLFQ` shows: the state in which it was made, whose queues are those of `s` after
-- the downgrade and the boost that are due, with the same current environment, and that it was the best one.
pub record Scheduled (cpu : ℕ) (s : Sched) (qs : Queues) (f : Flow) : Type 0 where
  pub adjusted : Sched
  pub ready : IsReady adjusted (raised s (demoted s qs))
  pub same : (a : Ptr) → SameEnv (s.envs a) (adjusted.envs a)
  pub current : adjusted.curenv ≡ s.curenv
  pub chosen : Option Ptr
  pub best : Chosen adjusted (raised s (demoted s qs)) chosen
  pub flow : f ≡ pick cpu adjusted chosen

any_below : ℕ → (ℕ → Bool) → Bool
any_below zero b = false
any_below (suc n) b = b n || any_below n b

any_below-of : (n i : ℕ) (b : ℕ → Bool) → i < n → b i ≡ true → any_below n b ≡ true
unfolding any_below
any_below-of zero i b h e = elim h [ ]
any_below-of (suc n) i b h e = ground (arith, any_below-of n i b)

-- What a queue held is in the collected one.
has-collected :
    (qs : Queues) (i a : ℕ) → i < nqueues → has a (qs i) ≡ true → has a (collected qs 0) ≡ true
unfolding any_below
has-collected qs i a hi m =
    simp has-append (ground (arith, any_below-of 8 i (λ j. has a (qs j)) hi m))

HasCurrent-of :
    (s : Sched) (qs : Queues)
    → IsMlfq s qs
    → (s.curenv ≢ null → (i : ℕ) × (i < nqueues) × (has s.curenv (qs i) ≡ true))
    → HasCurrent s qs
HasCurrent-of s qs v at = record {
  number = λ n. let (i, hi, m) = at n in omega (arith, v.home i s.curenv hi m);
  stands = λ n. let (i, hi, m) = at n in rw (v.home i s.curenv hi m) m;
}

SameEnv-trans : (u v w : Env) → SameEnv u v → SameEnv v w → SameEnv u w
SameEnv-trans u v w p q = ground arith

SameEnv-refl : (v : Env) → SameEnv v v
SameEnv-refl v = ground arith

-- A state that an adjustment of `s` may lead to, with its queues.
abbrev Adjusted : Sched → Queues → Sched → Type 0
Adjusted s qs s' =
    IsReady s' qs
    × ((a : Ptr) → SameEnv (s.envs a) (s'.envs a))
    × (s'.curenv ≡ s.curenv)
    × (s'.mlfq_time_count ≡ s.mlfq_time_count)

-- The same, but for the count of time.
abbrev Raised : Sched → Queues → Sched → Type 0
Raised s qs s' =
    IsReady s' qs × ((a : Ptr) → SameEnv (s.envs a) (s'.envs a)) × (s'.curenv ≡ s.curenv)

should_boost-eq : (s : Sched) → should_boost s ≡ leb mlfq_boost s.mlfq_time_count
unfolding should_boost
should_boost-eq s = refl

module _ (s : Sched) (qs : Queues) (v : IsReady s qs) where
  boost-Raised : Returns (Raised s (collected qs)) (boost s)
  boost-Raised = Returns.mono (boost-collects s qs v.mlfq) λ s' (w, _, same, cur). (
    record {
      mlfq = w;
      current = HasCurrent-of s' (collected qs) w (λ n.
          let n' : s.curenv ≢ null = rw cur at n in
          (
            0,
            omega arith,
            rw cur (has-collected qs _ s.curenv (v.current.number n') (v.current.stands n')),
          ));
    },
    same,
    cur,
  )

  downgrade-Adjusted :
      should_env_downgrade s.curenv s ≡ true
      → let i = (s.envs s.curenv).queue_num in
        Returns
          (Adjusted s (appended (i + 1) s.curenv (removed i s.curenv qs)))
          (downgrade_env s.curenv s)
  downgrade-Adjusted should =
      let low = (should_env_downgrade_iff s.curenv s).0 should in
      let i = (s.envs s.curenv).queue_num in
      Returns.mono
        (downgrade_env-moves s.curenv s qs v.mlfq i (omega arith) (v.current.stands low.0) should)
        λ s' (w, _, _, same, cur, count, _). (
          record {
            mlfq = w;
            current = HasCurrent-of s' _ w (λ n. (
              i + 1,
              omega arith,
              ground (
                arith,
                cur,
                has-append s.curenv (removed i s.curenv qs (i + 1)) (s.curenv ∷ []),
                ==_refl s.curenv,
                ==_refl (i + 1),
              ),
            ));
          },
          same,
          cur,
          count,
        )

  demoted-Adjusted :
      Returns
        (Adjusted s (demoted s qs))
        (if should_env_downgrade s.curenv s then downgrade_env s.curenv s else some s)
  demoted-Adjusted = elim (Bool-cases (should_env_downgrade s.curenv s)) [
    | inl due ↦ rw due (downgrade-Adjusted due)
    | inr not_due ↦ rw not_due (returns (v, (λ a. SameEnv-refl (s.envs a)), refl, refl))
  ]

  raised-Raised : Returns (Raised s (raised s qs)) (if should_boost s then boost s else some s)
  raised-Raised = elim (Bool-cases (leb mlfq_boost s.mlfq_time_count)) [
    | inl due ↦ rw (should_boost-eq s, due) boost-Raised
    | inr not_due ↦
        rw (should_boost-eq s, not_due) (returns (v, (λ a. SameEnv-refl (s.envs a)), refl))
  ]

adjust-Raised :
    (s : Sched) (qs : Queues)
    → IsReady s qs
    → Returns (Raised s (raised s (demoted s qs))) (adjust s)
unfolding adjust
adjust-Raised s qs v = Returns.bind (demoted-Adjusted s qs v) λ t (w, same, cur, count).
    Returns.mono (raised-Raised t (demoted s qs) w) λ u (x, same', cur'). (
      subst
          (λ (c : ℕ).
            IsReady u (if leb mlfq_boost c then collected (demoted s qs) else demoted s qs))
          count x,
      (λ a. SameEnv-trans (s.envs a) (t.envs a) (u.envs a) (same a) (same' a)),
      cur' ∙ cur,
    )

choice-Chosen : (s : Sched) (qs : Queues) → IsReady s qs → Chosen s qs (choice nqueues 0 s qs)
choice-Chosen s qs v = elim (Option-cases (choice nqueues 0 s qs)) [
  | inl out ↦ subst (Chosen s qs) (sym out) (λ j hj a m.
      choice-none s qs v.mlfq v.current nqueues 0 j a out (omega arith) (omega arith) m)
  | inr found ↦ subst (Chosen s qs) (sym found.1) (
      choice-IsBest s qs v.mlfq v.current nqueues 0 found.0 (omega arith) found.1
        (λ j h a m. absurd (omega arith)))
]

-- `sched_MLFQ` with the current environment in its queue ends without a fault. The queues become those
-- after the downgrade of the current environment and the boost, where these are due. It switches to an
-- environment of them that may run (runnable, or the running current one) such that no queue of higher
-- priority has a runnable environment, and to the current one only where no other environment of
-- its queue is runnable; it falls through only if no queue has a runnable environment.
pub sched_mlfq-Scheduled :
    (cpu : ℕ) (s : Sched) (qs : Queues)
    → IsReady s qs
    → Returns (Scheduled cpu s qs) (sched_mlfq cpu s)
unfolding sched_mlfq
sched_mlfq-Scheduled cpu s qs v = Returns.bind (adjust-Raised s qs v) λ s' (w, same, cur).
    rw (scan_queues-choice s' _ w.mlfq w.current cpu nqueues 0 (omega arith)) (
      returns (record {
        adjusted = s';
        ready = w;
        same = same;
        current = cur;
        chosen = choice nqueues 0 s' (raised s (demoted s qs));
        best = choice-Chosen s' _ w;
        flow = refl;
      }))
