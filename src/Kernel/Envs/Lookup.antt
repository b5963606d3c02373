-- ===== src/Kernel/Envs/Lookup.antt =====
-- What `envid2env` of kern/env.c finds.
use mathlib.Core.Path.{subst}
use sistemas_operativos.Base.{
  ℕ, ◌+◌, Bool, true, false, not, ◌&&◌, ◌||◌, ◌==◌, ◌≡◌, ◌≢◌, refl, sym, ◌⊎◌, inl, inr, arith,
  ==_refl, ne→==, ==→eq, Bool-cases,
}
use sistemas_operativos.Sched.State.{Ptr, null, Env}
use sistemas_operativos.Kernel.State.{Kernel, e_bad_env, returns, fails, env_of, curenv_of}
use sistemas_operativos.Kernel.Envs.{is_free, envx, envid2env}

-- The environment that an id names, and that the caller may use where it must be allowed to.
pub record Named (envid : ℕ) (checkperm : Bool) (e : Ptr) (k : Kernel) : Type 0 where
  pub own : envid ≡ 0 → e ≡ curenv_of k
  pub place : envid ≢ 0 → e ≡ envx envid + 1
  pub id : envid ≢ 0 → (env_of e k).env_id ≡ envid
  pub alive : envid ≢ 0 → is_free (env_of e k).env_status ≡ false
  pub permitted :
      checkperm ≡ true
      → (e ≡ curenv_of k) ⊎ ((env_of e k).env_parent_id ≡ (env_of (curenv_of k) k).env_id)

module _ (envid : ℕ) (checkperm : Bool) (k : Kernel) where
  abbrev slot : Ptr
  slot = envx envid + 1

  at_slot :
      (e : Ptr)
      → e ≡ slot
      → (envid == 0) ≡ false
      → (is_free (env_of slot k).env_status || not ((env_of slot k).env_id == envid)) ≡ false
      → (checkperm ≡ true
          → (slot ≡ curenv_of k)
            ⊎ ((env_of slot k).env_parent_id ≡ (env_of (curenv_of k) k).env_id))
      → Named envid checkperm e k
  at_slot e here other live may =
      subst (λ (x : Ptr). Named envid checkperm x k) (sym here)
        (record {
          own = λ z. absurd (ground arith);
          place = λ z. refl;
          id = λ z. ground arith;
          alive = λ z. ground arith;
          permitted = may;
        })

-- Where `envid2env` finds an environment, the state is as it was; 0 names the current environment, any
-- other id a used environment at the place and with the id that it says; and with `checkperm` it is the
-- current environment or a child of it.
pub envid2env-Named :
    (envid : ℕ) (checkperm : Bool) (e : Ptr) (k k' : Kernel)
    → envid2env envid checkperm k ≡ returns e k'
    → (k' ≡ k) × Named envid checkperm e k
unfolding envid2env
envid2env-Named envid checkperm e k k' h = elim (Bool-cases (envid == 0)) [
  | inl self ↦
      let is_zero = ==→eq _ 0 self in
      (
        cc,
        record {
          own = λ z. cc;
          place = λ z. absurd (z is_zero);
          id = λ z. absurd (z is_zero);
          alive = λ z. absurd (z is_zero);
          permitted = λ z. inl cc;
        },
      )
  | inr other ↦ elim (Bool-cases (is_free v.env_status || not (v.env_id == envid))) [
    | inl stale ↦ absurd (ground arith)
    | inr live ↦ elim (Bool-cases (checkperm && not (e₀ == curenv_of k))) [
      | inl asks ↦ elim (Bool-cases (curenv_of k == null)) [
        | inl absent ↦ absurd (ground arith)
        | inr present ↦ elim (Bool-cases (v.env_parent_id == (env_of (curenv_of k) k).env_id)) [
          | inl child ↦
              (cc, at_slot envid checkperm k e (cc) other live (λ _. inr (==→eq _ _ child)))
          | inr stranger ↦ absurd (ground arith)
        ]
      ]
      | inr may ↦ (cc, at_slot envid checkperm k e (cc) other live (λ asked. inl (ground arith)))
    ]
  ]
]
  where
    e₀ : Ptr
    e₀ = envx envid + 1

    v : Env
    v = env_of e₀ k

-- Without a check of permissions: an id that is in use, and one that is not.
module _ (envid : ℕ) (e : Ptr) (k : Kernel) (nonzero : envid ≢ 0) (here : envx envid + 1 ≡ e) where
  pub envid2env-live :
      (env_of e k).env_id ≡ envid
      → is_free (env_of e k).env_status ≡ false
      → envid2env envid false k ≡ returns e k
  unfolding envid2env
  envid2env-live same alive = rw (ne→== envid 0 nonzero, here, same, alive, ==_refl envid) refl

  pub envid2env-stale : (env_of e k).env_id ≢ envid → envid2env envid false k ≡ fails e_bad_env k
  unfolding envid2env
  envid2env-stale other = elim (Bool-cases (is_free (env_of e k).env_status)) [
    | inl free ↦ rw (ne→== envid 0 nonzero, here, free) refl
    | inr alive ↦ rw (ne→== envid 0 nonzero, here, alive, ne→== _ _ other) refl
  ]
