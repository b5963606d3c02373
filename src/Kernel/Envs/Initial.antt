-- ===== src/Kernel/Envs/Initial.antt =====
-- What `env_init` of kern/env.c leaves.
use sistemas_operativos.Base.{
  ℕ, zero, suc, ◌+◌, ◌≤◌, ◌<◌, false, ◌==◌, if◌then◌else◌, ◌≡◌, refl, inl, inr, arith, ==_refl,
  ==→eq, Bool-cases,
}
use sistemas_operativos.Sched.State.{Ptr, null, Env, env_free}
use sistemas_operativos.Sched.Run.{nenv}
use sistemas_operativos.Kernel.State.{Kernel, EnvRest, env_of, set_env, set_rest}
use sistemas_operativos.Kernel.Envs.{init_envs, close_list, env_init}

-- `envs[j]` is free, without an id, and linked to `next`.
pub record Initial (j : ℕ) (next : Ptr) (k : Kernel) : Type 0 where
  pub id : (env_of (j + 1) k).env_id ≡ 0
  pub status : (env_of (j + 1) k).env_status ≡ env_free
  pub link : (k.rest (j + 1)).env_link ≡ next

abbrev one_env : (i : ℕ) → Kernel → Kernel
one_env i k =
    let v : Env = env_of (i + 1) k in
    let r : EnvRest = k.rest (i + 1) in
    set_rest (i + 1) (record r { env_link = i + 2 })
      (set_env (i + 1) (record v { env_id = 0; env_status = env_free }) k)

one_env-same : (i : ℕ) (k : Kernel) → Initial i (i + 2) (one_env i k)
one_env-same i k = record {
  id = rw (==_refl (i + 1)) refl;
  status = rw (==_refl (i + 1)) refl;
  link = rw (==_refl (i + 1)) refl;
}

one_env-other :
    (i j : ℕ) (k : Kernel) → j < i → Initial j (j + 2) k → Initial j (j + 2) (one_env i k)
one_env-other i j k below v = record {
  id = rw (apart) v.id;
  status = rw (apart) v.status;
  link = rw (apart) v.link;
}
  where
    apart : (j + 1 == i + 1) ≡ false
    apart = ground arith

init_envs-keeps :
    (n i j : ℕ) (k : Kernel) → j < i → Initial j (j + 2) k → Initial j (j + 2) (init_envs n i k)
unfolding init_envs
init_envs-keeps zero i j k below v = v
init_envs-keeps (suc n) i j k below v =
    init_envs-keeps n (i + 1) j (one_env i k) (omega arith) (one_env-other i j k below v)

init_envs-Initial :
    (n i j : ℕ) (k : Kernel) → i ≤ j → j < i + n → Initial j (j + 2) (init_envs n i k)
unfolding init_envs
init_envs-Initial zero i j k low high = absurd (omega arith)
init_envs-Initial (suc n) i j k low high = elim (Bool-cases (i == j)) [
  | inl same ↦
      let e = ==→eq i j same in
      init_envs-keeps n (i + 1) j (one_env i k) (omega arith) (rw⁻¹ e (one_env-same i k))
  | inr other ↦ init_envs-Initial n (i + 1) j (one_env i k) (ground arith) (omega arith)
]

close_list-Initial :
    (j : ℕ) (k : Kernel)
    → Initial j (j + 2) k
    → Initial j (if j == 1023 then null else j + 2) (close_list k)
close_list-Initial j k v = record {
  id = v.id;
  status = v.status;
  link = elim (Bool-cases (j == 1023)) [
    | inl last ↦ ground (arith, v.link)
    | inr other ↦ ground (arith, v.link)
  ];
}

-- After `env_init`, the list of free environments starts at the first, and each of the NENV environments
-- is free, without an id, and linked to the one behind it, the last to NULL.
env_init-Initial :
    (j : ℕ) (k : Kernel)
    → j < nenv
    → ((env_init k).env_free_list ≡ 1) × Initial j (if j == 1023 then null else j + 2) (env_init k)
unfolding env_init
env_init-Initial j k below = (
  refl,
  close_list-Initial j (init_envs nenv 0 k) (init_envs-Initial nenv 0 j k (omega arith) below),
)
