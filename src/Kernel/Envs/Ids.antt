-- ===== src/Kernel/Envs/Ids.antt =====
-- The numbers that `env_alloc` of kern/env.c gives.
use Prim.Native.Nat.{bit_or}
use sistemas_operativos.Base.{
  ℕ, zero, suc, ◌+◌, ◌-◌, ◌*◌, ◌/◌, ◌%◌, ◌^◌, ◌<◌, false, ◌||◌, ◌==◌, leb, ◌≡◌, ◌≢◌, refl, sym, ap,
  ◌∙◌, inl, inr, arith, ==_refl, Bool-cases,
}
use sistemas_operativos.Vm.Tables.Bits.{bit_or_step, bit_or-zero}
use sistemas_operativos.Kernel.State.{Kernel, e_bad_env, returns, fails, env_of}
use sistemas_operativos.Kernel.Envs.Lookup.{envid2env-live, envid2env-stale}
use sistemas_operativos.Kernel.Envs.{is_free, envid2env, generation, fill_env}

-- `|` of a multiple of `p` and a number below `p` is their sum.
abbrev OrAdds : ℕ → Type 0
OrAdds p = (g i : ℕ) → i < p → bit_or (g * p) i ≡ g * p + i

twice : (p : ℕ) → OrAdds p → OrAdds (p * 2)
twice p adds g i h =
    omega (arith, bit_or_step (g * (p * 2)) i, halves, adds g (i / 2) (omega arith))
  where
    halves : bit_or (g * (p * 2) / 2) (i / 2) ≡ bit_or (g * p) (i / 2)
    halves = ap (λ (t : ℕ). bit_or t (i / 2)) (omega arith)

bit_or_one : OrAdds 1
bit_or_one g zero h = omega (arith, bit_or-zero (g * 1))
bit_or_one g (suc i) h = absurd (omega arith)

or_adds : OrAdds 1024
or_adds = twice 512 (
    twice 256 (
      twice 128 (
        twice 64 (
          twice 32
            (twice 16 (twice 8 (twice 4 (twice 2 (twice 1 (λ g i h. bit_or_one g i h))))))))))

abbrev new_id : (old i : ℕ) → ℕ
new_id old i = bit_or (generation old) i

generation-whole :
    (old : ℕ)
    → (g : ℕ) × (generation old ≡ g * 1024)
      × (0 < g)
      × (g < 2 ^ 21)
      × (old < 2 ^ 31 → g ≢ old / 1024)
generation-whole old = elim (Bool-cases ((t * 1024 == 0) || leb (2 ^ 31) (t * 1024))) [
  | inl wraps ↦ (4, rw (wraps) refl, omega arith, omega arith, λ small e. ground arith)
  | inr fits ↦ (t, rw (fits) refl, ground arith, ground arith, λ small e. ground arith)
]
  where
    t : ℕ
    t = (old + 4096) % 2 ^ 32 / 1024

new_id-sum : (old i : ℕ) → i < 1024 → new_id old i ≡ generation old + i
new_id-sum old i h =
    let (g, whole, pos, below, fresh) = generation-whole old in
    ap (λ (t : ℕ). bit_or t i) whole ∙ (or_adds g i h ∙ ap (λ (t : ℕ). t + i) (sym whole))

module _ (i parent_id : ℕ) (k : Kernel) where
  fill_env-id :
      (env_of (i + 1) (fill_env (i + 1) parent_id k)).env_id ≡ new_id (env_of (i + 1) k).env_id i
  unfolding fill_env
  fill_env-id = rw (==_refl (i + 1), same_index) refl
    where
      same_index : i + 1 - 1 ≡ i
      same_index = omega arith

  fill_env-alive : is_free (env_of (i + 1) (fill_env (i + 1) parent_id k)).env_status ≡ false
  unfolding fill_env
  fill_env-alive = rw (==_refl (i + 1)) refl

-- The id that `env_alloc` stores in `envs[i]` is positive as an `int32_t`, and `envid2env` finds that
-- environment by it; the id that the place had before, if it was one, is found no more.
pub fill_env-envid2env :
    (i parent_id : ℕ) (k : Kernel)
    → i < 1024
    → let k' = fill_env (i + 1) parent_id k in
      let id = (env_of (i + 1) k').env_id in
      (0 < id)
      × (id < 2 ^ 31)
      × (envid2env id false k' ≡ returns (i + 1) k')
      × ((env_of (i + 1) k).env_id < 2 ^ 31
          → (env_of (i + 1) k).env_id ≢ 0
          → (env_of (i + 1) k).env_id % 1024 ≡ i
          → envid2env (env_of (i + 1) k).env_id false k' ≡ fails e_bad_env k')
fill_env-envid2env i parent_id k below =
    let (g, whole, pos, low, fresh) = generation-whole old in
    let sum = new_id-sum old i below in
    (
      rw (id-new) omega (arith, sum, whole),
      rw (id-new) omega (arith, sum, whole),
      envid2env-live id (i + 1) k' (λ z. ground (arith, id-new, sum, whole))
          (omega (arith, id-new, sum, whole)) refl (fill_env-alive i parent_id k),
      λ small nonzero here.
          envid2env-stale old (i + 1) k' nonzero (omega arith)
            (λ e. fresh small (omega (arith, e, id-new, sum, whole))),
    )
  where
    old : ℕ
    old = (env_of (i + 1) k).env_id

    k' : Kernel
    k' = fill_env (i + 1) parent_id k

    id : ℕ
    id = (env_of (i + 1) k').env_id

    id-new : (env_of (i + 1) k').env_id ≡ new_id old i
    id-new = fill_env-id i parent_id k
