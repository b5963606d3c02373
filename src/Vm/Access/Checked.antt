-- ===== src/Vm/Access/Checked.antt =====
-- What `user_mem_check` of kern/pmap.c promises of the pages of a range.
use Prim.Native.Nat.{bit_or, bit_and}
use mathlib.Core.Path.{subst}
use sistemas_operativos.Base.{
  ℕ, zero, suc, ◌+◌, ◌-◌, ◌*◌, ◌/◌, ◌%◌, ◌^◌, ◌≤◌, ◌<◌, false, Option, none, some, ◌==◌, ltb, ◌≡◌,
  refl, sym, inl, inr, arith, ==→eq, Bool-cases,
}
use sistemas_operativos.Vm.State.{
  Vm, Run, ok, panics, pgsize, pte_p, utop, pdx, pte_page, round_down, round_up,
}
use sistemas_operativos.Vm.Tables.{Pte, load_pte, make_table, find_pte, pgdir_walk}
use sistemas_operativos.Vm.Access.{check_pages, user_mem_check}

-- The entry of `va` is there and has all the bits of `perm | PTE_P`.
pub record Allowed (pgdir va perm : ℕ) (s : Vm) : Type 0 where
  pub pte : Pte
  pub found : pgdir_walk pgdir va false s ≡ ok (some pte) s
  pub permitted : bit_and (load_pte pte s) (bit_or perm pte_p) ≡ bit_or perm pte_p

-- Without `create`, the walk changes nothing.
data Walked (s : Vm) : Run Vm (Option Pte) → Type 0 where
  stopped : Walked s panics
  walked : (o : Option Pte) → Walked s (ok o s)

find-Walked : (pgdir va : ℕ) (s : Vm) → Walked s (find_pte pgdir va s)
unfolding find_pte
find-Walked pgdir va s = elim (Bool-cases (s.words pgdir (pdx va) == 0)) [
  | inl absent ↦ rw (absent) (walked none)
  | inr present ↦
      rw (present) elim (Bool-cases (ltb (pte_page (s.words pgdir (pdx va))) s.npages)) [
        | inl below ↦ rw (below) (walked _)
        | inr above ↦ rw (above) stopped
      ]
]

no_table : (pgdir va : ℕ) (s : Vm) → make_table pgdir va false s ≡ ok tt s
unfolding make_table
no_table pgdir va s = elim (Bool-cases (s.words pgdir (pdx va) == 0)) [
  | inl absent ↦ rw (absent) refl
  | inr present ↦ rw (present) refl
]

walk-Walked : (pgdir va : ℕ) (s : Vm) → Walked s (pgdir_walk pgdir va false s)
unfolding pgdir_walk
walk-Walked pgdir va s =
    subst
      (λ (r : Run Vm (Unit {0})).
        Walked s (elim r [ ok a s' ↦ find_pte pgdir va s' | panics ↦ panics ]))
      (sym (no_table pgdir va s)) (find-Walked pgdir va s)

module _ (n pgdir va_lo va perm : ℕ) (s s' : Vm) where
  -- A turn that does not fail found the entry allowed, and went on.
  turn-Allowed :
      (r : Run Vm (Option Pte))
      → Walked s r
      → pgdir_walk pgdir va false s ≡ r
      → check_pages (suc n) pgdir va_lo va perm s ≡ ok none s'
      → Allowed pgdir va perm s × (check_pages n pgdir va_lo (va + pgsize) perm s ≡ ok none s')
  unfolding check_pages
  turn-Allowed panics w e h = absurd (ground arith)
  turn-Allowed (ok none s₁) (walked none) e h = absurd (ground arith)
  turn-Allowed (ok (some pte) s₁) (walked _) e h =
      elim (Bool-cases (bit_and (load_pte pte s) (bit_or perm pte_p) == bit_or perm pte_p)) [
        | inl allowed ↦
            (record { pte = pte; found = e; permitted = ==→eq _ _ allowed }, ground arith)
        | inr refused ↦ absurd (ground arith)
      ]

check_pages-Allowed :
    (n pgdir va_lo va perm : ℕ) (s s' : Vm)
    → check_pages n pgdir va_lo va perm s ≡ ok none s'
    → (a : ℕ) → va ≤ a
    → a < va + n * 4096
    → Allowed pgdir (va + (a - va) / 4096 * 4096) perm s
check_pages-Allowed zero pgdir va_lo va perm s s' h a low high = absurd (omega arith)
check_pages-Allowed (suc n) pgdir va_lo va perm s s' h a low high =
    let (here, rest) = turn-Allowed n pgdir va_lo va perm s s' _ (walk-Walked pgdir va s) refl h in
    elim (Bool-cases (ltb a (va + 4096))) [
      | inl near ↦ subst (λ (b : ℕ). Allowed pgdir b perm s) (ground arith) here
      | inr far ↦
          subst (λ (b : ℕ). Allowed pgdir b perm s) (ground arith)
            (check_pages-Allowed n pgdir va_lo (va + pgsize) perm s s' rest a (ground arith)
              (omega arith))
    ]

-- Where the end of the range, rounded up, does not pass 2^32 and `user_mem_check` returns 0, each
-- address of the range is below UTOP and lies in a page whose entry has all the bits of `perm | PTE_P`.
pub user_mem_check-Allowed :
    (pgdir va len perm : ℕ) (s s' : Vm)
    → va + len + 4095 < 2 ^ 32
    → user_mem_check pgdir va len perm s ≡ ok none s'
    → (a : ℕ) → va ≤ a
    → a < va + len
    → (a < utop) × Allowed pgdir (round_down a) perm s
unfolding user_mem_check
user_mem_check-Allowed pgdir va len perm s s' fits h a low high = elim (Bool-cases (ltb utop hi)) [
  | inl above ↦ absurd (ground arith)
  | inr below ↦ (
    ground arith,
    subst (λ (b : ℕ). Allowed pgdir b perm s) page_of_a
        (check_pages-Allowed n pgdir va (round_down va) perm s s' loop a (omega arith)
          (omega (arith, whole))),
  )
]
  where
    hi : ℕ
    hi = round_up ((va + len) % 2 ^ 32)

    n : ℕ
    n = (hi - round_down va) / 4096

    whole : round_down va + n * 4096 ≡ (va + len + 4095) / 4096 * 4096
    whole = omega arith

    page_of_a : round_down va + (a - round_down va) / 4096 * 4096 ≡ round_down a
    page_of_a = omega arith

    loop : check_pages n pgdir va (round_down va) perm s ≡ ok none s'
    loop = elim (Bool-cases (ltb utop hi)) [
      | inl above ↦ absurd (ground arith)
      | inr below ↦ rw (below) at h
    ]

-- Of a range that ends at 2^32, `user_mem_check` returns 0 in any page directory: the end wraps round to
-- 0, and no page is looked at.
user_mem_check-wrap :
    (pgdir va len perm : ℕ) (s : Vm)
    → va + len ≡ 2 ^ 32
    → user_mem_check pgdir va len perm s ≡ ok none s
unfolding user_mem_check
user_mem_check-wrap pgdir va len perm s e =
    rw (e) (λ i. check_pages (nothing i) pgdir va (round_down va) perm s)
  where
    nothing : (0 - round_down va) / 4096 ≡ 0
    nothing = omega arith
