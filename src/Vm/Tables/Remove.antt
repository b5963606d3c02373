-- ===== src/Vm/Tables/Remove.antt =====
-- `page_lookup` and `page_remove` of kern/pmap.c on a page table that there is.
use mathlib.Core.Path.{subst}
use sistemas_operativos.Base.{
  ℕ, ◌+◌, ◌-◌, ◌%◌, ◌^◌, ◌<◌, Bool, true, false, none, some, ◌==◌, ltb, if◌then◌else◌, ◌≡◌, ◌≢◌,
  refl, ◌∙◌, inl, inr, arith, ==_refl, ne→==, ==→eq, Bool-cases,
}
use sistemas_operativos.Vm.State.{Vm, Run, ok, panics, pdx, ptx, pte_page, put_page, update}
use sistemas_operativos.Vm.Pages.{page_free, page_decref}
use sistemas_operativos.Vm.Pages.FreeList.{pushed, page_free-pushed}
use sistemas_operativos.Vm.Tables.{
  Pte, load_pte, store_pte, make_table, find_pte, pgdir_walk, page_lookup, page_remove,
}

-- The directory entry of `va` names a page table that is in memory.
pub record HasTable (pgdir va : ℕ) (s : Vm) : Type 0 where
  pub present : (s.words pgdir (pdx va) == 0) ≡ false
  pub in_memory : ltb (pte_page (s.words pgdir (pdx va))) s.npages ≡ true

-- That table and the place of `va` there.
abbrev pub place : (pgdir va : ℕ) → Vm → Pte
place pgdir va s = (pte_page (s.words pgdir (pdx va)), ptx va)

find_pte-HasTable :
    (pgdir va : ℕ) (pte : Pte) (s s₁ : Vm)
    → find_pte pgdir va s ≡ ok (some pte) s₁
    → (s ≡ s₁) × (place pgdir va s ≡ pte) × HasTable pgdir va s
unfolding find_pte
find_pte-HasTable pgdir va pte s s₁ h = elim (Bool-cases (s.words pgdir (pdx va) == 0)) [
  | inl e ↦ absurd (ground arith)
  | inr e ↦ elim (Bool-cases (ltb (pte_page (s.words pgdir (pdx va))) s.npages)) [
    | inl l ↦ (cc, cc, record { present = e; in_memory = l })
    | inr l ↦ absurd (ground arith)
  ]
]

pub walk-HasTable :
    (pgdir va : ℕ) (create : Bool) (pte : Pte) (s s₁ : Vm)
    → pgdir_walk pgdir va create s ≡ ok (some pte) s₁
    → (place pgdir va s₁ ≡ pte) × HasTable pgdir va s₁
unfolding pgdir_walk
walk-HasTable pgdir va create pte s s₁ = from_make (make_table pgdir va create s)
  where
    from_make :
        (made : Run Vm (Unit {0}))
        → elim made [ ok a s' ↦ find_pte pgdir va s' | panics ↦ panics ] ≡ ok (some pte) s₁
        → (place pgdir va s₁ ≡ pte) × HasTable pgdir va s₁
    from_make panics h = absurd cc
    from_make (ok _ s') h =
        let (same, here, has) = find_pte-HasTable pgdir va pte s' s₁ h in
        subst (λ (z : Vm). (place pgdir va z ≡ pte) × HasTable pgdir va z) same (here, has)

HasTable-walk :
    (pgdir va : ℕ) (create : Bool) (s : Vm)
    → HasTable pgdir va s
    → pgdir_walk pgdir va create s ≡ ok (some (place pgdir va s)) s
unfolding pgdir_walk make_table find_pte
HasTable-walk pgdir va create s has = ground (arith, has.present, has.in_memory)

module _ (pgdir va : ℕ) (s : Vm) (has : HasTable pgdir va s) where
  lookup_absent : load_pte (place pgdir va s) s ≡ 0 → page_lookup pgdir va s ≡ ok none s
  unfolding page_lookup
  lookup_absent e = ground (arith, HasTable-walk pgdir va false s has)

  pub lookup_present :
      load_pte (place pgdir va s) s ≢ 0
      → ltb (pte_page (load_pte (place pgdir va s) s)) s.npages ≡ true
      → page_lookup pgdir va s
        ≡ ok (some (pte_page (load_pte (place pgdir va s) s), place pgdir va s)) s
  unfolding page_lookup
  lookup_present ne below = ground (arith, HasTable-walk pgdir va false s has, ne→== _ 0 ne, below)

-- A page that can lose a reference: it is in memory, has references, and is not in the free list.
pub record Held (q : ℕ) (s : Vm) : Type 0 where
  pub below : ltb q s.npages ≡ true
  pub used : 0 < (s.pages q).pp_ref
  pub fits : (s.pages q).pp_ref < 2 ^ 16
  pub unlinked : (s.pages q).pp_link ≡ none

-- `q` has lost a reference; the pages' words are as before.
record Released (q : ℕ) (s s' : Vm) : Type 0 where
  same_words : s'.words ≡ s.words
  same_npages : s'.npages ≡ s.npages
  refs : (p : ℕ) → (s'.pages p).pp_ref + (if q == p then 1 else 0) ≡ (s.pages p).pp_ref

-- The state after the decrement.
abbrev lowered : ℕ → Vm → Vm
lowered q s =
    put_page q (record (s.pages q) { pp_ref = ((s.pages q).pp_ref + 2 ^ 16 - 1) % 2 ^ 16 }) s

module _ (q : ℕ) (s : Vm) (held : Held q s) where
  decref-last : (s.pages q).pp_ref ≡ 1 → page_decref q s ≡ ok tt (pushed q (lowered q s))
  unfolding page_decref
  decref-last e =
      (λ i. if last i then page_free q (lowered q s) else ok tt (lowered q s))
      ∙ page_free-pushed q (lowered q s) (rw (==_refl q) last) (rw (==_refl q) held.unlinked)
    where
      last : (((s.pages q).pp_ref + 2 ^ 16 - 1) % 2 ^ 16 == 0) ≡ true
      last = rw (e) refl

  decref-more : 1 < (s.pages q).pp_ref → page_decref q s ≡ ok tt (lowered q s)
  unfolding page_decref
  decref-more more = ground (arith, held.fits)

  decref-Released : (s' : Vm) × (page_decref q s ≡ ok tt s') × Released q s s'
  decref-Released = elim (Bool-cases ((s.pages q).pp_ref == 1)) [
    | inl last ↦ (
      pushed q (lowered q s),
      decref-last (==→eq _ 1 last),
      record { same_words = refl; same_npages = refl; refs = λ p. ground arith },
    )
    | inr more ↦ (
      lowered q s,
      decref-more (ground (arith, held.used)),
      record {
        same_words = refl;
        same_npages = refl;
        refs = λ p. ground (arith, held.used, held.fits);
      },
    )
  ]

-- How many references page `p` has from an entry `e`.
abbrev pub uses : (e p : ℕ) → ℕ
uses e p = if e == 0 then 0 else if pte_page e == p then 1 else 0

store_pte-words :
    (pte : Pte) (v : ℕ) (s s' : Vm)
    → s'.words ≡ s.words
    → (store_pte pte v s').words ≡ (store_pte pte v s).words
store_pte-words (t, k) v s s' same i = update (same i) t (update (same i t) k v)

page_remove-absent :
    (pgdir va : ℕ) (s : Vm) → page_lookup pgdir va s ≡ ok none s → page_remove pgdir va s ≡ ok tt s
unfolding page_remove
page_remove-absent pgdir va s found = ground (arith, found)

page_remove-present :
    (pgdir va q : ℕ) (pte : Pte) (s s' : Vm)
    → page_lookup pgdir va s ≡ ok (some (q, pte)) s
    → page_decref q s ≡ ok tt s'
    → page_remove pgdir va s ≡ ok tt (store_pte pte 0 s')
unfolding page_remove
page_remove-present pgdir va q pte s s' found lowers = ground (arith, found, lowers)

module _ (pgdir va : ℕ) (s : Vm) (has : HasTable pgdir va s) where
  abbrev entry : ℕ
  entry = load_pte (place pgdir va s) s

  -- The old mapping goes: the other words stay.
  pub remove-refs :
      (entry ≢ 0 → Held (pte_page entry) s)
      → (s' : Vm) × (page_remove pgdir va s ≡ ok tt s')
        × (s'.words ≡ (if entry == 0 then s.words else (store_pte (place pgdir va s) 0 s).words))
        × (s'.npages ≡ s.npages)
        × ((p : ℕ) → (s'.pages p).pp_ref + uses entry p ≡ (s.pages p).pp_ref)
  remove-refs held = elim (Bool-cases (entry == 0)) [
    | inl absent ↦ (
      s,
      page_remove-absent pgdir va s (lookup_absent pgdir va s has (==→eq _ 0 absent)),
      rw (absent) refl,
      refl,
      λ p. rw (absent) omega arith,
    )
    | inr present ↦
        let ne : entry ≢ 0 = λ z. absurd (ground arith) in
        let (s', done, rel) = decref-Released (pte_page entry) s (held ne) in
        (
          store_pte (place pgdir va s) 0 s',
          page_remove-present pgdir va _ _ s s' (lookup_present pgdir va s has ne (held ne).below)
              done,
          rw (present) (store_pte-words (place pgdir va s) 0 s s' rel.same_words),
          rel.same_npages,
          λ p. rw (present) (rel.refs p),
        )
  ]
