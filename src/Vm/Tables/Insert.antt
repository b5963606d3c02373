-- ===== src/Vm/Tables/Insert.antt =====
-- `page_insert` of kern/pmap.c, on a page table that there is or that is made on demand.
use Prim.Native.Nat.{bit_or}
use sistemas_operativos.Base.{
  ℕ, ◌+◌, ◌/◌, ◌^◌, ◌<◌, true, some, ◌==◌, if◌then◌else◌, ◌≡◌, ◌≢◌, refl, sym, ap, ◌∙◌, inl, inr,
  arith, ==_refl, ne→==, Bool-cases,
}
use sistemas_operativos.Vm.State.{Vm, ok, pdx, ptx, pte_page, make_pte}
use sistemas_operativos.Vm.Pages.{incref}
use sistemas_operativos.Vm.Tables.{
  load_pte, store_pte, pgdir_walk, page_lookup, page_remove, page_insert,
}
use sistemas_operativos.Vm.Tables.Bits.{bit_or-zero, pte_page-make_pte, make_pte-present}
use sistemas_operativos.Vm.Tables.Remove.{
  HasTable, place, walk-HasTable, lookup_present, Held, uses, remove-refs,
}

-- The words of the state that `remove-refs` leaves, in another row than that of the entry.
other_row :
    (pgdir va : ℕ) (v : ℕ) (s s₂ : Vm)
    → (place pgdir va s).0 ≢ pgdir
    → s₂.words ≡ (
        if load_pte (place pgdir va s) s == 0
        then s.words
        else (store_pte (place pgdir va s) 0 s).words)
    → (store_pte (place pgdir va s) v s₂).words pgdir ≡ s.words pgdir
other_row pgdir va v s s₂ apart same = rw (ne→== pgdir _ (λ e. apart (sym e))) (
    (λ i. same i pgdir) ∙ elim (Bool-cases (load_pte (place pgdir va s) s == 0)) [
      | inl absent ↦ rw (absent) refl
      | inr present ↦ rw (present, ne→== pgdir _ (λ e. apart (sym e))) refl
    ])

-- An entry without bits above the offset names its page.
own_page : (page perm : ℕ) → perm < 4096 → pte_page (make_pte page perm) ≡ page
own_page page perm no_bits =
    pte_page-make_pte page perm ∙ ((λ i. bit_or page (none_above i)) ∙ bit_or-zero page)
  where
    none_above : perm / 4096 ≡ 0
    none_above = omega arith

module _ (pgdir page va perm : ℕ) (s s₂ : Vm) (has : HasTable pgdir va s)
    (apart : (place pgdir va s).0 ≢ pgdir)
    (words : s₂.words ≡ (
      if load_pte (place pgdir va s) s == 0
      then s.words
      else (store_pte (place pgdir va s) 0 s).words))
    (npages : s₂.npages ≡ s.npages) where
  abbrev stored : Vm
  stored = store_pte (place pgdir va s) (make_pte page perm) s₂

  row : stored.words pgdir ≡ s.words pgdir
  row = other_row pgdir va (make_pte page perm) s s₂ apart words

  stored-HasTable : HasTable pgdir va stored
  stored-HasTable = record {
    present = rw (row) has.present;
    in_memory = rw (row, npages) has.in_memory;
  }

  stored-place : place pgdir va stored ≡ place pgdir va s
  stored-place i = (pte_page (row i (pdx va)), ptx va)

  stored-entry : load_pte (place pgdir va stored) stored ≡ make_pte page perm
  stored-entry =
      (λ i. load_pte (stored-place i) stored)
      ∙ rw (==_refl (place pgdir va s).0, ==_refl (place pgdir va s).1) refl

  lookup_stored :
      (q : ℕ)
      → pte_page (make_pte page perm) ≡ q
      → q < s.npages
      → page_lookup pgdir va stored ≡ ok (some (q, place pgdir va s)) stored
  lookup_stored q names below =
      lookup_present pgdir va stored stored-HasTable
        (λ e. make_pte-present page perm (sym stored-entry ∙ e))
        (rw (stored-entry, names, npages) ground arith)
      ∙ (λ i. ok (some ((ap pte_page stored-entry ∙ names) i, stored-place i)) stored)

module _ (pgdir page va perm : ℕ) (s s₁ : Vm)
    (walk : pgdir_walk pgdir va true s ≡ ok (some (place pgdir va s₁)) s₁) where
  page_insert-after_remove :
      (s₂ : Vm)
      → page_remove pgdir va (incref page s₁) ≡ ok tt s₂
      → page_insert pgdir page va perm s
        ≡ ok true (store_pte (place pgdir va s₁) (make_pte page perm) s₂)
  unfolding page_insert
  page_insert-after_remove s₂ removed = ground (arith, walk, removed)

  -- `q` is the page that the new entry names.
  insert-lookup :
      (q : ℕ)
      → pte_page (make_pte page perm) ≡ q
      → q < s₁.npages
      → (place pgdir va s₁).0 ≢ pgdir
      → (s₁.pages page).pp_ref + 1 < 2 ^ 16
      → (load_pte (place pgdir va s₁) s₁ ≢ 0
          → Held (pte_page (load_pte (place pgdir va s₁) s₁)) (incref page s₁))
      → (s' : Vm) × (page_insert pgdir page va perm s ≡ ok true s')
        × (page_lookup pgdir va s' ≡ ok (some (q, place pgdir va s₁)) s')
        × ((p : ℕ)
            → (s'.pages p).pp_ref + uses (load_pte (place pgdir va s₁) s₁) p
              ≡ (s₁.pages p).pp_ref + (if page == p then 1 else 0))
  insert-lookup q names below apart fits held =
      let has = (walk-HasTable pgdir va true _ s s₁ walk).1 in
      let (s₂, removed, words, npages, refs) =
        remove-refs pgdir va (incref page s₁)
          (record { present = has.present; in_memory = has.in_memory }) held in
      (
        store_pte (place pgdir va s₁) (make_pte page perm) s₂,
        page_insert-after_remove s₂ removed,
        lookup_stored pgdir page va perm s₁ s₂ has apart words npages q names below,
        λ p. refs p ∙ ground arith,
      )

  -- Where `page_insert` finds or makes the page table, the page can take one more reference, what was mapped
  -- at `va` can lose one, and `perm` has no bits from the twelfth on, it succeeds; `page_lookup` then finds
  -- the page at `va`, the page has one reference more, and what was mapped before has one less, which
  -- cancels where it is the same page.
  pub page_insert-page_lookup :
      perm < 4096
      → page < s₁.npages
      → (place pgdir va s₁).0 ≢ pgdir
      → (s₁.pages page).pp_ref + 1 < 2 ^ 16
      → (load_pte (place pgdir va s₁) s₁ ≢ 0
          → Held (pte_page (load_pte (place pgdir va s₁) s₁)) (incref page s₁))
      → (s' : Vm) × (page_insert pgdir page va perm s ≡ ok true s')
        × (page_lookup pgdir va s' ≡ ok (some (page, place pgdir va s₁)) s')
        × ((p : ℕ)
            → (s'.pages p).pp_ref + uses (load_pte (place pgdir va s₁) s₁) p
              ≡ (s₁.pages p).pp_ref + (if page == p then 1 else 0))
  page_insert-page_lookup no_bits = insert-lookup page (own_page page perm no_bits)

  -- With bits above the twelfth, the page that `page_lookup` finds is another one.
  pub insert-lookup_other :
      bit_or page (perm / 4096) < s₁.npages
      → (place pgdir va s₁).0 ≢ pgdir
      → (s₁.pages page).pp_ref + 1 < 2 ^ 16
      → (load_pte (place pgdir va s₁) s₁ ≢ 0
          → Held (pte_page (load_pte (place pgdir va s₁) s₁)) (incref page s₁))
      → (s' : Vm) × (page_insert pgdir page va perm s ≡ ok true s')
        × (page_lookup pgdir va s' ≡ ok (some (bit_or page (perm / 4096), place pgdir va s₁)) s')
  insert-lookup_other below apart fits held =
      let (s', done, found, refs) =
        insert-lookup (bit_or page (perm / 4096)) (pte_page-make_pte page perm) below apart fits
          held in
      (s', done, found)
