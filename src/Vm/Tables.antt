-- ===== src/Vm/Tables.antt =====
-- Page directories and page tables of kern/pmap.c. The flush of the TLB is not part of the state.
pub mod Bits
pub mod Remove
pub mod Insert
use Prim.Native.Nat.{bit_or}
use sistemas_operativos.Base.{
  ℕ, zero, suc, ◌+◌, ◌-◌, ◌*◌, ◌/◌, ◌%◌, ◌^◌, Bool, true, false, not, ◌&&◌, Option, none, some,
  ◌==◌, ltb, leb, if◌then◌else◌,
}
use sistemas_operativos.Vm.State.{
  PageInfo, Vm, Run, ok, panics, M, ◌>>=◌, ◌>>◌, return, get, put, panic, pgsize, pte_p, pte_w,
  pte_u, pte_uncached, pdx, ptx, pte_page, make_pte, put_word, round_down, round_up,
}
use sistemas_operativos.Vm.Pages.{page_alloc, page_decref, incref}

-- The place of a page table entry: its page and its index there.
abbrev pub Pte : Type 0
Pte = ℕ × ℕ

abbrev pub load_pte : Pte → Vm → ℕ
load_pte (t, k) s = s.words t k

abbrev pub store_pte : Pte → ℕ → Vm → Vm
store_pte (t, k) v s = put_word t k v s

-- The first `if` of `pgdir_walk`: the page table is made where there is none.
unfoldable pub make_table : (pgdir va : ℕ) → (create : Bool) → M (Unit {0})
unfolding page_alloc
make_table pgdir va create s =
    if (s.words pgdir (pdx va) == 0) && create
    then elim (page_alloc true s) [
      | ok none s₁ ↦ ok tt s₁
      | ok (some p) s₁ ↦ ok tt (put_word pgdir (pdx va) (bit_or (p * 4096) 7) (incref p s₁))
      | panics ↦ panics
    ]
    else ok tt s

-- The second one. KADDR panics above the memory that there is.
unfoldable pub find_pte : (pgdir va : ℕ) → M (Option Pte)
find_pte pgdir va s =
    let e = s.words pgdir (pdx va) in
    if e == 0
    then ok none s
    else if ltb (pte_page e) s.npages
    then ok (some (pte_page e, ptx va)) s
    else panics

unfoldable pub pgdir_walk : (pgdir va : ℕ) → (create : Bool) → M (Option Pte)
unfolding make_table find_pte
pgdir_walk pgdir va create = do make_table pgdir va create; find_pte pgdir va

-- `*pte && PTE_P` is that the word is not 0. With the page comes the place of its entry.
unfoldable pub page_lookup : (pgdir va : ℕ) → M (Option (ℕ × Pte))
unfolding pgdir_walk
page_lookup pgdir va = do
  found ← pgdir_walk pgdir va false
  s ← get
  elim found as (λ _. M (Option (ℕ × Pte))) [
    | none ↦ return none
    | some pte ↦
        if load_pte pte s == 0
        then return none
        else if ltb (pte_page (load_pte pte s)) s.npages
        then return (some (pte_page (load_pte pte s), pte))
        else panic
  ]

unfoldable pub page_remove : (pgdir va : ℕ) → M (Unit {0})
unfolding page_lookup
page_remove pgdir va = do
  found ← page_lookup pgdir va
  elim found as (λ _. M (Unit {0})) [
    | none ↦ return tt
    | some (page, pte) ↦ do page_decref page; s ← get; put (store_pte pte 0 s)
  ]

-- `false` is -E_NO_MEM.
unfoldable pub page_insert : (pgdir page va perm : ℕ) → M Bool
unfolding pgdir_walk page_remove
page_insert pgdir page va perm = do
  found ← pgdir_walk pgdir va true
  elim found as (λ _. M Bool) [
    | none ↦ return false
    | some pte ↦ do
      s ← get
      put (incref page s)
      page_remove pgdir va
      s' ← get
      put (store_pte pte (make_pte page perm) s')
      return true
  ]

-- The loop of `boot_map_region` over `n` pages, without large pages (TP1_PSE). A page table that
-- cannot be made is a NULL that is written through.
unfoldable pub map_pages : (n : ℕ) → (pgdir va pa perm : ℕ) → M (Unit {0})
unfolding pgdir_walk page_remove
map_pages zero pgdir va pa perm = return tt
map_pages (suc n) pgdir va pa perm = do
  found ← pgdir_walk pgdir va true
  page_remove pgdir va
  s ← get
  elim found as (λ _. M (Unit {0})) [
    | none ↦ panic
    | some pte ↦ put (store_pte pte (bit_or (bit_or pa perm) pte_p) s)
  ]
  map_pages n pgdir ((va + pgsize) % 2 ^ 32) ((pa + pgsize) % 2 ^ 32) perm

unfoldable pub boot_map_region : (pgdir va size pa perm : ℕ) → M (Unit {0})
unfolding map_pages
boot_map_region pgdir va size pa perm = map_pages ((size + 4095) / 4096) pgdir va pa perm

-- MMIOLIM
abbrev pub mmio_lim : ℕ
mmio_lim = 0xefc00000

-- `base` is the static variable; the result is the old and the new base.
unfoldable pub mmio_map_region : (kern_pgdir base pa size : ℕ) → M (ℕ × ℕ)
unfolding boot_map_region
mmio_map_region kern_pgdir base pa size =
    let size₁ = round_up size in
    if leb mmio_lim ((base + size₁) % 2 ^ 32) then panic else do
      boot_map_region kern_pgdir base size₁ (round_down pa) (pte_w + pte_p + pte_uncached)
      return (base, base + size₁)
