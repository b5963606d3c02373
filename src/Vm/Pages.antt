-- ===== src/Vm/Pages.antt =====
-- The free list and the reference counts of kern/pmap.c.
pub mod FreeList
use sistemas_operativos.Base.{
  ℕ, zero, suc, ◌+◌, ◌-◌, ◌%◌, ◌^◌, Bool, true, false, not, ◌&&◌, ◌||◌, Option, none, some, ◌==◌,
  ltb, leb, if◌then◌else◌,
}
use sistemas_operativos.Vm.State.{
  PageInfo, Vm, Run, ok, panics, M, ◌>>=◌, ◌>>◌, return, get, put, panic, update, put_page,
}

-- Whether `page_init` leaves page `i` out of the free list: page 0, the page of MPENTRY_PADDR, the
-- IO hole, and extended memory below `first_free`, the page of `boot_alloc(0)`.
abbrev pub is_reserved : (first_free i : ℕ) → Bool
is_reserved first_free i =
    (i == 0) || ((i == 7) || ((leb 160 i && ltb i 256) || (leb 256 i && ltb i first_free)))

pub init_page : (first_free i : ℕ) → Vm → Vm
init_page first_free i s =
    if is_reserved first_free i
    then put_page i (record (s.pages i) { pp_link = none }) s
    else record (put_page i (record { pp_link = s.page_free_list; pp_ref = 0 }) s) {
      page_free_list = some i;
    }

-- The loop of `page_init` over `n` pages from `i` on.
pub init_pages : (first_free n i : ℕ) → Vm → Vm
unfolding init_page
init_pages first_free zero i s = s
init_pages first_free (suc n) i s = init_pages first_free n (i + 1) (init_page first_free i s)

unfoldable pub page_init : (first_free : ℕ) → Vm → Vm
unfolding init_pages
page_init first_free s = init_pages first_free s.npages 0 s

-- `zeroed` is ALLOC_ZERO.
unfoldable pub page_alloc : (zeroed : Bool) → M (Option ℕ)
page_alloc zeroed s = elim s.page_free_list [
  | none ↦ ok none s
  | some p ↦ ok (some p) (record s {
    page_free_list = (s.pages p).pp_link;
    pages = update s.pages p (record (s.pages p) { pp_link = none });
    words = if zeroed then update s.words p (λ _. 0) else s.words;
  })
]

unfoldable pub page_free : ℕ → M (Unit {0})
page_free p s = if not ((s.pages p).pp_ref == 0) then panics else elim (s.pages p).pp_link [
  | some q ↦ panics
  | none ↦ ok tt (record s {
    page_free_list = some p;
    pages = update s.pages p (record (s.pages p) { pp_link = s.page_free_list });
  })
]

-- `pp_ref` is a `uint16_t`.
unfoldable pub page_decref : ℕ → M (Unit {0})
unfolding page_free
page_decref p s =
    let ref = ((s.pages p).pp_ref + 2 ^ 16 - 1) % 2 ^ 16 in
    let s₁ = put_page p (record (s.pages p) { pp_ref = ref }) s in
    if ref == 0 then page_free p s₁ else ok tt s₁

-- `pp->pp_ref++`
abbrev pub incref : ℕ → Vm → Vm
incref p s = put_page p (record (s.pages p) { pp_ref = ((s.pages p).pp_ref + 1) % 2 ^ 16 }) s
