-- ===== src/Vm/Pages/FreeList.antt =====
-- The free list of kern/pmap.c: what `page_init` puts in it, and how pages leave and return.
use mathlib.Core.Path.{subst}
use sistemas_operativos.Base.{
  ℕ, zero, suc, ◌+◌, ◌≤◌, Bool, true, false, Option, none, some, ◌==◌, if◌then◌else◌, ◌≡◌, refl,
  inl, inr, arith, ==_refl, Bool-cases, List, [], ◌∷◌, has, Distinct,
}
use sistemas_operativos.Vm.State.{PageInfo, Vm, ok, update}
use sistemas_operativos.Vm.Pages.{
  is_reserved, init_page, init_pages, page_init, page_alloc, page_free,
}

-- The list of pages that starts with `o`, by `pp_link`.
abbrev pub Chain : Option ℕ → List ℕ → (ℕ → PageInfo) → Type 0
Chain o [] pages = o ≡ none
Chain o (p ∷ ps) pages = (o ≡ some p) × Chain (pages p).pp_link ps pages

Chain-update :
    (o : Option ℕ) (ps : List ℕ) (pages : ℕ → PageInfo) (p : ℕ) (v : PageInfo)
    → has p ps ≡ false
    → Chain o ps pages
    → Chain o ps (update pages p v)
Chain-update o [] pages p v apart c = c
Chain-update o (q ∷ ps) pages p v apart c =
    (c.0, rw (apart_head) (Chain-update (pages q).pp_link ps pages p v apart_tail c.1))
  where
    apart_head : (q == p) ≡ false
    apart_head = ground arith

    apart_tail : has p ps ≡ false
    apart_tail = ground arith

-- The pages below `n` that are not reserved, the highest first.
abbrev pub unreserved : (first_free n : ℕ) → List ℕ
unreserved first_free zero = []
unreserved first_free (suc n) =
    let rest = unreserved first_free n in if is_reserved first_free n then rest else n ∷ rest

has-unreserved : (first_free n p : ℕ) → n ≤ p → has p (unreserved first_free n) ≡ false
has-unreserved first_free zero p h = refl
has-unreserved first_free (suc n) p h = ground (arith, has-unreserved first_free n p (omega arith))

init_page-Chain :
    (first_free i : ℕ) (s : Vm)
    → Chain s.page_free_list (unreserved first_free i) s.pages
    → Chain
        (init_page first_free i s).page_free_list
        (unreserved first_free (suc i))
        (init_page first_free i s).pages
unfolding init_page
init_page-Chain first_free i s c = elim (Bool-cases (is_reserved first_free i)) [
  | inl kept ↦
      rw (kept) (Chain-update _ _ s.pages i _ (has-unreserved first_free i i (omega arith)) c)
  | inr free ↦ rw (free) (
    refl,
    rw (==_refl i) (Chain-update _ _ s.pages i _ (has-unreserved first_free i i (omega arith)) c),
  )
]

init_pages-Chain :
    (first_free n i m : ℕ) (s : Vm)
    → i + n ≡ m
    → Chain s.page_free_list (unreserved first_free i) s.pages
    → Chain
        (init_pages first_free n i s).page_free_list
        (unreserved first_free m)
        (init_pages first_free n i s).pages
unfolding init_pages
init_pages-Chain first_free zero i m s e c =
    subst (λ k. Chain s.page_free_list (unreserved first_free k) s.pages) here c
  where
    here : i ≡ m
    here = omega arith
init_pages-Chain first_free (suc n) i m s e c =
    init_pages-Chain first_free n (i + 1) m s₁ (omega arith) (
      subst (λ k. Chain s₁.page_free_list (unreserved first_free k) s₁.pages) next
        (init_page-Chain first_free i s c))
  where
    s₁ : Vm
    s₁ = init_page first_free i s

    next : suc i ≡ i + 1
    next = omega arith

-- Started with an empty free list, `page_init` links every page below `npages` that is not reserved, each
-- once, the highest first, and no other.
pub page_init-Chain :
    (first_free : ℕ) (s : Vm)
    → s.page_free_list ≡ none
    → Chain
        (page_init first_free s).page_free_list
        (unreserved first_free s.npages)
        (page_init first_free s).pages
unfolding page_init
page_init-Chain first_free s empty =
    init_pages-Chain first_free s.npages 0 s.npages s (omega arith) (rw (empty) refl)

-- The state after a page went to the free list.
abbrev pub pushed : ℕ → Vm → Vm
pushed p s = record s {
  page_free_list = some p;
  pages = update s.pages p (record (s.pages p) { pp_link = s.page_free_list });
}

pub page_free-pushed :
    (p : ℕ) (s : Vm)
    → ((s.pages p).pp_ref == 0) ≡ true
    → (s.pages p).pp_link ≡ none
    → page_free p s ≡ ok tt (pushed p s)
unfolding page_free
page_free-pushed p s e l = rw (e, l) refl

-- The state after the head `p` left the free list.
abbrev popped : (zeroed : Bool) → ℕ → Vm → Vm
popped zeroed p s = record s {
  page_free_list = (s.pages p).pp_link;
  pages = update s.pages p (record (s.pages p) { pp_link = none });
  words = if zeroed then update s.words p (λ _. 0) else s.words;
}

-- From a free list of distinct pages whose head `p` has no references, `page_alloc` gives `p`, cut off
-- from the list, and leaves the rest as the list; `page_free` of `p` then succeeds and restores the list.
pub page_alloc-Chain :
    (zeroed : Bool) (p : ℕ) (ps : List ℕ) (s : Vm)
    → Chain s.page_free_list (p ∷ ps) s.pages
    → Distinct (p ∷ ps)
    → (s.pages p).pp_ref ≡ 0
    → (s₁ s₂ : Vm) × (page_alloc zeroed s ≡ ok (some p) s₁)
      × Chain s₁.page_free_list ps s₁.pages
      × ((s₁.pages p).pp_link ≡ none)
      × (page_free p s₁ ≡ ok tt s₂)
      × Chain s₂.page_free_list (p ∷ ps) s₂.pages
unfolding page_alloc
page_alloc-Chain zeroed p ps s c d e = (
  popped zeroed p s,
  pushed p (popped zeroed p s),
  rw (c.0) refl,
  Chain-update _ ps s.pages p _ d.0 c.1,
  rw (==_refl p) refl,
  page_free-pushed p (popped zeroed p s) (rw (==_refl p, e) refl) (rw (==_refl p) refl),
  (
    refl,
    rw (==_refl p) (
        Chain-update _ ps (popped zeroed p s).pages p _ d.0
          (Chain-update _ ps s.pages p _ d.0 c.1)),
  ),
)

-- The last page of the free list can be freed again: its link is NULL as if it were in use, and then
-- leads to itself.
pub page_free-twice :
    (p : ℕ) (s : Vm)
    → s.page_free_list ≡ none
    → (s.pages p).pp_ref ≡ 0
    → (s.pages p).pp_link ≡ none
    → (s₁ s₂ : Vm) × (page_free p s ≡ ok tt s₁)
      × (page_free p s₁ ≡ ok tt s₂)
      × ((s₂.pages p).pp_link ≡ some p)
page_free-twice p s empty e l = (
  pushed p s,
  pushed p (pushed p s),
  page_free-pushed p s (rw (e) refl) l,
  page_free-pushed p (pushed p s) (rw (==_refl p, e) refl) (rw (==_refl p) empty),
  rw (==_refl p) refl,
)
