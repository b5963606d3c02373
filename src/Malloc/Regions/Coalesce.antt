-- ===== src/Malloc/Regions/Coalesce.antt =====
-- `try_coalesce_regions` of malloc.c: the region that was freed, joined with its free neighbours.
use sistemas_operativos.Base.{
  ℕ, ◌<◌, ◌≡◌, refl, ◌∙◌, ◌≢◌, ◌⊎◌, inl, inr, Bool, true, false, not, ◌&&◌, List, [], ◌∷◌, arith,
  ◌==◌, if◌then◌else◌, ==_refl, Bool-cases, has, erase, Distinct,
}
use sistemas_operativos.Malloc.State.{Ptr, null, size_mod, Region, Heap}
use sistemas_operativos.Malloc.Regions.{
  coalesce_region_with_its_next, coalesce_next, coalesce_prev, try_coalesce_regions,
}
use sistemas_operativos.Malloc.Regions.Tiles.{
  head_or, Tiles, next_of, next-Tiles, next_of-end, Tiles-Distinct, within, coalesce-Tiles,
}
use sistemas_operativos.Malloc.Regions.Links.{Prevs, coalesce-Prevs}

-- A block: regions that fill it, linked both ways.
pub record IsBlock (g : Ptr → Region) (p stop : Ptr) (xs : List Ptr) : Type 0 where
  pub tiles : Tiles g p stop xs
  pub prevs : Prevs g null xs

has-erase :
    (x y : Ptr) (xs : List Ptr) → has x xs ≡ true → (x == y) ≡ false → has x (erase y xs) ≡ true
has-erase x y [] m ne = m
has-erase x y (z ∷ zs) m ne = ground (arith, has-erase x y zs)

-- The region that the back link of `x` leads to is the one before it.
prev-before :
    (g : Ptr → Region) (prev x : Ptr) (xs : List Ptr)
    → Prevs g prev xs
    → Distinct xs
    → has x xs ≡ true
    → (((g x).prev ≡ prev) × (x ≡ head_or null xs))
      ⊎ ((has (g x).prev xs ≡ true) × (next_of (g x).prev xs ≡ x))
prev-before g prev x [] v d m = cc
prev-before g prev x (z ∷ []) v d m = inl (ground arith, ground arith)
prev-before g prev x (z ∷ w ∷ ws) v d m = elim (Bool-cases (x == z)) [
  | inl here ↦ inl (ground arith, ground arith)
  | inr later ↦ elim (prev-before g z x (w ∷ ws) v.1 d.1 (ground arith)) [
    | inl second ↦ inr (ground (arith, second, ==_refl z), ground (arith, second, ==_refl z))
    | inr far ↦ inr (ground (arith, far), ground (arith, far, d.0))
  ]
]

module _ (x p stop : ℕ) (xs : List Ptr) (h : Heap) (b : IsBlock h.regions p stop xs)
    (m : has x xs ≡ true) (small : stop < size_mod) (pos : 0 < p) where
  -- Coalescing with the next region keeps a block.
  coalesce-IsBlock :
      (h.regions x).next ≢ null
      → IsBlock (coalesce_region_with_its_next x h).regions p stop (erase (next_of x xs) xs)
  coalesce-IsBlock ne =
      let some_next : next_of x xs ≢ null = rw (next-Tiles h.regions x p stop xs b.tiles m) at ne in
      record {
        tiles = coalesce-Tiles x p stop xs h b.tiles m small some_next;
        prevs = coalesce-Prevs x p stop xs h b.tiles b.prevs m small pos some_next;
      }

  kept-next : (h.regions x).next ≢ null → has x (erase (next_of x xs) xs) ≡ true
  kept-next ne =
      let some_next : next_of x xs ≢ null = rw (next-Tiles h.regions x p stop xs b.tiles m) at ne in
      let e = next_of-end h.regions x p stop xs b.tiles m some_next in
      has-erase x (next_of x xs) xs m (ground (arith, e.0))

coalesce-free :
    (x a : Ptr) (h : Heap)
    → ((coalesce_region_with_its_next x h).regions a).free ≡ (h.regions a).free
unfolding coalesce_region_with_its_next
coalesce-free x a h = ground arith

coalesce_next-joins :
    (x : Ptr) (h : Heap)
    → (not ((h.regions x).next == null) && (h.regions (h.regions x).next).free) ≡ true
    → coalesce_next x h ≡ coalesce_region_with_its_next x h
unfolding coalesce_next
coalesce_next-joins x h e = rw e refl

coalesce_next-keeps :
    (x : Ptr) (h : Heap)
    → (not ((h.regions x).next == null) && (h.regions (h.regions x).next).free) ≡ false
    → coalesce_next x h ≡ h
unfolding coalesce_next
coalesce_next-keeps x h e = rw e refl

coalesce_prev-joins :
    (x : Ptr) (h : Heap)
    → (not ((h.regions x).prev == null) && (h.regions (h.regions x).prev).free) ≡ true
    → coalesce_prev x h ≡ ((h.regions x).prev, coalesce_region_with_its_next (h.regions x).prev h)
unfolding coalesce_prev
coalesce_prev-joins x h e = rw e refl

coalesce_prev-keeps :
    (x : Ptr) (h : Heap)
    → (not ((h.regions x).prev == null) && (h.regions (h.regions x).prev).free) ≡ false
    → coalesce_prev x h ≡ (x, h)
unfolding coalesce_prev
coalesce_prev-keeps x h e = rw e refl

-- The region before `x`; `prev` stands before the list.
abbrev pub before_of : (prev x : Ptr) → List Ptr → Ptr
before_of prev x [] = null
before_of prev x (z ∷ zs) = if z == x then prev else before_of z x zs

pub prev-before_of :
    (g : Ptr → Region) (prev x : Ptr) (xs : List Ptr)
    → Prevs g prev xs
    → has x xs ≡ true
    → (g x).prev ≡ before_of prev x xs
prev-before_of g prev x [] v m = cc
prev-before_of g prev x (z ∷ zs) v m = ground (arith, prev-before_of g z x zs v.1)

-- The regions of a block after `x` is joined with the one behind it, where that is free, and then with the
-- one before it, where that is free; and the region that holds `x` then.
abbrev pub with_next : (is_free : Ptr → Bool) → (x : Ptr) → List Ptr → List Ptr
with_next is_free x xs =
    let n = next_of x xs in if not (n == null) && is_free n then erase n xs else xs

abbrev pub with_prev : (is_free : Ptr → Bool) → (x : Ptr) → List Ptr → List Ptr
with_prev is_free x xs =
    let q = before_of null x xs in if not (q == null) && is_free q then erase x xs else xs

abbrev pub holder : (is_free : Ptr → Bool) → (x : Ptr) → List Ptr → Ptr
holder is_free x xs = let q = before_of null x xs in if not (q == null) && is_free q then q else x

-- Which regions are free.
abbrev pub free_in : Heap → Ptr → Bool
free_in h a = (h.regions a).free

module _ (x p stop : ℕ) (xs : List Ptr) (h : Heap) (b : IsBlock h.regions p stop xs)
    (m : has x xs ≡ true) (small : stop < size_mod) (pos : 0 < p) where
  coalesce_next-IsBlock :
      let ys = with_next (free_in h) x xs in
      IsBlock (coalesce_next x h).regions p stop ys
      × (has x ys ≡ true)
      × ((a : Ptr) → free_in (coalesce_next x h) a ≡ free_in h a)
  coalesce_next-IsBlock =
      let at = next-Tiles h.regions x p stop xs b.tiles m in
      elim (Bool-cases (not ((h.regions x).next == null) && (h.regions (h.regions x).next).free)) [
        | inl join ↦
            let ne : (h.regions x).next ≢ null = ground arith in
            let join' : (not (next_of x xs == null) && free_in h (next_of x xs)) ≡ true =
              rw at at join in
            rw (coalesce_next-joins x h join, join')
              (
                coalesce-IsBlock x p stop xs h b m small pos ne,
                kept-next x p stop xs h b m small pos ne,
                λ a. coalesce-free x a h,
              )
        | inr keep ↦
            let keep' : (not (next_of x xs == null) && free_in h (next_of x xs)) ≡ false =
              rw at at keep in
            rw (coalesce_next-keeps x h keep, keep') (b, m, λ a. refl)
      ]

  coalesce_prev-IsBlock :
      (is_free : Ptr → Bool)
      → ((a : Ptr) → free_in h a ≡ is_free a)
      → let r = coalesce_prev x h in
        IsBlock r.1.regions p stop (with_prev is_free x xs)
        × (r.0 ≡ holder is_free x xs)
        × (has r.0 (with_prev is_free x xs) ≡ true)
        × ((h.regions x).free ≡ true → (r.1.regions r.0).free ≡ true)
        × ((a : Ptr) → free_in r.1 a ≡ is_free a)
  coalesce_prev-IsBlock is_free flags =
      let at = prev-before_of h.regions null x xs b.prevs m in
      let q = before_of null x xs in
      elim (Bool-cases (not ((h.regions x).prev == null) && (h.regions (h.regions x).prev).free)) [
        | inl join ↦
            let join' : (not (q == null) && is_free q) ≡ true = rw (← flags q) (rw at at join) in
            let before : (has (h.regions x).prev xs ≡ true) × (next_of (h.regions x).prev xs ≡ x) =
              ground (
                arith,
                prev-before h.regions null x xs b.prevs (Tiles-Distinct h.regions p stop xs b.tiles)
                    m,
              ) in
            let ne : (h.regions (h.regions x).prev).next ≢ null = ground (
              arith,
              next-Tiles h.regions (h.regions x).prev p stop xs b.tiles,
              before,
              within h.regions x p stop xs b.tiles m,
            ) in
            let joined = coalesce-IsBlock (h.regions x).prev p stop xs h b before.0 small pos ne in
            let kept = kept-next (h.regions x).prev p stop xs h b before.0 small pos ne in
            rw (coalesce_prev-joins x h join, join')
              (
                rw (before.1) at joined,
                at,
                rw (before.1) at kept,
                λ f. coalesce-free (h.regions x).prev (h.regions x).prev h ∙ (ground arith),
                λ a. coalesce-free (h.regions x).prev a h ∙ flags a,
              )
        | inr keep ↦
            let keep' : (not (q == null) && is_free q) ≡ false = rw (← flags q) (rw at at keep) in
            rw (coalesce_prev-keeps x h keep, keep') (b, refl, m, (λ f. f), flags)
      ]

module _ (x p stop : ℕ) (xs : List Ptr) (h : Heap) (b : IsBlock h.regions p stop xs)
    (m : has x xs ≡ true) (small : stop < size_mod) (pos : 0 < p) where
  -- `try_coalesce_regions` of a free region of a block joins it with the region behind it exactly where that
  -- is free, and with the one before it exactly where that is free. The regions that are left fill the same
  -- addresses and are linked both ways; the result is the one that holds the region, it is free, and no
  -- region has become free or used.
  pub try_coalesce_regions-IsBlock :
      (h.regions x).free ≡ true
      → let r = try_coalesce_regions x h in
        let ys = with_next (free_in h) x xs in
        IsBlock r.1.regions p stop (with_prev (free_in h) x ys)
        × (r.0 ≡ holder (free_in h) x ys)
        × (has r.0 (with_prev (free_in h) x ys) ≡ true)
        × ((r.1.regions r.0).free ≡ true)
        × ((a : Ptr) → free_in r.1 a ≡ free_in h a)
  unfolding try_coalesce_regions
  try_coalesce_regions-IsBlock free =
      let (block, there, flags) = coalesce_next-IsBlock x p stop xs h b m small pos in
      let (joined, held, has_it, is_free, flags') =
        coalesce_prev-IsBlock x p stop (with_next (free_in h) x xs) (coalesce_next x h) block there
          small pos (free_in h) flags in
      (joined, held, has_it, is_free (flags x ∙ free), flags')
