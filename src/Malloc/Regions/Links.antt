-- ===== src/Malloc/Regions/Links.antt =====
-- The back links of the regions of a block in malloc.c: coalescing keeps them, a split does not.
use mathlib.Core.Path.{subst}
use sistemas_operativos.Base.{
  ℕ, ◌+◌, ◌≤◌, ◌<◌, ◌≡◌, refl, ap, sym, ◌∙◌, ◌≢◌, inl, inr, true, false, List, [], ◌∷◌, arith, ◌==◌,
  if◌then◌else◌, ==_refl, Bool-cases, ==→eq, has, erase, Distinct,
}
use sistemas_operativos.Malloc.State.{Ptr, null, size_mod, region_header, Region, Heap}
use sistemas_operativos.Malloc.Regions.{split_region, coalesce_region_with_its_next}
use sistemas_operativos.Malloc.Regions.Tiles.{
  head_or, Tiles, insert_after, next_of, next_of-has, within, next-Tiles, next_of-end,
  split_region-IsSplit, not-has-inside, Tiles-Distinct, next_of-has,
}

-- Each region of the list links back to the one before it, the first one to `prev`.
abbrev pub Prevs : (Ptr → Region) → (prev : Ptr) → List Ptr → Type 0
Prevs g prev [] = Unit
Prevs g prev (x ∷ xs) = ((g x).prev ≡ prev) × Prevs g x xs

pub Prevs-frame :
    (g g' : Ptr → Region) (prev : Ptr) (xs : List Ptr)
    → Prevs g prev xs
    → ((a : Ptr) → has a xs ≡ true → (g' a).prev ≡ (g a).prev)
    → Prevs g' prev xs
Prevs-frame g g' prev [] v same = tt
Prevs-frame g g' prev (x ∷ xs) v same =
    (ground (arith, same x, ==_refl x), Prevs-frame g g' x xs v.1 (λ a m. same a (ground arith)))

-- The region behind `x` links back to it.
prev-next_of :
    (g : Ptr → Region) (prev x : Ptr) (xs : List Ptr)
    → Prevs g prev xs
    → has x xs ≡ true
    → next_of x xs ≢ null
    → (g (next_of x xs)).prev ≡ x
prev-next_of g prev x [] v m ne = cc
prev-next_of g prev x (z ∷ []) v m ne = absurd (ground arith)
prev-next_of g prev x (z ∷ w ∷ ws) v m ne = ground (arith, prev-next_of g z x (w ∷ ws) v.1)

next_of-insert_after :
    (x y : Ptr) (xs : List Ptr)
    → has x xs ≡ true
    → has y xs ≡ false
    → next_of y (insert_after x y xs) ≡ next_of x xs
next_of-insert_after x y [] m out = cc
next_of-insert_after x y (z ∷ zs) m out = ground (arith, next_of-insert_after x y zs, ==_refl y)

has-insert_after :
    (x y : Ptr) (xs : List Ptr) → has x xs ≡ true → has y (insert_after x y xs) ≡ true
has-insert_after x y [] m = cc
has-insert_after x y (z ∷ zs) m = ground (arith, has-insert_after x y zs, ==_refl y)

head-ne :
    (z : Ptr) (ws : List Ptr)
    → has z ws ≡ false
    → (z == null) ≡ false
    → (z == head_or null ws) ≡ false
head-ne z [] out ne = ne
head-ne z (w ∷ ws) out ne = ground arith

-- The list behind a region, with the back link of its head turned to `z`.
Prevs-head :
    (g g' : Ptr → Region) (w z : Ptr) (ws : List Ptr)
    → Prevs g w ws
    → Distinct ws
    → ((a : Ptr) → has a ws ≡ true → (g' a).prev ≡ (if a == head_or null ws then z else (g a).prev))
    → Prevs g' z ws
Prevs-head g g' w z [] v d same = tt
Prevs-head g g' w z (u ∷ us) v d same =
    (ground (arith, same u, ==_refl u), Prevs-frame g g' u us v.1 (λ a m. ground (arith, same a)))

-- The back links after `x` was joined with the region behind it: the one behind both links to `x`.
Prevs-erase :
    (g g' : Ptr → Region) (prev x : Ptr) (xs : List Ptr)
    → Prevs g prev xs
    → Distinct xs
    → has x xs ≡ true
    → has null xs ≡ false
    → next_of x xs ≢ null
    → ((a : Ptr)
        → has a xs ≡ true
        → (g' a).prev ≡ (if a == next_of (next_of x xs) xs then x else (g a).prev))
    → Prevs g' prev (erase (next_of x xs) xs)
Prevs-erase g g' prev x [] v d m nn ne same = cc
Prevs-erase g g' prev x (z ∷ []) v d m nn ne same = absurd (ground arith)
Prevs-erase g g' prev x (z ∷ w ∷ ws) v d m nn ne same = elim (Bool-cases (z == x)) [
  | inl hit ↦
      let y : next_of x (z ∷ w ∷ ws) ≡ w = rw hit refl in
      let far : (z == w) ≡ false = ground arith in
      rw (y, far, ==_refl w)
        (
          ground (arith, same z, y, ==_refl w, ==_refl z, head-ne z ws),
          Prevs-head g g' w z ws v.1.1 d.1.1
              (λ a k. ground (arith, same a, y, ==_refl w, far, ==→eq z x hit)),
        )
  | inr miss ↦
      let k : has x (w ∷ ws) ≡ true = ground arith in
      let y : next_of x (z ∷ w ∷ ws) ≡ next_of x (w ∷ ws) = rw miss refl in
      let ne' : next_of x (w ∷ ws) ≢ null = rw y at ne in
      let later = next_of-has x w ws ne' in
      let far : (z == next_of x (w ∷ ws)) ≡ false = ground arith in
      let n : next_of (next_of x (z ∷ w ∷ ws)) (z ∷ w ∷ ws)
          ≡ next_of (next_of x (w ∷ ws)) (w ∷ ws) =
        ap (λ (q : Ptr). next_of q (z ∷ w ∷ ws)) y ∙ (rw far refl) in
      subst (λ (q : Ptr). Prevs g' prev (erase q (z ∷ w ∷ ws))) (sym y)
        (rw far (
          ground (arith, same z, n, ==_refl z, next_of-has (next_of x (w ∷ ws)) w ws),
          Prevs-erase g g' z x (w ∷ ws) v.1 d.1 k (ground arith) ne'
              (λ a i. ground (arith, same a, n)),
        ))
]

module _ (x p stop : ℕ) (xs : List Ptr) (h : Heap) (t : Tiles h.regions p stop xs)
    (v : Prevs h.regions null xs) (m : has x xs ≡ true) (small : stop < size_mod)
    (pos : 0 < p) where
  -- Where a region follows the one that `split_region` cuts, its back link still leads to the old
  -- region and not to the new one: the block's back links are wrong after the split.
  split_region-stale :
      (size : ℕ)
      → size + region_header ≤ (h.regions x).size
      → next_of x xs ≢ null
      → (((split_region x size h).regions (next_of x xs)).prev ≡ x)
        × (¬ Prevs
            (split_region x size h).regions
            null
            (insert_after x (x + region_header + size) xs))
  split_region-stale size room ne =
      let b = next_of-end h.regions x p stop xs t m ne in
      let kept : ((split_region x size h).regions (next_of x xs)).prev ≡ x = ground (
        arith,
        prev-next_of h.regions null x xs v m ne,
        b.0,
        (split_region-IsSplit x size h (omega (arith, within h.regions x p stop xs t m))
              room).others
            (next_of x xs),
      ) in
      let fresh : has (x + region_header + size) xs ≡ false =
        not-has-inside h.regions (x + region_header + size) x p stop xs t m (omega arith)
          (omega arith) in
      (
        kept,
        λ w. ground (
          arith,
          prev-next_of (split_region x size h).regions null (x + region_header + size)
              (insert_after x (x + region_header + size) xs) w,
          next_of-insert_after x (x + region_header + size) xs m fresh,
          has-insert_after x (x + region_header + size) xs m,
          kept,
        ),
      )

  -- Coalescing with the next region keeps the back links right.
  pub coalesce-Prevs :
      next_of x xs ≢ null
      → Prevs (coalesce_region_with_its_next x h).regions null (erase (next_of x xs) xs)
  unfolding coalesce_region_with_its_next
  coalesce-Prevs ne =
      let y = next_of-end h.regions x p stop xs t m ne in
      let ex = next-Tiles h.regions x p stop xs t m in
      let ey = next-Tiles h.regions (next_of x xs) p stop xs t y.1 in
      let nn : has null xs ≡ false = ground (arith, within h.regions null p stop xs t) in
      Prevs-erase h.regions (coalesce_region_with_its_next x h).regions null x xs v
        (Tiles-Distinct h.regions p stop xs t) m nn ne (λ a k. ground (arith, ex, ey, ==_refl x))
