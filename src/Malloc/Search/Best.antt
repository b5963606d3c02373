-- ===== src/Malloc/Search/Best.antt =====
-- The best-fit search of malloc.c: a region that is free, large enough, and none such is smaller.
use sistemas_operativos.Base.{
  ℕ, zero, suc, ◌+◌, ◌-◌, ◌≤◌, ◌<◌, ◌≡◌, ◌≢◌, refl, true, false, List, [], ◌∷◌, ◌++◌, some, arith,
  ◌==◌, has, ==_refl, ◌⊎◌, inl, inr, has-append, Bool-cases, ==→eq,
}
use sistemas_operativos.Malloc.State.{Ptr, null, region_header, Heap, block2region}
use sistemas_operativos.Malloc.Search.{
  fits, better, loop_for_best_fit_region, best_fit_blocks, find_region_best_fit,
}
use sistemas_operativos.Malloc.Search.Arena.{
  head_block, all_regions, mapped_size, Blocks, IsArena, head-Tiles, null-Tiles,
}
use sistemas_operativos.Malloc.Regions.Tiles.{head_or, Tiles, le-stop}

-- What a search keeps of the regions it has seen.
abbrev pub best_of : ℕ → Heap → (best : Ptr) → List Ptr → Ptr
best_of size h best [] = best
best_of size h best (x ∷ xs) = best_of size h (better size h x best) xs

-- `r` is NULL or a fitting region, and no region of `xs` that fits is smaller; NULL only where none
-- fits.
pub record IsBest (size : ℕ) (h : Heap) (r : Ptr) (xs : List Ptr) : Type 0 where
  pub fitting : r ≢ null → (has r xs ≡ true) × (fits size (h.regions r) ≡ true)
  pub least :
      (a : Ptr)
      → has a xs ≡ true
      → fits size (h.regions a) ≡ true
      → (r ≢ null) × ((h.regions r).size ≤ (h.regions a).size)

module _ (size : ℕ) (h : Heap) where
  best_of-append :
      (best : Ptr) (xs ys : List Ptr)
      → best_of size h best (xs ++ ys) ≡ best_of size h (best_of size h best xs) ys
  best_of-append best [] ys = refl
  best_of-append best (x ∷ xs) ys = best_of-append (better size h x best) xs ys

  better-cases :
      (x best : Ptr)
      → ((better size h x best ≡ x) × (fits size (h.regions x) ≡ true))
        ⊎ (better size h x best ≡ best)
  better-cases x best = ground arith

  -- What holds of the best after more regions, when it held of `best` and those in `seen`.
  best_of-fits :
      (best : Ptr) (xs : List Ptr)
      → (best ≢ null → fits size (h.regions best) ≡ true)
      → best_of size h best xs ≢ null
      → ((best_of size h best xs ≡ best) ⊎ (has (best_of size h best xs) xs ≡ true))
        × (fits size (h.regions (best_of size h best xs)) ≡ true)
  best_of-fits best [] old ne = (inl refl, old ne)
  best_of-fits best (x ∷ xs) old ne =
      let rest = best_of-fits (better size h x best) xs (λ n. ground arith) ne in
      elim (better-cases x best) [
        | inl new ↦ ground (arith, rest, new, ==_refl x)
        | inr kept ↦ ground (arith, rest, kept)
      ]

  better-below :
      (x best n : ℕ)
      → x ≢ null
      → best ≢ null
      → (h.regions best).size ≤ n
      → (better size h x best ≢ null) × ((h.regions (better size h x best)).size ≤ n)
  better-below x best n ne old le = (ground arith, ground arith)

  better-takes :
      (x best : ℕ)
      → x ≢ null
      → fits size (h.regions x) ≡ true
      → (better size h x best ≢ null)
        × ((h.regions (better size h x best)).size ≤ (h.regions x).size)
  better-takes x best ne fit = (ground arith, ground arith)

  best_of-below :
      (best n : ℕ) (xs : List Ptr)
      → has null xs ≡ false
      → best ≢ null
      → (h.regions best).size ≤ n
      → (best_of size h best xs ≢ null) × ((h.regions (best_of size h best xs)).size ≤ n)
  best_of-below best n [] free ne le = (ne, le)
  best_of-below best n (x ∷ xs) free ne le =
      let b = better-below x best n (ground arith) ne le in
      best_of-below (better size h x best) n xs (ground arith) b.0 b.1

  best_of-least :
      (best a : Ptr) (xs : List Ptr)
      → has null xs ≡ false
      → has a xs ≡ true
      → fits size (h.regions a) ≡ true
      → (best_of size h best xs ≢ null)
        × ((h.regions (best_of size h best xs)).size ≤ (h.regions a).size)
  best_of-least best a [] n i fit = cc
  best_of-least best a (x ∷ xs) n i fit = elim (Bool-cases (a == x)) [
    | inl same ↦
        let e = ==→eq a x same in
        let b = better-takes x best (ground arith) (rw e at fit) in
        rw e (best_of-below (better size h x best) (h.regions x).size xs (ground arith) b.0 b.1)
    | inr other ↦ best_of-least (better size h x best) a xs (ground arith) (ground arith) fit
  ]

  loop_for_best_fit_region-best :
      (fuel p stop : ℕ) (best : Ptr) (xs : List Ptr)
      → Tiles h.regions p stop xs
      → 0 < p
      → stop - p < fuel
      → loop_for_best_fit_region fuel (head_or null xs) size best h ≡ some (best_of size h best xs)
  unfolding loop_for_best_fit_region
  loop_for_best_fit_region-best zero p stop best xs t pos enough = absurd (omega arith)
  loop_for_best_fit_region-best (suc fuel) p stop best [] t pos enough = refl
  loop_for_best_fit_region-best (suc fuel) p stop best (x ∷ xs) t pos enough =
      let far = le-stop h.regions (x + region_header + (h.regions x).size) stop xs t.2 in
      let rest =
        loop_for_best_fit_region-best fuel (x + region_header + (h.regions x).size) stop
          (better size h x best) xs t.2 (omega arith) (omega (arith, t.0)) in
      let some_region : (x == null) ≡ false = ground (arith, t.0) in rw (some_region, t.1) rest

  best_fit_blocks-best :
      (fuel : ℕ) (best : Ptr) (cs : List (Ptr × List Ptr))
      → Blocks h cs
      → mapped_size h cs < fuel
      → best_fit_blocks fuel (head_block cs) size best h
        ≡ some (best_of size h best (all_regions cs))
  unfolding best_fit_blocks
  best_fit_blocks-best zero best cs b enough = absurd (omega arith)
  best_fit_blocks-best (suc fuel) best [] b enough = refl
  best_fit_blocks-best (suc fuel) best (c ∷ cs) b enough =
      let from = block2region c.0 in
      let stop = from + (h.blocks c.0).size in
      let inner =
        loop_for_best_fit_region-best ((h.blocks c.0).size + 1) from stop best c.1 b.3 (omega arith)
          (omega arith) in
      let head = head-Tiles size h from stop c.1 b.3 (omega (arith, b.2)) in
      let some_block : (c.0 == null) ≡ false = ground (arith, b.0) in
      rw (some_block, rw head at inner, b.1, best_of-append best c.1 (all_regions cs))
        (best_fit_blocks-best fuel (best_of size h best c.1) cs b.4 (omega (arith, b.2)))

  null-Blocks : (cs : List (Ptr × List Ptr)) → Blocks h cs → has null (all_regions cs) ≡ false
  null-Blocks [] b = refl
  null-Blocks (c ∷ cs) b = ground (
    arith,
    has-append null c.1 (all_regions cs),
    null-Tiles size h (block2region c.0) (block2region c.0 + (h.blocks c.0).size) c.1 b.3,
    null-Blocks cs b.4,
  )

  -- `find_region_best_fit` ends. It returns NULL only where no region of the blocks is free and
  -- large enough, and else such a region of the least size.
  pub find_region_best_fit-IsBest :
      (cs : List (Ptr × List Ptr))
      → IsArena h cs
      → (r : Ptr) × (find_region_best_fit size h ≡ some r) × IsBest size h r (all_regions cs)
  unfolding find_region_best_fit
  find_region_best_fit-IsBest cs a = (
    best_of size h null (all_regions cs),
    simp (a.first)
        (best_fit_blocks-best (h.total_mmy + 1) null cs a.blocks (omega (arith, a.total))),
    record {
      fitting = λ ne.
          let f = best_of-fits null (all_regions cs) (λ n. absurd (n refl)) ne in
          (ground (arith, f.0), f.1);
      least = λ b i fit. best_of-least null b (all_regions cs) (null-Blocks cs a.blocks) i fit;
    },
  )
