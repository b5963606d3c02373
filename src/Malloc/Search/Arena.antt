-- ===== src/Malloc/Search/Arena.antt =====
-- The whole arena of malloc.c as a list: each block with the regions that fill it.
use sistemas_operativos.Base.{
  ℕ, zero, suc, ◌+◌, ◌-◌, ◌<◌, ◌≡◌, ◌≢◌, refl, false, List, [], ◌∷◌, ◌++◌, some, arith, ◌==◌,
  if◌then◌else◌, has, Bool-cases, inl, inr,
}
use sistemas_operativos.Malloc.State.{Ptr, null, region_header, Region, Heap, block2region}
use sistemas_operativos.Malloc.Search.{
  fits, loop_for_first_fit_region, first_fit_blocks, find_region_first_fit,
}
use sistemas_operativos.Malloc.Regions.Tiles.{head_or, Tiles, le-stop, within}

abbrev pub head_block : List (Ptr × List Ptr) → Ptr
head_block [] = null
head_block (c ∷ cs) = c.0

abbrev pub all_regions : List (Ptr × List Ptr) → List Ptr
all_regions [] = []
all_regions (c ∷ cs) = c.1 ++ all_regions cs

-- The sum of the sizes of the blocks.
abbrev pub mapped_size : Heap → List (Ptr × List Ptr) → ℕ
mapped_size h [] = 0
mapped_size h (c ∷ cs) = (h.blocks c.0).size + mapped_size h cs

-- The blocks are linked in order, and the regions of each fill it.
abbrev pub Blocks : Heap → List (Ptr × List Ptr) → Type 0
Blocks h [] = Unit
Blocks h (c ∷ cs) =
    (c.0 ≢ null)
    × ((h.blocks c.0).next ≡ head_block cs)
    × (0 < (h.blocks c.0).size)
    × Tiles h.regions (block2region c.0) (block2region c.0 + (h.blocks c.0).size) c.1
    × Blocks h cs

-- The list of blocks of the allocator is `cs`, and `total_mmy` counts their bytes.
pub record IsArena (h : Heap) (cs : List (Ptr × List Ptr)) : Type 0 where
  pub first : h.block_header_list ≡ head_block cs
  pub blocks : Blocks h cs
  pub total : h.total_mmy ≡ mapped_size h cs

-- The first region of a list that is free and large enough.
abbrev pub first_fitting : (Ptr → Region) → ℕ → List Ptr → Ptr
first_fitting g size [] = null
first_fitting g size (x ∷ xs) = if fits size (g x) then x else first_fitting g size xs

first_fitting-append :
    (g : Ptr → Region) (size : ℕ) (xs ys : List Ptr)
    → has null xs ≡ false
    → first_fitting g size (xs ++ ys) ≡ (
        if first_fitting g size xs == null
        then first_fitting g size ys
        else first_fitting g size xs)
first_fitting-append g size [] ys n = refl
first_fitting-append g size (x ∷ xs) ys n = ground (arith, first_fitting-append g size xs ys)

module _ (size : ℕ) (h : Heap) where
  loop_for_first_fit_region-first :
      (fuel p stop : ℕ) (xs : List Ptr)
      → Tiles h.regions p stop xs
      → 0 < p
      → stop - p < fuel
      → loop_for_first_fit_region fuel (head_or null xs) size h
        ≡ some (first_fitting h.regions size xs)
  unfolding loop_for_first_fit_region
  loop_for_first_fit_region-first zero p stop xs t pos enough = absurd (omega arith)
  loop_for_first_fit_region-first (suc fuel) p stop [] t pos enough = refl
  loop_for_first_fit_region-first (suc fuel) p stop (x ∷ xs) t pos enough =
      let far = le-stop h.regions (x + region_header + (h.regions x).size) stop xs t.2 in
      let rest =
        loop_for_first_fit_region-first fuel (x + region_header + (h.regions x).size) stop xs t.2
          (omega arith) (omega (arith, t.0)) in
      ground (arith, t.1, rest, t.0)

  pub head-Tiles :
      (p stop : ℕ) (xs : List Ptr) → Tiles h.regions p stop xs → p < stop → head_or null xs ≡ p
  head-Tiles p stop [] t below = absurd (omega arith)
  head-Tiles p stop (x ∷ xs) t below = omega (arith, t.0)

  pub null-Tiles :
      (p stop : ℕ) (xs : List Ptr) → Tiles h.regions p stop xs → 0 < p → has null xs ≡ false
  null-Tiles p stop xs t pos = ground (arith, within h.regions null p stop xs t)

  first_fit_blocks-first :
      (fuel : ℕ) (cs : List (Ptr × List Ptr))
      → Blocks h cs
      → mapped_size h cs < fuel
      → first_fit_blocks fuel (head_block cs) size h
        ≡ some (first_fitting h.regions size (all_regions cs))
  unfolding first_fit_blocks
  first_fit_blocks-first zero cs b enough = absurd (omega arith)
  first_fit_blocks-first (suc fuel) [] b enough = refl
  first_fit_blocks-first (suc fuel) (c ∷ cs) b enough =
      let from = block2region c.0 in
      let stop = from + (h.blocks c.0).size in
      let inner =
        loop_for_first_fit_region-first ((h.blocks c.0).size + 1) from stop c.1 b.3 (omega arith)
          (omega arith) in
      let head = head-Tiles from stop c.1 b.3 (omega (arith, b.2)) in
      let rest = first_fit_blocks-first fuel cs b.4 (omega (arith, b.2)) in
      let some_block : (c.0 == null) ≡ false = ground (arith, b.0) in
      rw
        (
          some_block,
          rw head at inner,
          b.1,
          rest,
          first_fitting-append h.regions size c.1 (all_regions cs)
              (null-Tiles from stop c.1 b.3 (omega arith)),
        )
        (elim (Bool-cases (first_fitting h.regions size c.1 == null)) [
          | inl hit ↦ rw hit refl
          | inr miss ↦ rw miss refl
        ])

  -- `find_region_first_fit` ends, and returns the first region of the blocks in their order that is
  -- free and large enough, or NULL if there is none.
  pub find_region_first_fit-first :
      (cs : List (Ptr × List Ptr))
      → IsArena h cs
      → find_region_first_fit size h ≡ some (first_fitting h.regions size (all_regions cs))
  unfolding find_region_first_fit
  find_region_first_fit-first cs a =
      simp (a.first) (first_fit_blocks-first (h.total_mmy + 1) cs a.blocks (omega (arith, a.total)))
