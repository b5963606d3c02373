-- ===== src/Malloc/Api/Take.antt =====
-- The region that `malloc` hands out: what marking it and splitting it leave of its block.
use sistemas_operativos.Base.{
  ℕ, ◌+◌, ◌-◌, ◌%◌, ◌≤◌, ◌<◌, ◌≡◌, refl, true, false, arith, ltb, ◌⊎◌, inl, inr, Bool-cases,
  ==_refl, ◌∙◌, List, has,
}
use sistemas_operativos.Malloc.State.{
  Ptr, size_mod, region_header, min_region_len, Heap, put_region,
}
use sistemas_operativos.Malloc.Search.{fits}
use sistemas_operativos.Malloc.Regions.{try_split_region, split_region}
use sistemas_operativos.Malloc.Regions.Tiles.{
  Tiles, insert_after, frame, within, split_region-Tiles, split_region-IsSplit,
}
use sistemas_operativos.Malloc.Api.{take_region}

split_region-flags :
    (x size : ℕ) (h : Heap)
    → x + region_header + (h.regions x).size < size_mod
    → size + region_header ≤ (h.regions x).size
    → (((split_region x size h).regions x).free ≡ (h.regions x).free)
      × (((split_region x size h).regions (x + region_header + size)).free ≡ true)
unfolding split_region
split_region-flags x size h end room = (ground arith, ground arith)

try_split_region-whole :
    (x size : ℕ) (h : Heap)
    → ltb (h.regions x).size ((size + region_header + min_region_len) % size_mod) ≡ true
    → try_split_region x size h ≡ h
unfolding try_split_region
try_split_region-whole x size h e = rw e refl

try_split_region-cut :
    (x size : ℕ) (h : Heap)
    → ltb (h.regions x).size ((size + region_header + min_region_len) % size_mod) ≡ false
    → try_split_region x size h ≡ split_region x size h
unfolding try_split_region
try_split_region-cut x size h e = rw e refl

module _ (x p stop size : ℕ) (xs : List Ptr) (h : Heap) (t : Tiles h.regions p stop xs)
    (m : has x xs ≡ true) (small : stop < size_mod - 96)
    (fit : fits size (h.regions x) ≡ true) where
  marked : Heap
  marked = put_region x (record (h.regions x) { free = false }) h

  marked-same : ((marked.regions x).size ≡ (h.regions x).size) × ((marked.regions x).free ≡ false)
  unfolding marked
  marked-same = (ground (arith, ==_refl x), ground (arith, ==_refl x))

  marked-Tiles : Tiles marked.regions p stop xs
  unfolding marked
  marked-Tiles =
      frame h.regions marked.regions p stop xs t
        (λ a i. (ground (arith, ==_refl x), ground (arith, ==_refl x)))

  take_region-marked : take_region x size h ≡ try_split_region x size marked
  unfolding take_region marked
  take_region-marked = refl

  take_region-whole :
      (h.regions x).size < size + region_header + min_region_len → take_region x size h ≡ marked
  take_region-whole whole =
      let w = within h.regions x p stop xs t m in
      take_region-marked ∙ try_split_region-whole x size marked (ground (arith, marked-same))

  take_region-cut :
      size + region_header + min_region_len ≤ (h.regions x).size
      → take_region x size h ≡ split_region x size marked
  take_region-cut cut =
      let w = within h.regions x p stop xs t m in
      take_region-marked ∙ try_split_region-cut x size marked (ground (arith, marked-same))

  -- `take_region` of a free region that is large enough leaves it in use with at least the size
  -- asked for and at most 95 bytes more, in a block that its regions still fill from end to end;
  -- what it cuts off is a free region of at least MIN_REGION_LEN bytes.
  pub take_region-Tiles :
      let g = (take_region x size h).regions in
      let rest = x + region_header + size in
      ((g x).free ≡ false)
      × (size ≤ (g x).size)
      × ((g x).size < size + region_header + min_region_len)
      × ((Tiles g p stop xs × ((g x).size ≡ (h.regions x).size))
          ⊎ (Tiles g p stop (insert_after x rest xs)
              × ((g rest).free ≡ true)
              × (min_region_len ≤ (g rest).size)))
  take_region-Tiles =
      let w = within h.regions x p stop xs t m in
      let e = marked-same in
      elim (Bool-cases (ltb (h.regions x).size (size + region_header + min_region_len))) [
        | inl whole ↦
            rw (take_region-whole (ground arith))
              (e.1, ground (arith, e.0), ground (arith, e.0), inl (marked-Tiles, e.0))
        | inr cut ↦
            let end : x + region_header + (marked.regions x).size < size_mod =
              omega (arith, e.0, w) in
            let room : size + region_header ≤ (marked.regions x).size = ground (arith, e.0) in
            let s = split_region-IsSplit x size marked end room in
            let f = split_region-flags x size marked end room in
            rw (take_region-cut (ground arith)) (
              f.0 ∙ e.1,
              omega (arith, s.first),
              omega (arith, s.first),
              inr (
                split_region-Tiles x p stop xs marked marked-Tiles m (omega arith) size room,
                f.1,
                ground (arith, s.second, e.0),
              ),
            )
      ]
