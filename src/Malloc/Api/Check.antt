-- ===== src/Malloc/Api/Check.antt =====
-- The check of pointers in malloc.c, and what `free` does on an arena.
use sistemas_operativos.Base.{
  ◌+◌, ◌-◌, ◌%◌, ◌≡◌, ◌≢◌, Bool, true, false, not, ◌&&◌, ◌||◌, List, [], ◌∷◌, ◌==◌, leb,
}
use sistemas_operativos.Malloc.State.{
  Ptr, null, size_mod, put_region, region2block, magic_32bit, Heap, region2ptr, ptr2region,
  block2region,
}
use sistemas_operativos.Malloc.Regions.Tiles.{next_of}
use sistemas_operativos.Malloc.Regions.Coalesce.{
  IsBlock, before_of, with_next, with_prev, holder, free_in,
}
use sistemas_operativos.Malloc.Search.Arena.{Blocks}
use sistemas_operativos.Malloc.Api.{free}

-- Whether a pointer lies where the memory of one of the blocks may be handed out: behind the header
-- of its first region, and up to its end.
abbrev pub in_blocks : Ptr → Heap → List (Ptr × List Ptr) → Bool
in_blocks ptr h [] = false
in_blocks ptr h (c ∷ cs) =
    (leb (region2ptr (block2region c.0)) ptr && leb ptr (block2region c.0 + (h.blocks c.0).size))
    || in_blocks ptr h cs

-- Whether the header before a pointer is that of a region in use.
abbrev pub in_use : Ptr → Heap → Bool
in_use ptr h = let r = h.regions (ptr2region ptr) in not r.free && (r.check_num == magic_32bit)

-- The heap with the region marked as free.
abbrev pub marked : Ptr → Heap → Heap
marked x h = put_region x (record (h.regions x) { free = true }) h

-- The regions of the block of `x` after it is freed, and the one that holds it.
abbrev pub left_over : (x : Ptr) → List Ptr → Heap → List Ptr
left_over x xs h = let g = free_in (marked x h) in with_prev g x (with_next g x xs)

abbrev pub left_holder : (x : Ptr) → List Ptr → Heap → Ptr
left_holder x xs h = let g = free_in (marked x h) in holder g x (with_next g x xs)

-- No region stands before or behind `s`.
abbrev pub is_alone : Ptr → List Ptr → Bool
is_alone s ys = (before_of null s ys == null) && (next_of s ys == null)

-- The block before `b`, or the head of the list if there is none, leads to the block behind `b`.
abbrev pub Unlinked : (b : Ptr) → (h h' : Heap) → Type 0
Unlinked b h h' =
    ((h.blocks b).prev ≡ null → h'.block_header_list ≡ (h.blocks b).next)
    × ((h.blocks b).prev ≢ null → (h'.blocks (h.blocks b).prev).next ≡ (h.blocks b).next)

-- What freeing region `x` of the block with the regions `xs` does: it is free, joined with its free neighbours,
-- and no other region has become free or used. The block is given back, taken from the list and no longer
-- counted, exactly where one region is left of it; else the blocks and their list are as they were.
pub record Freed (x p stop : Ptr) (xs : List Ptr) (h h' : Heap) : Type 0 where
  pub block : IsBlock h'.regions p stop (left_over x xs h)
  pub free : (h'.regions (left_holder x xs h)).free ≡ true
  pub others : (a : Ptr) → a ≢ x → free_in h' a ≡ free_in h a
  pub returned :
      is_alone (left_holder x xs h) (left_over x xs h) ≡ true
      → h'.total_mmy
        ≡ (h.total_mmy + size_mod - (h.blocks (region2block (left_holder x xs h))).size) % size_mod
  pub unlinked :
      is_alone (left_holder x xs h) (left_over x xs h) ≡ true
      → Unlinked (region2block (left_holder x xs h)) h h'
  pub kept :
      is_alone (left_holder x xs h) (left_over x xs h) ≡ false
      → (h'.total_mmy ≡ h.total_mmy)
        × (h'.blocks ≡ h.blocks)
        × (h'.block_header_list ≡ h.block_header_list)
        × (h'.block_header_tail ≡ h.block_header_tail)
