-- ===== src/Malloc/Regions.antt =====
-- Splitting and coalescing of regions in malloc.c.
pub mod Tiles
pub mod Links
pub mod Coalesce
use sistemas_operativos.Base.{
  ℕ, ◌+◌, ◌-◌, ◌%◌, Bool, true, false, not, ◌&&◌, ◌==◌, ltb, if◌then◌else◌,
}
use sistemas_operativos.Malloc.State.{
  Ptr, null, size_mod, region_header, min_region_len, magic_32bit, Region, Heap, put_region,
  split_at,
}

unfoldable pub split_region : Ptr → ℕ → Heap → Heap
split_region region size h =
    let r = h.regions region in
    let new = split_at region size in
    let h₁ =
      put_region new
        (record {
          next = r.next;
          prev = region;
          size = (r.size + size_mod + size_mod - size - region_header) % size_mod;
          free = true;
          check_num = magic_32bit;
        })
        h in
    put_region region (record (h₁.regions region) { next = new; size = size }) h₁

unfoldable pub try_split_region : Ptr → ℕ → Heap → Heap
unfolding split_region
try_split_region region size h =
    if ltb (h.regions region).size ((size + region_header + min_region_len) % size_mod)
    then h
    else split_region region size h

unfoldable pub coalesce_region_with_its_next : Ptr → Heap → Heap
coalesce_region_with_its_next region h =
    let r = h.regions region in
    let n = h.regions r.next in
    let h₁ =
      put_region region
        (record r { size = (r.size + n.size + region_header) % size_mod; next = n.next }) h in
    if n.next == null
    then h₁
    else put_region n.next (record (h₁.regions n.next) { prev = region }) h₁

-- The two tests of `try_coalesce_regions`, each with the region that survives.
pub coalesce_next : Ptr → Heap → Heap
unfolding coalesce_region_with_its_next
coalesce_next region h =
    let n = (h.regions region).next in
    if not (n == null) && (h.regions n).free then coalesce_region_with_its_next region h else h

pub coalesce_prev : Ptr → Heap → Ptr × Heap
unfolding coalesce_region_with_its_next
coalesce_prev region h =
    let p = (h.regions region).prev in
    if not (p == null) && (h.regions p).free
    then (p, coalesce_region_with_its_next p h)
    else (region, h)

unfoldable pub try_coalesce_regions : Ptr → Heap → Ptr × Heap
unfolding coalesce_next coalesce_prev
try_coalesce_regions region h = coalesce_prev region (coalesce_next region h)

unfoldable pub are_all_regions_free : Ptr → Heap → Bool
are_all_regions_free region h =
    let r = h.regions region in (r.prev == null) && ((r.next == null) && r.free)

pub split_and_coalesce_next_regions : Ptr → ℕ → Heap → Heap
split_and_coalesce_next_regions region size h =
    let r = h.regions region in
    let n = h.regions r.next in
    let new = split_at region size in
    let h₁ =
      put_region new
        (record {
          next = n.next;
          prev = n.prev;
          size = (n.size + (r.size + size_mod - size)) % size_mod;
          free = true;
          check_num = magic_32bit;
        })
        h in
    put_region region (record (h₁.regions region) { next = new; size = size }) h₁
