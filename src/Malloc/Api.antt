-- ===== src/Malloc/Api.antt =====
-- `malloc`, `calloc` and `free` of malloc.c, and the loops over bytes.
pub mod Sizes
pub mod Bytes
pub mod Take
pub mod Check
use sistemas_operativos.Base.{
  ℕ, zero, suc, ◌+◌, ◌-◌, ◌*◌, ◌/◌, ◌%◌, Bool, true, false, not, ◌&&◌, Option, none, some, ◌==◌,
  ltb, leb, if◌then◌else◌,
}
use sistemas_operativos.Malloc.State.{
  Ptr, null, size_mod, region_header, min_region_len, block_lg, invalid_pointer, Region, Heap, Run,
  ok, exits, out_of_fuel, and_then, update, put_region, align4, region2ptr, ptr2region,
  region2block,
}
use sistemas_operativos.Malloc.Search.{Policy, find_free_region}
use sistemas_operativos.Malloc.Regions.{
  try_split_region, try_coalesce_regions, are_all_regions_free,
}
use sistemas_operativos.Malloc.Blocks.{new_region, is_valid_ptr, return_block_to_os}

-- The size that `malloc` and `realloc` work with.
abbrev pub round_size : ℕ → ℕ
round_size size = if ltb (align4 size) min_region_len then min_region_len else align4 size

-- `bptr[i] = c` for the `n` bytes from `p` on.
pub set_mem : Ptr → ℕ → (n : ℕ) → (Ptr → ℕ) → Ptr → ℕ
set_mem p c zero b = b
set_mem p c (suc n) b = set_mem (p + 1) c n (update b p c)

-- `dest[i] = src[i]` for `n` bytes, from the first on.
pub move_data : (dest src n : ℕ) → (Ptr → ℕ) → Ptr → ℕ
move_data dest src zero b = b
move_data dest src (suc n) b = move_data (dest + 1) (src + 1) n (update b dest (b src))

-- The end of `malloc`: `region->free = false` and the split.
unfoldable pub take_region : Ptr → ℕ → Heap → Heap
take_region region size h =
    try_split_region region size (put_region region (record (h.regions region) { free = false }) h)

-- The rest of `malloc`, after the tests of the request: a free region, or that of a new block.
unfoldable pub serve : Policy → (mapped : Ptr) → ℕ → Heap → Run Ptr
unfolding take_region
serve policy mapped size h = elim (find_free_region policy size h) [
  | none ↦ out_of_fuel
  | some found ↦
      if found == null
      then (let (region, h₁) = new_region mapped size h in
          if region == null
          then ok null h₁
          else ok (region2ptr region) (take_region region size h₁))
      else ok (region2ptr found) (take_region found size h)
]

unfoldable pub malloc : Policy → (mapped : Ptr) → ℕ → Heap → Run Ptr
malloc policy mapped size h =
    if size == 0
    then ok null h
    else if ltb block_lg ((align4 size + region_header) % size_mod)
    then ok null (record h { enomem = true })
    else serve policy mapped (round_size size) h

unfoldable pub calloc : Policy → (mapped : Ptr) → (nmemb size : ℕ) → Heap → Run Ptr
unfolding set_mem
calloc policy mapped nmemb size h =
    if not (size == 0) && ltb ((size_mod - 1) / size) nmemb
    then ok null (record h { enomem = true })
    else and_then (malloc policy mapped ((size * nmemb) % size_mod) h) λ ptr h₁.
      if ptr == null
      then ok null h₁
      else ok ptr (record h₁ { bytes = set_mem ptr 0 (h₁.regions (ptr2region ptr)).size h₁.bytes })

-- The end of `free`, on a valid pointer.
unfoldable pub release : Ptr → Heap → Heap
release region h =
    let (survivor, h₁) =
      try_coalesce_regions region
        (put_region region (record (h.regions region) { free = true }) h) in
    if are_all_regions_free survivor h₁ then return_block_to_os (region2block survivor) h₁ else h₁

unfoldable pub free : Ptr → Heap → Run (Unit {0})
free ptr h = if ptr == null then ok tt h else elim (is_valid_ptr ptr h) [
  | none ↦ out_of_fuel
  | some valid ↦ if valid then ok tt (release (ptr2region ptr) h) else exits invalid_pointer h
]
