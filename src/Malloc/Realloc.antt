-- ===== src/Malloc/Realloc.antt =====
-- `realloc` of malloc.c.
use sistemas_operativos.Base.{
  ℕ, ◌+◌, ◌%◌, Bool, true, not, ◌&&◌, none, some, ◌==◌, ltb, leb, if◌then◌else◌,
}
use sistemas_operativos.Malloc.State.{
  Ptr, null, size_mod, region_header, block_lg, invalid_pointer, Heap, Run, ok, exits, out_of_fuel,
  and_then, align4, region2ptr, ptr2region,
}
use sistemas_operativos.Malloc.Search.{Policy}
use sistemas_operativos.Malloc.Regions.{
  try_split_region, coalesce_region_with_its_next, split_and_coalesce_next_regions,
}
use sistemas_operativos.Malloc.Blocks.{is_valid_ptr}
use sistemas_operativos.Malloc.Api.{round_size, move_data, take_region, malloc, free}

pub handle_realloc_that_requires_less_memory : Ptr → ℕ → Heap → Ptr × Heap
handle_realloc_that_requires_less_memory region size h =
    let n = (h.regions region).next in
    (
      region2ptr region,
      if not (n == null) && (h.regions n).free
          then split_and_coalesce_next_regions region size h
          else try_split_region region size h,
    )

pub is_free : Ptr → Heap → Bool
is_free region h = not (region == null) && (h.regions region).free

pub sum_of_regions : (one two three : Ptr) → Heap → ℕ
sum_of_regions one two three h =
    let add = λ (sum : ℕ) (r : Ptr).
      if r == null then sum else (sum + ((h.regions r).size + region_header)) % size_mod in
    add (add (h.regions one).size two) three

pub are_free_to_coalesce : Ptr → ℕ → (region_1 region_2 : Ptr) → Heap → Bool
unfolding is_free sum_of_regions
are_free_to_coalesce region size region_1 region_2 h =
    if region_2 == null
    then is_free region_1 h && leb size (sum_of_regions region region_1 null h)
    else is_free region_1 h
      && (is_free region_2 h && leb size (sum_of_regions region region_1 region_2 h))

pub reallocate_with_next_region : Ptr → ℕ → Heap → Ptr × Heap
reallocate_with_next_region region size h =
    (region2ptr region, take_region region size (coalesce_region_with_its_next region h))

-- `move_data` reads the old header before it writes.
abbrev pub move_region : (to from : Ptr) → Heap → Heap
move_region to from h = record h {
  bytes = move_data (region2ptr to) (region2ptr from) (h.regions from).size h.bytes;
}

pub reallocate_with_prev_region : Ptr → ℕ → Heap → Ptr × Heap
reallocate_with_prev_region region size h =
    let p = (h.regions region).prev in
    (region2ptr p, take_region p size (move_region p region (coalesce_region_with_its_next p h)))

pub reallocate_with_next_and_prev_region : Ptr → ℕ → Heap → Ptr × Heap
reallocate_with_next_and_prev_region region size h =
    let p = (h.regions region).prev in
    let h₁ = coalesce_region_with_its_next p (coalesce_region_with_its_next p h) in
    (region2ptr p, take_region p size (move_region p region h₁))

pub reallocate_on_new_region : Policy → (mapped : Ptr) → Ptr → ℕ → Heap → Run Ptr
reallocate_on_new_region policy mapped region size h =
    and_then (malloc policy mapped size h) λ new h₁.
      if new == null
      then ok null h₁
      else and_then
          (free (region2ptr region) (record h₁ {
            bytes = move_data new (region2ptr region) (h₁.regions region).size h₁.bytes;
          }))
          λ _ h₂. ok new h₂

abbrev pub returning : Ptr × Heap → Run Ptr
returning (p, h) = ok p h

pub handle_realloc_that_requires_more_memory : Policy → (mapped : Ptr) → Ptr → ℕ → Heap → Run Ptr
unfolding are_free_to_coalesce
handle_realloc_that_requires_more_memory policy mapped region size h =
    let r = h.regions region in
    if are_free_to_coalesce region size r.next null h
    then returning (reallocate_with_next_region region size h)
    else if are_free_to_coalesce region size r.prev null h
    then returning (reallocate_with_prev_region region size h)
    else if are_free_to_coalesce region size r.prev r.next h
    then returning (reallocate_with_next_and_prev_region region size h)
    else reallocate_on_new_region policy mapped region size h

pub handle_realloc : Policy → (mapped : Ptr) → Ptr → ℕ → Heap → Run Ptr
handle_realloc policy mapped region size h =
    if (h.regions region).size == size
    then ok (region2ptr region) h
    else if ltb size (h.regions region).size
    then returning (handle_realloc_that_requires_less_memory region size h)
    else handle_realloc_that_requires_more_memory policy mapped region size h

unfoldable pub realloc : Policy → (mapped : Ptr) → (ptr : Ptr) → ℕ → Heap → Run Ptr
unfolding handle_realloc
realloc policy mapped ptr size h =
    if ptr == null
    then malloc policy mapped size h
    else if size == 0
    then and_then (free ptr h) (λ _ h₁. ok null h₁)
    else elim (is_valid_ptr ptr h) [
      | none ↦ out_of_fuel
      | some valid ↦
          if valid
          then if ltb block_lg ((align4 size + region_header) % size_mod)
            then ok null (record h { enomem = true })
            else handle_realloc policy mapped (ptr2region ptr) (round_size size) h
          else exits invalid_pointer h
    ]
