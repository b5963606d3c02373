-- ===== src/Malloc/Blocks.antt =====
-- The blocks of malloc.c: sizes, the list, mapping and unmapping, and the check of a pointer.
use sistemas_operativos.Base.{
  ℕ, zero, suc, ◌+◌, ◌-◌, ◌%◌, Bool, true, false, not, ◌&&◌, Option, none, some, ◌==◌, leb,
  if◌then◌else◌,
}
use sistemas_operativos.Malloc.State.{
  Ptr, null, size_mod, region_header, block_sm, block_md, block_lg, hard_limit, magic_32bit, Region,
  Heap, put_region, put_block, region2ptr, ptr2region, block2region,
}

-- `none` is EXIT_ERROR.
unfoldable pub get_block_size : ℕ → Option ℕ
get_block_size size =
    let need = (size + region_header) % size_mod in
    if leb need block_sm
    then some block_sm
    else if leb need block_md
    then some block_md
    else if leb need block_lg
    then some block_lg
    else none

pub append_block : Ptr → Heap → Heap
append_block b h =
    let h₁ = put_block b (record (h.blocks b) { prev = h.block_header_tail; next = null }) h in
    let h₂ =
      if h₁.block_header_tail == null
      then record h₁ { block_header_list = b }
      else put_block h₁.block_header_tail (record (h₁.blocks h₁.block_header_tail) { next = b })
          h₁ in
    record h₂ { block_header_tail = b }

-- `mapped` is what `mmap` returns, with NULL for MAP_FAILED.
pub new_block : (mapped : Ptr) → ℕ → Heap → Ptr × Heap
unfolding get_block_size append_block
new_block mapped size h = elim (get_block_size size) [
  | none ↦ (null, h)
  | some n ↦
      if leb hard_limit ((h.total_mmy + n) % size_mod)
      then (null, record h { enomem = true })
      else if mapped == null
      then (null, record h { enomem = true })
      else (
        mapped,
        append_block mapped (
            put_block mapped (record (h.blocks mapped) { size = n })
              (record h { total_mmy = (h.total_mmy + n) % size_mod })),
      )
]

pub first_region : ℕ → Region
first_region n = record {
  next = null;
  prev = null;
  size = n - region_header;
  free = true;
  check_num = magic_32bit;
}

unfoldable pub new_region : (mapped : Ptr) → ℕ → Heap → Ptr × Heap
unfolding new_block first_region
new_region mapped size h =
    let (b, h₁) = new_block mapped size h in
    if b == null
    then (null, h₁)
    else (block2region b, put_region (block2region b) (first_region (h₁.blocks b).size) h₁)

unfoldable pub return_block_to_os : Ptr → Heap → Heap
return_block_to_os b h =
    let v = h.blocks b in
    let h₁ =
      if v.prev == null
      then record h { block_header_list = v.next }
      else put_block v.prev (record (h.blocks v.prev) { next = v.next }) h in
    let w = h₁.blocks b in
    let h₂ =
      if w.next == null
      then record h₁ { block_header_tail = w.prev }
      else put_block w.next (record (h₁.blocks w.next) { prev = w.prev }) h₁ in
    record h₂ { total_mmy = (h₂.total_mmy + size_mod - (h₂.blocks b).size) % size_mod }

-- `none` is the end of the fuel.
unfoldable pub ptr_in_blocks_from : (fuel : ℕ) → (curr ptr : Ptr) → Heap → Option Bool
ptr_in_blocks_from zero curr ptr h = none
ptr_in_blocks_from (suc fuel) curr ptr h =
    let rest = ptr_in_blocks_from fuel (h.blocks curr).next ptr h in
    let first_dir = region2ptr (block2region curr) in
    let last_dir = first_dir + (h.blocks curr).size - region_header in
    if curr == null
    then some false
    else if leb first_dir ptr && leb ptr last_dir
    then some true
    else rest

unfoldable pub is_ptr_into_blocks : Ptr → Heap → Option Bool
unfolding ptr_in_blocks_from
is_ptr_into_blocks ptr h = ptr_in_blocks_from (h.total_mmy + 1) h.block_header_list ptr h

unfoldable pub is_valid_ptr : Ptr → Heap → Option Bool
unfolding is_ptr_into_blocks
is_valid_ptr ptr h =
    let r = h.regions (ptr2region ptr) in
    elim (is_ptr_into_blocks ptr h) [
      | none ↦ none
      | some found ↦ some (found && (not r.free && (r.check_num == magic_32bit)))
    ]
