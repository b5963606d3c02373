-- ===== src/Malloc/State.antt =====
-- The data of malloc.c: headers of regions and blocks at addresses, the bytes of the user, and the
-- variables of the allocator. The sizes are those of a 64-bit host. Headers are kept apart from
-- bytes: a header says nothing of the bytes that it stands on.
use sistemas_operativos.Base.{ℕ, ◌+◌, ◌-◌, ◌*◌, ◌/◌, ◌%◌, ◌^◌, Bool, ◌==◌, if◌then◌else◌}

-- The address of a region's or a block's header, or of a byte; 0 is NULL.
abbrev pub Ptr : Type 0
Ptr = ℕ

abbrev pub null : Ptr
null = 0

-- What a `size_t` wraps at.
abbrev pub size_mod : ℕ
size_mod = 2 ^ 64

-- sizeof(region_header_t) and sizeof(block_header_t).
abbrev pub region_header : ℕ
region_header = 32

abbrev pub block_header : ℕ
block_header = 24

abbrev pub magic_32bit : ℕ
magic_32bit = 0xBE5A74CD

abbrev pub min_region_len : ℕ
min_region_len = 64

abbrev pub block_sm : ℕ
block_sm = 16 * 1024

abbrev pub block_md : ℕ
block_md = 1024 * 1024

abbrev pub block_lg : ℕ
block_lg = 32 * 1024 * 1024

abbrev pub hard_limit : ℕ
hard_limit = 10 * block_lg

abbrev pub invalid_pointer : ℕ
invalid_pointer = 134

pub record Block : Type 0 where
  pub next : Ptr
  pub prev : Ptr
  pub size : ℕ

pub record Region : Type 0 where
  pub next : Ptr
  pub prev : Ptr
  pub size : ℕ
  pub free : Bool
  pub check_num : ℕ

-- `enomem` is whether `errno` was set to ENOMEM.
pub record Heap : Type 0 where
  pub regions : Ptr → Region
  pub blocks : Ptr → Block
  pub bytes : Ptr → ℕ
  pub block_header_list : Ptr
  pub block_header_tail : Ptr
  pub total_mmy : ℕ
  pub enomem : Bool

-- How a call ends: it returns, it calls `exit`, or the model runs out of fuel.
pub data Run (A : Type 0) : Type 0 where
  ok : A → Heap → Run A
  exits : ℕ → Heap → Run A
  out_of_fuel : Run A

abbrev pub and_then : {A B : Type 0} → Run A → (A → Heap → Run B) → Run B
and_then (ok a h) k = k a h
and_then (exits n h) k = exits n h
and_then out_of_fuel k = out_of_fuel

abbrev pub update {ℓ} : {A : Type ℓ} → (Ptr → A) → Ptr → A → Ptr → A
update f p v q = if q == p then v else f q

abbrev pub put_region : Ptr → Region → Heap → Heap
put_region p r h = record h { regions = update h.regions p r }

abbrev pub put_block : Ptr → Block → Heap → Heap
put_block p b h = record h { blocks = update h.blocks p b }

-- ALIGN4
abbrev pub align4 : ℕ → ℕ
align4 s = ((s + size_mod - 1) % size_mod / 4 * 4 + 4) % size_mod

-- REGION2PTR, PTR2REGION, BLOCK2REGION, REGION2BLOCK and SPLITREGION.
abbrev pub region2ptr : Ptr → Ptr
region2ptr r = r + region_header

abbrev pub ptr2region : Ptr → Ptr
ptr2region p = (p + size_mod - region_header) % size_mod

abbrev pub block2region : Ptr → Ptr
block2region b = b + block_header

abbrev pub region2block : Ptr → Ptr
region2block r = r - block_header

abbrev pub split_at : Ptr → ℕ → Ptr
split_at r size = (region2ptr r + size) % size_mod
