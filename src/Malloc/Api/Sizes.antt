-- ===== src/Malloc/Api/Sizes.antt =====
-- The arithmetic of sizes in `malloc`: rounding, the limit, and where `size_t` wraps.
use sistemas_operativos.Base.{
  ℕ, ◌+◌, ◌-◌, ◌*◌, ◌%◌, ◌≤◌, ◌<◌, ◌^◌, ◌≡◌, ◌⊎◌, refl, true, false, arith, ◌==◌, ltb,
}
use sistemas_operativos.Malloc.State.{
  Ptr, null, size_mod, region_header, block_lg, min_region_len, Heap, ok, align4,
}
use sistemas_operativos.Malloc.Search.{Policy}
use sistemas_operativos.Malloc.Api.{round_size, malloc}

-- What `malloc` asks for is at least the request and the least region, a multiple of 4, and less
-- than 4 bytes above the larger of them, for a request that does not wrap.
pub round_size_bounds :
    (size : ℕ)
    → 0 < size
    → size ≤ 2 ^ 64 - 4
    → (size ≤ round_size size)
      × (min_region_len ≤ round_size size)
      × (round_size size % 4 ≡ 0)
      × ((round_size size < size + 4) ⊎ (round_size size ≡ min_region_len))
round_size_bounds size pos small = (ground arith, ground arith, ground arith, ground arith)

module _ (policy : Policy) (mapped : Ptr) (size : ℕ) (h : Heap) where
  -- A request above 32 MiB less a header that does not wrap gives NULL and ENOMEM, and changes
  -- nothing else.
  pub malloc-oversize :
      32 * 1024 * 1024 - 32 < size
      → size ≤ 2 ^ 64 - 36
      → malloc policy mapped size h ≡ ok null (record h { enomem = true })
  unfolding malloc
  malloc-oversize big small = ground arith

  -- The three largest requests wrap to 0 when they are rounded, and `malloc` serves them as it
  -- serves a request of 64 bytes.
  malloc-wraps :
      2 ^ 64 - 3 ≤ size → size < 2 ^ 64 → malloc policy mapped size h ≡ malloc policy mapped 64 h
  unfolding malloc
  malloc-wraps big small =
      let zero_size : (size == 0) ≡ false = ground arith in
      let rounded : round_size size ≡ 64 = ground arith in
      let fits_limit : ltb block_lg ((align4 size + region_header) % size_mod) ≡ false =
        ground arith in
      rw (rounded, zero_size, fits_limit) refl
