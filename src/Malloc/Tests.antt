-- ===== src/Malloc/Tests.antt =====
-- A block of 16 KiB with three regions, the middle one free: runs of malloc.c, and its theorems at
-- it.
use sistemas_operativos.Base.{
  ℕ, ◌+◌, ◌≤◌, ◌<◌, ◌≡◌, refl, ◌≢◌, ◌⊎◌, Bool, true, false, List, [], ◌∷◌, some, arith,
  if◌then◌else◌, ◌==◌, has,
}
use sistemas_operativos.Malloc.State.{
  Ptr, null, size_mod, region_header, min_region_len, magic_32bit, Region, Heap, ok, ptr2region,
}
use sistemas_operativos.Malloc.Search.{first_fit, find_region_first_fit, find_region_best_fit}
use sistemas_operativos.Malloc.Search.Arena.{IsArena, find_region_first_fit-first}
use sistemas_operativos.Malloc.Search.Best.{IsBest, find_region_best_fit-IsBest}
use sistemas_operativos.Malloc.Regions.{try_coalesce_regions}
use sistemas_operativos.Malloc.Regions.Tiles.{Tiles, insert_after}
use sistemas_operativos.Malloc.Regions.Links.{Prevs}
use sistemas_operativos.Malloc.Regions.Coalesce.{
  with_next, with_prev, holder, free_in, IsBlock, try_coalesce_regions-IsBlock,
}
use sistemas_operativos.Malloc.Api.{free, take_region, calloc}
use sistemas_operativos.Malloc.Api.Bytes.{calloc-zeroes}
use sistemas_operativos.Malloc.Api.Check.{left_over}
use sistemas_operativos.Malloc.Api.Take.{take_region-Tiles}

abbrev region_at : (next prev size : ℕ) → Bool → Region
region_at n p s f = record { next = n; prev = p; size = s; free = f; check_num = magic_32bit }

abbrev demo_regions : Ptr → Region
demo_regions a =
    if a == 1024
    then region_at 1156 0 100 false
    else if a == 1156
    then region_at 1388 1024 200 true
    else if a == 1388
    then region_at 0 1156 15988 false
    else region_at 0 0 0 false

abbrev demo : Heap
demo = record {
  regions = demo_regions;
  blocks = λ _. record { next = 0; prev = 0; size = 16384 };
  bytes = λ a. a;
  block_header_list = 1000;
  block_header_tail = 1000;
  total_mmy = 16384;
  enomem = false;
}

abbrev regions_of_demo : List Ptr
regions_of_demo = 1024 ∷ 1156 ∷ 1388 ∷ []

abbrev tiles_of_demo : Tiles demo_regions 1024 17408 regions_of_demo
tiles_of_demo = (refl, refl, (refl, refl, (refl, refl, refl)))

abbrev prevs_of_demo : Prevs demo_regions null regions_of_demo
prevs_of_demo = (refl, (refl, (refl, tt)))

abbrev arena_of_demo : List (Ptr × List Ptr)
arena_of_demo = (1000, regions_of_demo) ∷ []

demo-IsArena : IsArena demo arena_of_demo
demo-IsArena = record {
  first = refl;
  blocks = (ground arith, refl, omega arith, tiles_of_demo, tt);
  total = refl;
}

demo-IsBlock : IsBlock demo_regions 1024 17408 regions_of_demo
demo-IsBlock = record { tiles = tiles_of_demo; prevs = prevs_of_demo }

find_region_first_fit-first_example : find_region_first_fit 96 demo ≡ some 1156
find_region_first_fit-first_example = find_region_first_fit-first 96 demo arena_of_demo demo-IsArena

find_region_best_fit-IsBest_example :
    (r : Ptr) × (find_region_best_fit 96 demo ≡ some r) × IsBest 96 demo r regions_of_demo
find_region_best_fit-IsBest_example = find_region_best_fit-IsBest 96 demo arena_of_demo demo-IsArena

try_coalesce_regions-IsBlock_example :
    let r = try_coalesce_regions 1156 demo in
    let ys = with_next (free_in demo) 1156 regions_of_demo in
    IsBlock r.1.regions 1024 17408 (with_prev (free_in demo) 1156 ys)
    × (r.0 ≡ holder (free_in demo) 1156 ys)
    × (has r.0 (with_prev (free_in demo) 1156 ys) ≡ true)
    × ((r.1.regions r.0).free ≡ true)
    × ((a : Ptr) → free_in r.1 a ≡ free_in demo a)
try_coalesce_regions-IsBlock_example =
    try_coalesce_regions-IsBlock 1156 1024 17408 regions_of_demo demo demo-IsBlock refl
      (omega arith) (omega arith) refl

calloc-zeroes_example :
    (p : Ptr) × (h' : Heap) × (calloc first_fit 50000 10 8 demo ≡ ok p h')
    × (size_mod ≤ 80 → (p ≡ null) × (h' ≡ record demo { enomem = true }))
    × ((a : Ptr) → p ≢ null → p ≤ a → a < p + (h'.regions (ptr2region p)).size → h'.bytes a ≡ 0)
calloc-zeroes_example = calloc-zeroes first_fit 50000 10 8 demo arena_of_demo demo-IsArena

take_region-Tiles_example :
    let g = (take_region 1156 64 demo).regions in
    let rest = 1156 + region_header + 64 in
    ((g 1156).free ≡ false)
    × (64 ≤ (g 1156).size)
    × ((g 1156).size < 64 + region_header + min_region_len)
    × ((Tiles g 1024 17408 regions_of_demo × ((g 1156).size ≡ 200))
        ⊎ (Tiles g 1024 17408 (insert_after 1156 rest regions_of_demo)
            × ((g rest).free ≡ true)
            × (min_region_len ≤ (g rest).size)))
take_region-Tiles_example =
    take_region-Tiles 1156 1024 17408 64 regions_of_demo demo tiles_of_demo refl (omega arith) refl

-- Its neighbour behind joins it, and the one behind that does not.
leaves_two : left_over 1024 regions_of_demo demo ≡ 1024 ∷ 1388 ∷ []
leaves_two = refl
