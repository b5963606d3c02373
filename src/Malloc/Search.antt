-- ===== src/Malloc/Search.antt =====
-- The searches for a free region of malloc.c. `none` is the end of the fuel: a list of regions is
-- given one round more than its block has bytes, the list of blocks one more than all have.
pub mod Arena
pub mod Best
use sistemas_operativos.Base.{
  ℕ, zero, suc, ◌+◌, Bool, true, false, not, ◌&&◌, ◌||◌, Option, none, some, ◌==◌, ltb, leb,
  if◌then◌else◌,
}
use sistemas_operativos.Base.Returns.{◌>>=◌}
use sistemas_operativos.Malloc.State.{Ptr, null, Region, Block, Heap, block2region}

-- FIRST_FIT (also the default) and BEST_FIT.
pub data Policy : Type 0 where
  first_fit best_fit : Policy

abbrev pub fits : ℕ → Region → Bool
fits size r = leb size r.size && r.free

pub loop_for_first_fit_region : (fuel : ℕ) → Ptr → ℕ → Heap → Option Ptr
loop_for_first_fit_region zero curr size h = none
loop_for_first_fit_region (suc fuel) curr size h =
    let rest = loop_for_first_fit_region fuel (h.regions curr).next size h in
    if curr == null then some null else if fits size (h.regions curr) then some curr else rest

pub first_fit_blocks : (fuel : ℕ) → Ptr → ℕ → Heap → Option Ptr
unfolding loop_for_first_fit_region
first_fit_blocks zero curr size h = none
first_fit_blocks (suc fuel) curr size h =
    let rest = first_fit_blocks fuel (h.blocks curr).next size h in
    if curr == null
    then some null
    else loop_for_first_fit_region ((h.blocks curr).size + 1) (block2region curr) size h
      >>= λ found. if found == null then rest else some found

pub find_region_first_fit : ℕ → Heap → Option Ptr
unfolding first_fit_blocks
find_region_first_fit size h = first_fit_blocks (h.total_mmy + 1) h.block_header_list size h

-- The best region after a look at `curr`.
abbrev pub better : ℕ → Heap → (curr best : Ptr) → Ptr
better size h curr best =
    if not (h.regions curr).free || ltb (h.regions curr).size size
    then best
    else if (best == null) || ltb (h.regions curr).size (h.regions best).size
    then curr
    else best

pub loop_for_best_fit_region : (fuel : ℕ) → (curr : Ptr) → ℕ → (best : Ptr) → Heap → Option Ptr
loop_for_best_fit_region zero curr size best h = none
loop_for_best_fit_region (suc fuel) curr size best h =
    let rest =
      loop_for_best_fit_region fuel (h.regions curr).next size (better size h curr best) h in
    if curr == null then some best else rest

pub best_fit_blocks : (fuel : ℕ) → (curr : Ptr) → ℕ → (best : Ptr) → Heap → Option Ptr
unfolding loop_for_best_fit_region
best_fit_blocks zero curr size best h = none
best_fit_blocks (suc fuel) curr size best h =
    let rest = λ (found : Ptr). best_fit_blocks fuel (h.blocks curr).next size found h in
    if curr == null
    then some best
    else loop_for_best_fit_region ((h.blocks curr).size + 1) (block2region curr) size best h
      >>= rest

pub find_region_best_fit : ℕ → Heap → Option Ptr
unfolding best_fit_blocks
find_region_best_fit size h = best_fit_blocks (h.total_mmy + 1) h.block_header_list size null h

unfoldable pub find_free_region : Policy → ℕ → Heap → Option Ptr
unfolding find_region_first_fit find_region_best_fit
find_free_region first_fit size h = find_region_first_fit size h
find_free_region best_fit size h = find_region_best_fit size h
