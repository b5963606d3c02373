-- ===== src/Malloc/Api/Bytes.antt =====
-- The loops over bytes of malloc.c, and what `calloc` leaves in the memory that it returns.
use native.Mathlib.Nat.{div-lt_iff_lt-mul, mul-zero}
use sistemas_operativos.Base.{
  ℕ, zero, suc, ◌+◌, ◌-◌, ◌*◌, ◌/◌, ◌%◌, ◌≤◌, ◌<◌, ◌≡◌, ◌≢◌, refl, true, arith, ◌==◌, ltb, not,
  ◌&&◌, ◌⊎◌, inl, inr, Bool-cases, ==→eq, some, List, leb,
}
use sistemas_operativos.Malloc.State.{
  Ptr, null, size_mod, Heap, ok, update, ptr2region, block_lg, region_header, align4, region2ptr,
}
use sistemas_operativos.Malloc.Search.{Policy, first_fit, best_fit, find_free_region}
use sistemas_operativos.Malloc.Search.Arena.{IsArena, find_region_first_fit-first}
use sistemas_operativos.Malloc.Search.Best.{find_region_best_fit-IsBest}
use sistemas_operativos.Malloc.Blocks.{new_region}
use sistemas_operativos.Malloc.Api.{
  round_size, serve, take_region, set_mem, move_data, malloc, calloc,
}

pub set_mem-fills :
    (p c n : ℕ) (b : Ptr → ℕ) (a : Ptr)
    → ((p ≤ a) → (a < p + n) → set_mem p c n b a ≡ c)
      × (((a < p) ⊎ (p + n ≤ a)) → set_mem p c n b a ≡ b a)
unfolding set_mem
set_mem-fills p c zero b a = (λ l r. absurd (omega arith), λ o. refl)
set_mem-fills p c (suc n) b a =
    let rest = set_mem-fills (p + 1) c n (update b p c) a in
    (λ l r. ground (arith, rest), λ o. ground (arith, rest))

-- `move_data` copies `n` bytes to a lower or equal address, also where the two ranges overlap: the
-- target gets the bytes as they were, and no byte outside the target changes.
pub move_data-copies :
    (dest src n : ℕ) (b : Ptr → ℕ)
    → dest ≤ src
    → ((i : ℕ) → i < n → move_data dest src n b (dest + i) ≡ b (src + i))
      × ((a : Ptr) → (a < dest) ⊎ (dest + n ≤ a) → move_data dest src n b a ≡ b a)
unfolding move_data
move_data-copies dest src zero b le = (λ i l. absurd (omega arith), λ a o. refl)
move_data-copies dest src (suc n) b le =
    let rest = move_data-copies (dest + 1) (src + 1) n (update b dest (b src)) (omega arith) in
    (
      λ i l. elim (Bool-cases (i == 0)) [
        | inl now ↦ let here = rest.1 dest (inl (omega arith)) in ground (arith, here, now)
        | inr later ↦ let there = rest.0 (i - 1) (ground arith) in ground (arith, there, later)
      ],
      λ a o. let same = rest.1 a (ground arith) in ground (arith, same),
    )

serve-ends :
    (policy : Policy) (mapped : Ptr) (size : ℕ) (h : Heap) (found : Ptr)
    → find_free_region policy size h ≡ some found
    → (p : Ptr) × (h' : Heap) × (serve policy mapped size h ≡ ok p h')
unfolding serve
serve-ends policy mapped size h found e = elim (Bool-cases (found == null)) [
  | inl none_left ↦ elim (Bool-cases ((new_region mapped size h).0 == null)) [
    | inl full ↦ (null, (new_region mapped size h).1, rw (serve, e, none_left, full) refl)
    | inr new ↦ (
      region2ptr (new_region mapped size h).0,
      take_region (new_region mapped size h).0 size (new_region mapped size h).1,
      rw (serve, e, none_left, new) refl,
    )
  ]
  | inr some_left ↦ (region2ptr found, take_region found size h, rw (serve, e, some_left) refl)
]

find_free_region-ends :
    (policy : Policy) (size : ℕ) (h : Heap) (cs : List (Ptr × List Ptr))
    → IsArena h cs
    → (found : Ptr) × (find_free_region policy size h ≡ some found)
unfolding find_free_region
find_free_region-ends first_fit size h cs a = (_, find_region_first_fit-first size h cs a)
find_free_region-ends best_fit size h cs a =
    let b = find_region_best_fit-IsBest size h cs a in (b.0, b.1)

-- `malloc` ends on an arena: every search has fuel enough.
pub malloc-ends :
    (policy : Policy) (mapped : Ptr) (size : ℕ) (h : Heap) (cs : List (Ptr × List Ptr))
    → IsArena h cs
    → (p : Ptr) × (h' : Heap) × (malloc policy mapped size h ≡ ok p h')
unfolding malloc
malloc-ends policy mapped size h cs a = elim (Bool-cases (size == 0)) [
  | inl nothing ↦ (null, h, rw nothing refl)
  | inr something ↦ elim (Bool-cases (ltb block_lg ((align4 size + region_header) % size_mod))) [
    | inl large ↦ (null, record h { enomem = true }, rw (something, large) refl)
    | inr small ↦
        let f = find_free_region-ends policy (round_size size) h cs a in
        let s = serve-ends policy mapped (round_size size) h f.0 f.1 in
        (s.0, s.1, rw (something, small) s.2)
  ]
]

-- The test of `calloc` finds just the products that pass a `size_t`.
overflow-test :
    (nmemb size : ℕ)
    → (not (size == 0) && ltb ((size_mod - 1) / size) nmemb) ≡ leb size_mod (nmemb * size)
overflow-test nmemb size = elim (Bool-cases (size == 0)) [
  | inl none_left ↦ let z = ==→eq size 0 none_left in rw (z, mul-zero nmemb) refl
  | inr some_left ↦ elim (Bool-cases (leb size_mod (nmemb * size))) [
    | inl over ↦
        let up =
          (div-lt_iff_lt-mul {k = size} {x = size_mod - 1} {y = nmemb} (ground arith)).1
            (ground arith) in
        ground (arith, up)
    | inr fine ↦
        let down : ¬ ((size_mod - 1) / size < nmemb) = λ l.
          let w =
            (div-lt_iff_lt-mul {k = size} {x = size_mod - 1} {y = nmemb} (ground arith)).0 l in
          ground (arith, w) in
        ground (arith, down)
  ]
]

-- `calloc` ends on an arena. It fails with NULL and ENOMEM, and changes nothing else, where the
-- product of its arguments passes a `size_t`; else, where it returns memory, each byte of that
-- region, up to the size in its header, is 0.
pub calloc-zeroes :
    (policy : Policy) (mapped : Ptr) (nmemb size : ℕ) (h : Heap) (cs : List (Ptr × List Ptr))
    → IsArena h cs
    → (p : Ptr) × (h' : Heap) × (calloc policy mapped nmemb size h ≡ ok p h')
      × (size_mod ≤ nmemb * size → (p ≡ null) × (h' ≡ record h { enomem = true }))
      × ((a : Ptr) → p ≢ null → p ≤ a → a < p + (h'.regions (ptr2region p)).size → h'.bytes a ≡ 0)
unfolding calloc
calloc-zeroes policy mapped nmemb size h cs arena =
    elim (Bool-cases (leb size_mod (nmemb * size))) [
      | inl over ↦ (
        null,
        record h { enomem = true },
        rw (overflow-test nmemb size, over) refl,
        λ l. (refl, refl),
        λ a n. absurd (n refl),
      )
      | inr fine ↦
          let m = malloc-ends policy mapped ((size * nmemb) % size_mod) h cs arena in
          elim (Bool-cases (m.0 == null)) [
            | inl none_left ↦ (
              null,
              m.1,
              rw (overflow-test nmemb size, fine, m.2, none_left) refl,
              λ l. ground arith,
              λ a n. absurd (n refl),
            )
            | inr some_left ↦ (
              m.0,
              record m.1 { bytes = set_mem m.0 0 (m.1.regions (ptr2region m.0)).size m.1.bytes },
              rw (overflow-test nmemb size, fine, m.2, some_left) refl,
              λ l. ground arith,
              λ a n below above.
                  (set_mem-fills m.0 0 (m.1.regions (ptr2region m.0)).size m.1.bytes a).0 below
                    above,
            )
          ]
    ]
