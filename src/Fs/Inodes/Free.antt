-- ===== src/Fs/Inodes/Free.antt =====
-- The searches of the bitmaps in fs.c, and the release of the blocks of an inode.
use sistemas_operativos.Base.{
  ℕ, zero, suc, ◌+◌, ◌≤◌, ◌<◌, ◌≡◌, refl, Bool, true, false, Option, none, some, arith, ◌==◌,
  Bool-cases, inl, inr, ==→eq,
}
use sistemas_operativos.Fs.State.{Fs, mark_block}
use sistemas_operativos.Fs.Inodes.{first_free, search_free_block}

-- The least free place among `n` from `i` on, or that there is none.
abbrev pub IsFirst : (ℕ → Bool) → (n i : ℕ) → Option ℕ → Type 0
IsFirst bitmap n i none = (j : ℕ) → i ≤ j → j < i + n → bitmap j ≡ true
IsFirst bitmap n i (some k) =
    (i ≤ k) × (k < i + n) × (bitmap k ≡ false) × ((j : ℕ) → i ≤ j → j < k → bitmap j ≡ true)

IsFirst-later :
    (bitmap : ℕ → Bool) (n i : ℕ) (r : Option ℕ)
    → bitmap i ≡ true
    → IsFirst bitmap n (i + 1) r
    → IsFirst bitmap (suc n) i r
IsFirst-later bitmap n i none used f = λ j l r. elim (Bool-cases (j == i)) [
  | inl here ↦ ground (arith, ==→eq j i here)
  | inr far ↦ f j (ground arith) (omega arith)
]
IsFirst-later bitmap n i (some k) used f = (
  omega (arith, f.0),
  omega (arith, f.1),
  f.2,
  λ j l r. elim (Bool-cases (j == i)) [
    | inl here ↦ ground (arith, ==→eq j i here)
    | inr far ↦ f.3 j (ground arith) r
  ],
)

pub first_free-IsFirst : (bitmap : ℕ → Bool) (n i : ℕ) → IsFirst bitmap n i (first_free bitmap n i)
unfolding first_free
first_free-IsFirst bitmap zero i = λ j l r. absurd (omega arith)
first_free-IsFirst bitmap (suc n) i = elim (Bool-cases (bitmap i)) [
  | inl used ↦ rw used (
      IsFirst-later bitmap n i (first_free bitmap n (i + 1)) used
        (first_free-IsFirst bitmap n (i + 1)))
  | inr free ↦ rw free (omega arith, omega arith, free, λ j l r. absurd (omega arith))
]

search_free_block-step :
    (fs : Fs) (r : Option ℕ)
    → IsFirst fs.data_bitmap fs.superblock.data_blocks_amount 0 r
    → let s : Option ℕ × Fs = elim r [
      | none ↦ (none, fs)
      | some i ↦ (some i, mark_block i true fs)
    ] in
      IsFirst fs.data_bitmap fs.superblock.data_blocks_amount 0 s.0
      × (s.1 ≡ (elim s.0 as (λ _. Fs) [ none ↦ fs | some k ↦ mark_block k true fs ]))
search_free_block-step fs none f = (f, refl)
search_free_block-step fs (some k) f = (f, refl)

-- `search_free_block` takes the first block that the bitmap leaves free and marks it, and changes
-- nothing else; where it finds none, all blocks are in use and nothing changes.
pub search_free_block-IsFirst :
    (fs : Fs)
    → let r = search_free_block fs in
      IsFirst fs.data_bitmap fs.superblock.data_blocks_amount 0 r.0
      × (r.1 ≡ (elim r.0 as (λ _. Fs) [ none ↦ fs | some k ↦ mark_block k true fs ]))
unfolding search_free_block
search_free_block-IsFirst fs =
    search_free_block-step fs (first_free fs.data_bitmap fs.superblock.data_blocks_amount 0)
      (first_free-IsFirst fs.data_bitmap fs.superblock.data_blocks_amount 0)
