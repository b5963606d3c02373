-- ===== src/Fs/Inodes/Append.antt =====
-- What `allocate_new_block` of fs.c adds to an inode.
use sistemas_operativos.Base.{
  ℕ, ◌+◌, ◌-◌, ◌≤◌, ◌<◌, ◌≡◌, refl, ap, Bool, true, false, Option, none, some, arith, ◌==◌, ltb,
  leb, if◌then◌else◌, Bool-cases, Option-cases, inl, inr, ==_refl,
}
use sistemas_operativos.Fs.State.{
  max_direct_block_count, max_block_count, inode_indirect_block_idx, Fs, update, put_inode,
  mark_block,
}
use sistemas_operativos.Fs.Inodes.{
  search_free_block, get_inode_block, get_inode_indirect_block_n, allocate_direct_block,
  add_indirect, allocate_indirect_block, allocate_new_block,
}
use sistemas_operativos.Fs.Inodes.Free.{search_free_block-IsFirst}

-- The inode has one block more, which is `b`, and the blocks it had.
pub record Appended (i b : ℕ) (fs fs' : Fs) : Type 0 where
  pub amount : (fs'.inodes i).block_amount ≡ (fs.inodes i).block_amount + 1
  pub last : get_inode_block (fs'.inodes i) (fs.inodes i).block_amount fs' ≡ some b
  pub before :
      (k : ℕ)
      → k < (fs.inodes i).block_amount
      → get_inode_block (fs'.inodes i) k fs' ≡ get_inode_block (fs.inodes i) k fs

allocate_direct_block-Appended :
    (i b : ℕ) (fs : Fs)
    → (fs.inodes i).block_amount < max_direct_block_count
    → Appended i b fs (allocate_direct_block i b fs).1
unfolding allocate_direct_block get_inode_block get_inode_indirect_block_n
allocate_direct_block-Appended i b fs direct = record {
  amount = ground (arith, ==_refl i);
  last = ground (arith, ==_refl i);
  before = λ k l. ground (arith, ==_refl i);
}

add_indirect-Appended :
    (i b : ℕ) (fs : Fs)
    → max_direct_block_count ≤ (fs.inodes i).block_amount
    → Appended i b fs (add_indirect i b fs).1
unfolding add_indirect get_inode_block get_inode_indirect_block_n
add_indirect-Appended i b fs indirect = record {
  amount = ground (arith, ==_refl i);
  last = ground (
    arith,
    ==_refl i,
    ==_refl ((fs.inodes i).blocks 12),
    ==_refl ((fs.inodes i).block_amount - 12),
  );
  before = λ k l. ground (arith, ==_refl i);
}

-- A search that finds a block, as an equation.
search_free_block-found :
    (fs : Fs) (b : ℕ)
    → (search_free_block fs).0 ≡ some b
    → (search_free_block fs ≡ (some b, mark_block b true fs)) × (fs.data_bitmap b ≡ false)
search_free_block-found fs b e =
    let f = rw e at (search_free_block-IsFirst fs) in (λ t. (e t, f.1 t), f.0.2)

-- The inode gets its indirect block first.
fresh_indirect-Appended :
    (i b c : ℕ) (fs : Fs)
    → (fs.inodes i).block_amount ≡ max_direct_block_count
    → let fs₁ =
        put_inode i
          (record (fs.inodes i) { blocks = update (fs.inodes i).blocks inode_indirect_block_idx c })
          fs in
      Appended i b fs (add_indirect i b fs₁).1
unfolding add_indirect get_inode_block get_inode_indirect_block_n
fresh_indirect-Appended i b c fs full = record {
  amount = ground (arith, ==_refl i);
  last = ground (arith, ==_refl i, ==_refl c, full);
  before = λ k l. ground (arith, ==_refl i, full);
}

Appended-mark :
    (i b n : ℕ) (v : Bool) (fs fs' : Fs)
    → Appended i b (mark_block n v fs) fs'
    → Appended i b fs fs'
unfolding get_inode_block get_inode_indirect_block_n
Appended-mark i b n v fs fs' a = record { amount = a.amount; last = a.last; before = a.before }

-- What an allocation of block `n` gives, as a result.
record Allocated (i n : ℕ) (fs : Fs) (r : Option ℕ × Fs) : Type 0 where
  block : r.0 ≡ some n
  used : r.1.data_bitmap n ≡ true
  appended : Appended i n fs r.1

allocate_direct_block-Allocated :
    (i n : ℕ) (fs : Fs)
    → (fs.inodes i).block_amount < max_direct_block_count
    → fs.data_bitmap n ≡ true
    → Allocated i n fs (allocate_direct_block i n fs)
unfolding allocate_direct_block
allocate_direct_block-Allocated i n fs direct used = record {
  block = refl;
  used = used;
  appended = allocate_direct_block-Appended i n fs direct;
}

module _ (i n : ℕ) (fs : Fs) where
  indirect_more :
      ((fs.inodes i).block_amount == max_direct_block_count) ≡ false
      → allocate_indirect_block i n fs ≡ add_indirect i n fs
  unfolding allocate_indirect_block
  indirect_more e = rw e refl

  indirect_none :
      ((fs.inodes i).block_amount == max_direct_block_count) ≡ true
      → (search_free_block fs).0 ≡ none
      → (allocate_indirect_block i n fs).0 ≡ none
  unfolding allocate_indirect_block
  indirect_none e f = rw (e, f) refl

  indirect_fresh :
      (c : ℕ) (fs₁ : Fs)
      → ((fs.inodes i).block_amount == max_direct_block_count) ≡ true
      → search_free_block fs ≡ (some c, fs₁)
      → allocate_indirect_block i n fs
        ≡ add_indirect i n (
            put_inode i
              (record (fs₁.inodes i) {
                blocks = update (fs₁.inodes i).blocks inode_indirect_block_idx c;
              })
              fs₁)
  unfolding allocate_indirect_block
  indirect_fresh c fs₁ e f = rw e (
      ap
        (λ (r : Option ℕ × Fs). elim r.0 as (λ _. Option ℕ × Fs) [
          | none ↦ (none, mark_block n false r.1)
          | some b ↦ add_indirect i n (
              put_inode i
                (record (r.1.inodes i) {
                  blocks = update (r.1.inodes i).blocks inode_indirect_block_idx b;
                })
                r.1)
        ])
        f)

  new_full :
      leb max_block_count (fs.inodes i).block_amount ≡ true → (allocate_new_block i fs).0 ≡ none
  unfolding allocate_new_block
  new_full e = rw e refl

  new_none :
      leb max_block_count (fs.inodes i).block_amount ≡ false
      → (search_free_block fs).0 ≡ none
      → (allocate_new_block i fs).0 ≡ none
  unfolding allocate_new_block
  new_none e f = rw (e, f) refl

  new_some :
      (fs₁ : Fs)
      → leb max_block_count (fs.inodes i).block_amount ≡ false
      → search_free_block fs ≡ (some n, fs₁)
      → allocate_new_block i fs ≡ (
          if ltb (fs₁.inodes i).block_amount max_direct_block_count
          then allocate_direct_block i n fs₁
          else allocate_indirect_block i n fs₁)
  unfolding allocate_new_block
  new_some fs₁ e f = rw e (
      ap
        (λ (r : Option ℕ × Fs). elim r.0 as (λ _. Option ℕ × Fs) [
          | none ↦ (none, r.1)
          | some new ↦
              if ltb (r.1.inodes i).block_amount max_direct_block_count
              then allocate_direct_block i new r.1
              else allocate_indirect_block i new r.1
        ])
        f)

add_indirect-Allocated :
    (i n : ℕ) (fs fs₁ : Fs)
    → Appended i n fs (add_indirect i n fs₁).1
    → fs₁.data_bitmap n ≡ true
    → Allocated i n fs (add_indirect i n fs₁)
unfolding add_indirect
add_indirect-Allocated i n fs fs₁ a used = record { block = refl; used = used; appended = a }

allocate_indirect_block-Allocated :
    (i n b : ℕ) (fs : Fs)
    → max_direct_block_count ≤ (fs.inodes i).block_amount
    → fs.data_bitmap n ≡ true
    → (allocate_indirect_block i n fs).0 ≡ some b
    → Allocated i n fs (allocate_indirect_block i n fs)
allocate_indirect_block-Allocated i n b fs indirect used e =
    elim (Bool-cases ((fs.inodes i).block_amount == max_direct_block_count)) [
      | inl full ↦ elim (Option-cases (search_free_block fs).0) [
        | inl none_left ↦ let gone = indirect_none i n fs full none_left in ground (arith, e, gone)
        | inr (c, found) ↦
            let f = search_free_block-found fs c found in
            rw (indirect_fresh i n fs c (mark_block c true fs) full f.0) (
              add_indirect-Allocated i n fs _
                (Appended-mark i n c true fs _
                  (fresh_indirect-Appended i n c (mark_block c true fs) (ground arith)))
                (ground (arith, used)))
      ]
      | inr more ↦
          rw (indirect_more i n fs more)
            (add_indirect-Allocated i n fs fs (add_indirect-Appended i n fs indirect) used)
    ]

Appended-Allocated :
    (i b n : ℕ) (fs : Fs)
    → (allocate_new_block i fs).0 ≡ some b
    → fs.data_bitmap n ≡ false
    → Allocated i n (mark_block n true fs) (allocate_new_block i fs)
    → (fs.data_bitmap b ≡ false)
      × ((allocate_new_block i fs).1.data_bitmap b ≡ true)
      × Appended i b fs (allocate_new_block i fs).1
Appended-Allocated i b n fs e free a =
    let same : n ≡ b = ground (arith, e, a.block) in
    rw⁻¹ same (free, a.used, Appended-mark i n n true fs (allocate_new_block i fs).1 a.appended)

-- Where `allocate_new_block` gives a block, the bitmap had it free and has it in use, and the inode
-- has it behind the blocks it had, which are the same.
pub allocate_new_block-Appended :
    (i b : ℕ) (fs : Fs)
    → (allocate_new_block i fs).0 ≡ some b
    → (fs.data_bitmap b ≡ false)
      × ((allocate_new_block i fs).1.data_bitmap b ≡ true)
      × Appended i b fs (allocate_new_block i fs).1
allocate_new_block-Appended i b fs e =
    elim (Bool-cases (leb max_block_count (fs.inodes i).block_amount)) [
      | inl full ↦ let gone = new_full i b fs full in ground (arith, e, gone)
      | inr room ↦ elim (Option-cases (search_free_block fs).0) [
        | inl none_left ↦ let gone = new_none i b fs room none_left in ground (arith, e, gone)
        | inr (n, found) ↦
            let f = search_free_block-found fs n found in
            let fs₁ = mark_block n true fs in
            let used : fs₁.data_bitmap n ≡ true = ground (arith, ==_refl n) in
            let step = new_some i n fs fs₁ room f.0 in
            Appended-Allocated i b n fs e f.1
              (elim (Bool-cases (ltb (fs.inodes i).block_amount max_direct_block_count)) [
                | inl direct ↦
                    rw (step, direct) (allocate_direct_block-Allocated i n fs₁ (ground arith) used)
                | inr indirect ↦
                    rw (step, indirect)
                      (allocate_indirect_block-Allocated i n b fs₁ (ground arith) used
                        (rw (step, indirect) at e))
              ])
      ]
    ]
