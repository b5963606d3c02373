-- ===== src/Fs/Inodes.antt =====
-- Free blocks and inodes, and the blocks of an inode, in fs.c.
pub mod Free
pub mod Append
pub mod Release
use sistemas_operativos.Base.{
  ℕ, zero, suc, ◌+◌, ◌-◌, ◌*◌, ◌%◌, ◌^◌, Bool, true, false, Option, none, some, ◌==◌, ltb, leb,
  if◌then◌else◌,
}
use sistemas_operativos.Fs.State.{
  max_direct_block_count, max_block_count, inode_indirect_block_idx, root_inode, Superblock, Inode,
  Fs, Errno, enomem, enospc, einval, Ret, ok, err, update, put_inode, mark_block, mark_inode,
}

-- The first `i` of `n` places that the bitmap leaves free.
unfoldable pub first_free : (ℕ → Bool) → (n i : ℕ) → Option ℕ
first_free bitmap zero i = none
first_free bitmap (suc n) i =
    let rest = first_free bitmap n (i + 1) in if bitmap i then rest else some i

unfoldable pub search_free_block : Fs → Option ℕ × Fs
unfolding first_free
search_free_block fs = elim (first_free fs.data_bitmap fs.superblock.data_blocks_amount 0) [
  | none ↦ (none, fs)
  | some i ↦ (some i, mark_block i true fs)
]

unfoldable pub init_inode : ℕ → (mode : ℕ) → Fs → Fs
init_inode i mode fs =
    put_inode i
      (record (fs.inodes i) {
        type_mode = mode;
        user_id = fs.uid;
        group_id = fs.gid;
        last_access = fs.clock;
        last_modification = fs.clock;
        created_date = fs.clock;
        size = 0;
        link_count = 1;
        block_amount = 0;
      })
      fs

unfoldable pub search_free_inode : (mode : ℕ) → Fs → Ret × Fs
unfolding first_free init_inode
search_free_inode mode fs =
    elim (first_free fs.inode_bitmap (fs.superblock.inode_amount - (root_inode + 1))
      (root_inode + 1)) [
        | none ↦ (err enomem, fs)
        | some i ↦ (ok i, init_inode i mode (mark_inode i true fs))
      ]

unfoldable pub get_inode_indirect_block_n : Inode → ℕ → Fs → ℕ
get_inode_indirect_block_n inode n fs =
    fs.pointers (inode.blocks inode_indirect_block_idx) (n - inode_indirect_block_idx)

-- The number of the data block; `none` is NULL of `get_inode_block` and -EINVAL of
-- `get_inode_block_n`.
unfoldable pub get_inode_block : Inode → ℕ → Fs → Option ℕ
unfolding get_inode_indirect_block_n
get_inode_block inode n fs =
    if leb inode.block_amount n
    then none
    else if leb inode_indirect_block_idx n
    then some (get_inode_indirect_block_n inode n fs)
    else some (inode.blocks n)

unfoldable pub allocate_direct_block : ℕ → (new : ℕ) → Fs → Option ℕ × Fs
allocate_direct_block i new fs =
    let inode = fs.inodes i in
    (
      some new,
      put_inode i
          (record inode {
            blocks = update inode.blocks inode.block_amount new;
            block_amount = inode.block_amount + 1;
          })
          fs,
    )

-- The entry of the indirect block, and the count.
unfoldable pub add_indirect : ℕ → (new : ℕ) → Fs → Option ℕ × Fs
add_indirect i new fs =
    let inode = fs.inodes i in
    let b = inode.blocks inode_indirect_block_idx in
    let k = inode.block_amount - inode_indirect_block_idx in
    (
      some new,
      put_inode i (record inode { block_amount = inode.block_amount + 1 })
          (record fs { pointers = update fs.pointers b (update (fs.pointers b) k new) }),
    )

unfoldable pub allocate_indirect_block : ℕ → (new : ℕ) → Fs → Option ℕ × Fs
unfolding search_free_block add_indirect
allocate_indirect_block i new fs =
    if (fs.inodes i).block_amount == max_direct_block_count
    then (let (found, fs₁) = search_free_block fs in
        elim found [
          | none ↦ (none, mark_block new false fs₁)
          | some b ↦
              let inode = fs₁.inodes i in
              add_indirect i new (
                put_inode i
                  (record inode { blocks = update inode.blocks inode_indirect_block_idx b }) fs₁)
        ])
    else add_indirect i new fs

unfoldable pub allocate_new_block : ℕ → Fs → Option ℕ × Fs
unfolding search_free_block allocate_direct_block allocate_indirect_block
allocate_new_block i fs =
    if leb max_block_count (fs.inodes i).block_amount
    then (none, fs)
    else (let (found, fs₁) = search_free_block fs in
        elim found [
          | none ↦ (none, fs₁)
          | some new ↦
              if ltb (fs₁.inodes i).block_amount max_direct_block_count
              then allocate_direct_block i new fs₁
              else allocate_indirect_block i new fs₁
        ])

abbrev pub deallocate_block : ℕ → Fs → Fs
deallocate_block n fs = mark_block n false fs

-- One turn of the loop of `deallocate_blocks_from_inode`.
pub drop_last_block : ℕ → Fs → Fs
unfolding get_inode_block
drop_last_block i fs =
    let inode = fs.inodes i in
    let fs₁ : Fs = elim (get_inode_block inode (inode.block_amount - 1) fs) [
      | none ↦ fs
      | some n ↦ deallocate_block n fs
    ] in
    put_inode i (record (fs₁.inodes i) { block_amount = (fs₁.inodes i).block_amount - 1 }) fs₁

pub drop_blocks : (n : ℕ) → ℕ → Fs → Fs
unfolding drop_last_block
drop_blocks zero i fs = fs
drop_blocks (suc n) i fs = drop_blocks n i (drop_last_block i fs)

unfoldable pub deallocate_blocks_from_inode : ℕ → (new_amount : ℕ) → Fs → Fs
unfolding drop_blocks
deallocate_blocks_from_inode i new_amount fs =
    drop_blocks ((fs.inodes i).block_amount - new_amount) i fs

unfoldable pub deallocate_inode : ℕ → Fs → Fs
unfolding deallocate_blocks_from_inode
deallocate_inode i fs = mark_inode i false (deallocate_blocks_from_inode i 0 fs)

unfoldable pub substract_link : ℕ → Fs → Fs
unfolding deallocate_inode
substract_link i fs =
    let count = ((fs.inodes i).link_count + 2 ^ 64 - 1) % 2 ^ 64 in
    let fs₁ = put_inode i (record (fs.inodes i) { link_count = count }) fs in
    if count == 0 then deallocate_inode i fs₁ else fs₁

unfoldable pub notify_access : ℕ → Fs → Fs
notify_access i fs = put_inode i (record (fs.inodes i) { last_access = fs.clock }) fs

unfoldable pub notify_modif : ℕ → Fs → Fs
notify_modif i fs = put_inode i (record (fs.inodes i) { last_modification = fs.clock }) fs
