-- ===== src/Fs/Tests.antt =====
-- A disk with one regular file and one directory: runs of fs.c, and its theorems at it.
use sistemas_operativos.Base.{ℕ, ◌%◌, ◌≡◌, refl, true, false, arith, if◌then◌else◌, ◌==◌}
use sistemas_operativos.Fs.State.{Inode, Fs, ok}
use sistemas_operativos.Fs.Inodes.{
  search_free_block, first_free, allocate_new_block, deallocate_blocks_from_inode,
}
use sistemas_operativos.Fs.Inodes.Append.{Appended, allocate_new_block-Appended}
use sistemas_operativos.Fs.Inodes.Release.{Released, deallocate_blocks_from_inode-Released}
use sistemas_operativos.Fs.Io.Truncate.{truncate_inode-shrinks}
use sistemas_operativos.Fs.Io.{truncate_inode}

abbrev file_at : (mode size : ℕ) → (block : ℕ) → Inode
file_at mode size b = record {
  type_mode = mode;
  user_id = 1000;
  group_id = 1000;
  last_access = 7;
  last_modification = 7;
  created_date = 7;
  size = size;
  link_count = 1;
  blocks = λ _. b;
  block_amount = 1;
}

-- Inode 1 is the root, all others are regular files of 10 bytes.
abbrev demo : Fs
demo = record {
  superblock = record {
    inode_amount = 6300;
    data_blocks_amount = 6300;
    block_bytes = 32768;
    inode_start = 1;
    data_start = 51;
    root = 1;
  };
  data_bitmap = λ n. n == 0;
  inode_bitmap = λ n. true;
  inodes = λ n. if n == 1 then file_at 16877 528 0 else file_at 33261 10 5;
  bytes = λ a. a % 256;
  pointers = λ b k. 0;
  clock = 9;
  uid = 1000;
  gid = 1000;
}

allocate_new_block-Appended_example :
    let r = allocate_new_block 2 demo in
    (demo.data_bitmap 1 ≡ false) × (r.1.data_bitmap 1 ≡ true) × Appended 2 1 demo r.1
unfolding allocate_new_block search_free_block first_free
allocate_new_block-Appended_example = allocate_new_block-Appended 2 1 demo refl

deallocate_blocks_from_inode-Released_example :
    Released 2 0 demo (deallocate_blocks_from_inode 2 0 demo)
deallocate_blocks_from_inode-Released_example =
    deallocate_blocks_from_inode-Released 2 0 demo (omega arith)

truncate_inode-shrinks_example :
    let r = truncate_inode (λ _. 7) 2 4 demo in
    (r.0 ≡ ok 0) × ((r.1.inodes 2).size ≡ 4) × Released 2 1 demo r.1
truncate_inode-shrinks_example =
    truncate_inode-shrinks (λ _. 7) 2 4 demo (omega arith) (omega arith)
