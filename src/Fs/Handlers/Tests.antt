-- ===== src/Fs/Handlers/Tests.antt =====
-- A small disk with an empty root: the theorems on fisopfs.c at it.
use sistemas_operativos.Base.{
  ℕ, zero, suc, ◌≡◌, ◌==◌, refl, true, false, List, [], ◌∷◌, if◌then◌else◌,
}
use sistemas_operativos.Fs.State.{slash, Inode, Fs, ok}
use sistemas_operativos.Fs.Inodes.{
  search_free_inode, search_free_block, first_free, init_inode, get_inode_block, allocate_new_block,
  allocate_direct_block, notify_access, notify_modif,
}
use sistemas_operativos.Fs.Io.{fiuba_write, calc_last_block_idx}
use sistemas_operativos.Fs.Dirs.{iterate_over_dir}
use sistemas_operativos.Fs.Paths.{
  search_inode, search_parent_directory, last_name, add_inode_to_directory, new_inode,
}

abbrev many : ℕ → List ℕ
many zero = []
many (suc n) = 97 ∷ many n

-- A slash and a name of 255 characters.
abbrev long_path : List ℕ
long_path = slash ∷ many 255

abbrev empty_inode : (mode : ℕ) → Inode
empty_inode mode = record {
  type_mode = mode;
  user_id = 0;
  group_id = 0;
  last_access = 0;
  last_modification = 0;
  created_date = 0;
  size = 0;
  link_count = 1;
  blocks = λ _. 0;
  block_amount = 0;
}

abbrev disk : Fs
disk = record {
  superblock = record {
    inode_amount = 10;
    data_blocks_amount = 10;
    block_bytes = 32768;
    inode_start = 1;
    data_start = 51;
    root = 1;
  };
  data_bitmap = λ n. false;
  inode_bitmap = λ n. if n == 0 then true else n == 1;
  inodes = λ n. empty_inode (if n == 1 then 16877 else 0);
  bytes = λ a. 0;
  pointers = λ b k. 0;
  clock = 9;
  uid = 1000;
  gid = 1000;
}

parent_is_root : search_parent_directory long_path disk ≡ ok 1
unfolding search_parent_directory search_inode
parent_is_root = refl

abbrev with_node : Fs
with_node = (search_free_inode 33261 disk).1

node_is_two : (search_free_inode 33261 disk).0 ≡ ok 2
unfolding search_free_inode first_free
node_is_two = refl

enters : (add_inode_to_directory 1 2 (last_name long_path) with_node).0 ≡ ok 0
unfolding add_inode_to_directory search_free_inode first_free init_inode iterate_over_dir
    get_inode_block last_name fiuba_write calc_last_block_idx allocate_new_block search_free_block
    allocate_direct_block notify_access notify_modif
enters = refl

made : new_inode long_path 33261 disk ≡ (ok 2, (new_inode long_path 33261 disk).1)
unfolding new_inode
made = rw (parent_is_root, node_is_two, enters) refl
