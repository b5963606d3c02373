-- ===== src/Fs/State.antt =====
-- The data of fs.c and fs.h: the superblock, the bitmaps, the inodes and the bytes of the data
-- blocks. An indirect block is kept as numbers, apart from the bytes of the block that it stands on.
use sistemas_operativos.Base.{ℕ, ◌+◌, ◌*◌, ◌/◌, ◌%◌, Bool, ◌==◌, if◌then◌else◌}

abbrev pub block_size : ℕ
block_size = 32 * 1024

abbrev pub max_file_name : ℕ
max_file_name = 256

abbrev pub max_path_len : ℕ
max_path_len = 2048

abbrev pub max_direct_block_count : ℕ
max_direct_block_count = 12

abbrev pub max_block_count : ℕ
max_block_count = 12 + block_size / 4

abbrev pub inode_indirect_block_idx : ℕ
inode_indirect_block_idx = 12

abbrev pub block_amount_of_fs : ℕ
block_amount_of_fs = 6300

abbrev pub inode_amount_of_fs : ℕ
inode_amount_of_fs = 6300

abbrev pub root_inode : ℕ
root_inode = 1

abbrev pub kib : ℕ
kib = 1024

-- sizeof(dentry_t)
abbrev pub dentry_size : ℕ
dentry_size = 264

abbrev pub slash : ℕ
slash = 47

abbrev pub dot_char : ℕ
dot_char = 46

pub record Superblock : Type 0 where
  pub inode_amount : ℕ
  pub data_blocks_amount : ℕ
  pub block_bytes : ℕ
  pub inode_start : ℕ
  pub data_start : ℕ
  pub root : ℕ

pub record Inode : Type 0 where
  pub type_mode : ℕ
  pub user_id : ℕ
  pub group_id : ℕ
  pub last_access : ℕ
  pub last_modification : ℕ
  pub created_date : ℕ
  pub size : ℕ
  pub link_count : ℕ
  pub blocks : ℕ → ℕ
  pub block_amount : ℕ

-- `bytes a` is the byte at `a` from DATA_BLOCKS on, `pointers b k` the number at place `k` of an
-- indirect block `b`; `clock`, `uid` and `gid` are what `time`, `getuid` and `getgid` return.
pub record Fs : Type 0 where
  pub superblock : Superblock
  pub data_bitmap : ℕ → Bool
  pub inode_bitmap : ℕ → Bool
  pub inodes : ℕ → Inode
  pub bytes : ℕ → ℕ
  pub pointers : ℕ → ℕ → ℕ
  pub clock : ℕ
  pub uid : ℕ
  pub gid : ℕ

pub data Errno : Type 0 where
  einval enospc enomem enoent enotdir enametoolong eexist eisdir enotempty failure : Errno

-- What a function returns: a number, a negative error, or nothing, where it leaves its string or
-- its array, or the model runs out of fuel.
pub data Ret : Type 0 where
  ok : ℕ → Ret
  err : Errno → Ret
  faults : Ret
  out_of_fuel : Ret

abbrev pub update {ℓ} : {A : Type ℓ} → (ℕ → A) → ℕ → A → ℕ → A
update f p v q = if q == p then v else f q

abbrev pub put_inode : ℕ → Inode → Fs → Fs
put_inode i v fs = record fs { inodes = update fs.inodes i v }

abbrev pub put_byte : ℕ → ℕ → Fs → Fs
put_byte a c fs = record fs { bytes = update fs.bytes a c }

abbrev pub mark_block : ℕ → Bool → Fs → Fs
mark_block n b fs = record fs { data_bitmap = update fs.data_bitmap n b }

abbrev pub mark_inode : ℕ → Bool → Fs → Fs
mark_inode n b fs = record fs { inode_bitmap = update fs.inode_bitmap n b }

-- The file type bits of a mode.
abbrev pub s_isdir : ℕ → Bool
s_isdir mode = mode / 4096 % 16 == 4

-- A bit of a mode or a mask.
abbrev pub has_bit : ℕ → (bit : ℕ) → Bool
has_bit n bit = n / bit % 2 == 1

-- DIR_TYPE_MODE: S_IFDIR with 0755.
abbrev pub dir_type_mode : ℕ
dir_type_mode = 16384 + 493
