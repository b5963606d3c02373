-- ===== src/Fs/Handlers.antt =====
-- The FUSE handlers of fisopfs.c. `behind` is what stands behind the buffer of zeros in memory. What
-- the handlers print is not part of the state.
mod Tests
pub mod Errors
use Prim.Native.Nat.{bit_or}
use sistemas_operativos.Base.{ℕ, ◌==◌, Bool, true, false, not, List, if◌then◌else◌, []}
use sistemas_operativos.Fs.State.{
  dir_type_mode, Inode, Fs, Errno, einval, enoent, enotdir, eexist, eisdir, enotempty, Ret, ok, err,
  faults, out_of_fuel, put_inode, s_isdir, has_bit,
}
use sistemas_operativos.Fs.Io.{fiuba_read, fiuba_write, truncate_inode, fiuba_access}
use sistemas_operativos.Fs.Dirs.{dir_is_empty}
use sistemas_operativos.Fs.Paths.{search_inode, new_inode, fiuba_rmv_inode}

-- The fields that `getattr` fills in.
pub record Stat : Type 0 where
  pub st_mode : ℕ
  pub st_uid : ℕ
  pub st_gid : ℕ
  pub st_size : ℕ
  pub st_blocks : ℕ
  pub st_atime : ℕ
  pub st_mtime : ℕ
  pub st_ctime : ℕ

abbrev pub stat_of : Inode → Stat
stat_of inode = record {
  st_mode = inode.type_mode;
  st_uid = inode.user_id;
  st_gid = inode.group_id;
  st_size = inode.size;
  st_blocks = inode.block_amount;
  st_atime = inode.last_access;
  st_mtime = inode.last_modification;
  st_ctime = inode.last_modification;
}

-- REG_TYPE_MODE: S_IFREG with 0755. O_CREAT. F_OK.
abbrev pub reg_type_mode : ℕ
reg_type_mode = 33261

abbrev pub o_creat : ℕ
o_creat = 64

abbrev pub f_ok : ℕ
f_ok = 0

-- A handler that goes on with the inode of its path, or returns the error of the search.
abbrev pub with_inode : List ℕ → Fs → (ℕ → Ret × Fs) → Ret × Fs
with_inode path fs go = elim (search_inode path fs) [
  | ok i ↦ go i
  | err e ↦ (err e, fs)
  | faults ↦ (faults, fs)
  | out_of_fuel ↦ (out_of_fuel, fs)
]

-- The status, and what `st` holds then.
unfoldable pub fisopfs_getattr : List ℕ → Stat → Fs → Ret × Stat
fisopfs_getattr path st fs = elim (search_inode path fs) [
  | ok i ↦ (ok 0, stat_of (fs.inodes i))
  | err e ↦ (err e, st)
  | faults ↦ (faults, st)
  | out_of_fuel ↦ (out_of_fuel, st)
]

-- Any error of the search, not only that nothing is found, leads on to `new_inode`.
abbrev pub make_node : List ℕ → (mode : ℕ) → Fs → Ret × Fs
make_node path mode fs =
    let r = new_inode path mode fs in
    elim r.0 [ ok n ↦ (ok 0, r.1) | err e ↦ r | faults ↦ r | out_of_fuel ↦ r ]

unfoldable pub fisopfs_mknod : List ℕ → (mode : ℕ) → Fs → Ret × Fs
fisopfs_mknod path mode fs = elim (search_inode path fs) [
  | ok n ↦ if n == 0 then make_node path mode fs else (err eexist, fs)
  | err e ↦ make_node path mode fs
  | faults ↦ (faults, fs)
  | out_of_fuel ↦ (out_of_fuel, fs)
]

unfoldable pub fisopfs_mkdir : List ℕ → (mode : ℕ) → Fs → Ret × Fs
unfolding fisopfs_mknod
fisopfs_mkdir path mode fs = fisopfs_mknod path (bit_or dir_type_mode mode) fs

unfoldable pub fisopfs_unlink : List ℕ → Fs → Ret × Fs
fisopfs_unlink path fs = with_inode path fs (λ i.
    if i == 0
    then (err enoent, fs)
    else if s_isdir (fs.inodes i).type_mode
    then (err eisdir, fs)
    else fiuba_rmv_inode path i fs)

unfoldable pub fisopfs_rmdir : List ℕ → Fs → Ret × Fs
fisopfs_rmdir path fs = with_inode path fs (λ i.
    let r = dir_is_empty i fs in
    if i == 0
    then (err enoent, fs)
    else if not (s_isdir (fs.inodes i).type_mode)
    then (err enotdir, fs)
    else if not r.0
    then (err enotempty, r.1)
    else fiuba_rmv_inode path i r.1)

unfoldable pub fisopfs_truncate : (behind : ℕ → ℕ) → List ℕ → (size : ℕ) → Fs → Ret × Fs
fisopfs_truncate behind path size fs = with_inode path fs (λ i. truncate_inode behind i size fs)

unfoldable pub fisopfs_access : List ℕ → (mask : ℕ) → Fs → Ret
fisopfs_access path mask fs = elim (search_inode path fs) [
  | ok i ↦ fiuba_access i mask fs
  | err e ↦ err enoent
  | faults ↦ faults
  | out_of_fuel ↦ out_of_fuel
]

unfoldable pub fisopfs_create : List ℕ → (mode : ℕ) → Fs → Ret × Fs
unfolding fisopfs_access fisopfs_mknod
fisopfs_create path mode fs = elim (fisopfs_access path f_ok fs) [
  | ok n ↦ if n == 0 then (err eexist, fs) else fisopfs_mknod path mode fs
  | err e ↦ fisopfs_mknod path mode fs
  | faults ↦ (faults, fs)
  | out_of_fuel ↦ (out_of_fuel, fs)
]

unfoldable pub fisopfs_open : List ℕ → (flags : ℕ) → Fs → Ret × Fs
unfolding fisopfs_create
fisopfs_open path flags fs =
    if has_bit flags o_creat
    then fisopfs_create path reg_type_mode fs
    else (fisopfs_access path f_ok fs, fs)

unfoldable pub fisopfs_opendir : List ℕ → (flags : ℕ) → Fs → Ret × Fs
unfolding fisopfs_create
fisopfs_opendir path flags fs =
    if has_bit flags o_creat
    then fisopfs_create path dir_type_mode fs
    else (fisopfs_access path f_ok fs, fs)

-- The status with the bytes that the buffer gets.
unfoldable pub fisopfs_read : List ℕ → (size offset : ℕ) → Fs → (Ret × List ℕ) × Fs
fisopfs_read path size offset fs = elim (search_inode path fs) [
  | ok i ↦ fiuba_read i size offset fs
  | err e ↦ ((err e, []), fs)
  | faults ↦ ((faults, []), fs)
  | out_of_fuel ↦ ((out_of_fuel, []), fs)
]

unfoldable pub fisopfs_write : List ℕ → (buf : ℕ → ℕ) → (size offset : ℕ) → Fs → Ret × Fs
fisopfs_write path buf size offset fs = with_inode path fs (λ i.
    if s_isdir (fs.inodes i).type_mode then (err einval, fs) else fiuba_write i buf size offset fs)

-- `atime` and `mtime` are the seconds of `tv[0]` and `tv[1]`.
unfoldable pub fisopfs_utimens : List ℕ → (atime mtime : ℕ) → Fs → Ret × Fs
fisopfs_utimens path atime mtime fs = elim (search_inode path fs) [
  | ok i ↦ (
    ok 0,
    put_inode i (record (fs.inodes i) { last_access = atime; last_modification = mtime }) fs,
  )
  | err e ↦ (err enoent, fs)
  | faults ↦ (faults, fs)
  | out_of_fuel ↦ (out_of_fuel, fs)
]
