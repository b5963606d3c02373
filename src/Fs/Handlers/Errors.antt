-- ===== src/Fs/Handlers/Errors.antt =====
-- The answers of the handlers of fisopfs.c where a path exists, where it does not, and where it is too
-- long to be searched.
use sistemas_operativos.Base.{ℕ, ◌≤◌, ◌≡◌, ◌≢◌, true, false, List, [], ◌∷◌, arith, length}
use sistemas_operativos.Fs.State.{
  max_file_name, Fs, Errno, einval, enoent, enotdir, enametoolong, eexist, eisdir, enotempty, ok,
  err, s_isdir, has_bit,
}
use sistemas_operativos.Fs.Io.{fiuba_access}
use sistemas_operativos.Fs.Dirs.{dir_is_empty}
use sistemas_operativos.Fs.Paths.{search_inode, new_inode}
use sistemas_operativos.Fs.Handlers.{
  Stat, o_creat, fisopfs_getattr, fisopfs_mknod, fisopfs_mkdir, fisopfs_unlink, fisopfs_rmdir,
  fisopfs_truncate, fisopfs_access, fisopfs_create, fisopfs_open, fisopfs_opendir, fisopfs_read,
  fisopfs_write, fisopfs_utimens,
}

too_long :
    (path : List ℕ) (fs : Fs)
    → max_file_name ≤ length path
    → search_inode path fs ≡ err enametoolong
unfolding search_inode
too_long [] fs long = absurd (ground arith)
too_long (c ∷ cs) fs long = ground arith

module _ (path : List ℕ) (fs : Fs) where
  -- Every handler that makes a node refuses a path that exists, and changes nothing.
  pub make-exists :
      (n mode flags : ℕ)
      → search_inode path fs ≡ ok n
      → n ≢ 0
      → has_bit flags o_creat ≡ true
      → (fisopfs_mknod path mode fs ≡ (err eexist, fs))
        × (fisopfs_mkdir path mode fs ≡ (err eexist, fs))
        × (fisopfs_create path mode fs ≡ (err eexist, fs))
        × (fisopfs_open path flags fs ≡ (err eexist, fs))
        × (fisopfs_opendir path flags fs ≡ (err eexist, fs))
  unfolding fisopfs_mknod fisopfs_mkdir fisopfs_create fisopfs_open fisopfs_opendir fisopfs_access
      fiuba_access
  make-exists n mode flags found ne creat = (
    ground (arith, found),
    ground (arith, found),
    ground (arith, found),
    ground (arith, found, creat),
    ground (arith, found, creat),
  )

  -- A path that is not found stops every handler that works on an inode, and nothing changes.
  pub missing-stops :
      (behind buf : ℕ → ℕ) (size offset atime mtime mask : ℕ) (st : Stat) (e : Errno)
      → search_inode path fs ≡ err e
      → (fisopfs_getattr path st fs ≡ (err e, st))
        × (fisopfs_unlink path fs ≡ (err e, fs))
        × (fisopfs_rmdir path fs ≡ (err e, fs))
        × (fisopfs_truncate behind path size fs ≡ (err e, fs))
        × (fisopfs_read path size offset fs ≡ ((err e, []), fs))
        × (fisopfs_write path buf size offset fs ≡ (err e, fs))
        × (fisopfs_access path mask fs ≡ err enoent)
        × (fisopfs_utimens path atime mtime fs ≡ (err enoent, fs))
  unfolding fisopfs_getattr fisopfs_unlink fisopfs_rmdir fisopfs_truncate fisopfs_read fisopfs_write
      fisopfs_access fisopfs_utimens
  missing-stops behind buf size offset atime mtime mask st e found = (
    ground (arith, found),
    ground (arith, found),
    ground (arith, found),
    ground (arith, found),
    ground (arith, found),
    ground (arith, found),
    ground (arith, found),
    ground (arith, found),
  )

  -- Of an inode that is found, `unlink` refuses a directory, `rmdir` refuses what is none or is not
  -- empty, and `write` refuses a directory, and nothing changes.
  pub kind-refuses :
      (n size offset : ℕ) (buf : ℕ → ℕ)
      → search_inode path fs ≡ ok n
      → n ≢ 0
      → (s_isdir (fs.inodes n).type_mode ≡ true
          → (fisopfs_unlink path fs ≡ (err eisdir, fs))
            × (fisopfs_write path buf size offset fs ≡ (err einval, fs))
            × (dir_is_empty n fs ≡ (false, fs) → fisopfs_rmdir path fs ≡ (err enotempty, fs)))
        × (s_isdir (fs.inodes n).type_mode ≡ false → fisopfs_rmdir path fs ≡ (err enotdir, fs))
  unfolding fisopfs_unlink fisopfs_rmdir fisopfs_write
  kind-refuses n size offset buf found ne = (
    λ dir. (
      ground (arith, found, dir),
      ground (arith, found, dir),
      λ full. ground (arith, found, dir, full),
    ),
    λ file. ground (arith, found, file),
  )

  -- Where the path has 256 characters or more and `new_inode` makes a node for it, `mknod` succeeds, but no
  -- search finds the path, whatever the state.
  mknod-unreachable :
      (mode new : ℕ) (fs' : Fs)
      → max_file_name ≤ length path
      → new_inode path mode fs ≡ (ok new, fs')
      → (fisopfs_mknod path mode fs ≡ (ok 0, fs'))
        × ((fs'' : Fs) → search_inode path fs'' ≡ err enametoolong)
  unfolding fisopfs_mknod
  mknod-unreachable mode new fs' long made =
      (ground (arith, too_long path fs long, made), λ fs''. too_long path fs'' long)
