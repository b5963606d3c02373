-- ===== src/Fs/Paths.antt =====
-- Paths in fs.c: the search of an inode and of the directory above it, new and removed names, and
-- the start of the file system. A path is its characters without the NUL.
pub mod Split
use sistemas_operativos.Base.{
  ℕ, zero, suc, ◌+◌, ◌-◌, ◌*◌, ◌/◌, ◌%◌, Bool, true, false, not, ◌&&◌, ◌||◌, Option, none, some,
  List, [], ◌∷◌, ◌++◌, ◌==◌, ltb, leb, if◌then◌else◌, length,
}
use sistemas_operativos.Fs.State.{
  block_size, max_file_name, max_path_len, dentry_size, slash, root_inode, dir_type_mode,
  block_amount_of_fs, inode_amount_of_fs, Superblock, Inode, Fs, Errno, einval, enoent, enotdir,
  enametoolong, Ret, ok, err, faults, out_of_fuel, put_inode, mark_inode, s_isdir,
}
use sistemas_operativos.Fs.Inodes.{search_free_inode, init_inode, substract_link}
use sistemas_operativos.Fs.Io.{fiuba_write}
use sistemas_operativos.Fs.Dirs.{
  iterate_over_dir, insert_direntry_if_free, search_dir_inode_n, unlink_inode, dentry_bytes,
  init_data_blocks_dir,
}

-- The name up to the first slash, and what follows it from the slash on.
pub get_first_file_name : List ℕ → List ℕ × List ℕ
get_first_file_name [] = ([], [])
get_first_file_name (c ∷ cs) =
    let rest = get_first_file_name cs in if c == slash then ([], c ∷ cs) else (c ∷ rest.0, rest.1)

pub search_inode_rec : (fuel : ℕ) → List ℕ → ℕ → Fs → Ret
unfolding get_first_file_name
search_inode_rec zero path i fs = out_of_fuel
search_inode_rec (suc fuel) path i fs =
    if not (s_isdir (fs.inodes i).type_mode) then err enotdir else elim path [
      | [] ↦ ok i
      | c ∷ cs ↦ elim (search_dir_inode_n i (get_first_file_name (c ∷ cs)).0 fs).0 [
        | ok n ↦ if n == 0 then err enoent else elim (get_first_file_name (c ∷ cs)).1 [
          | [] ↦ ok n
          | s ∷ rest ↦ search_inode_rec fuel rest n fs
        ]
        | err e ↦ err e
        | faults ↦ faults
        | out_of_fuel ↦ out_of_fuel
      ]
    ]

-- The path without a slash at its end.
pub drop_slash : List ℕ → List ℕ
drop_slash [] = []
drop_slash (c ∷ []) = if c == slash then [] else c ∷ []
drop_slash (c ∷ d ∷ cs) = c ∷ drop_slash (d ∷ cs)

unfoldable pub search_inode : List ℕ → Fs → Ret
unfolding search_inode_rec drop_slash
search_inode [] fs = err einval
search_inode (c ∷ cs) fs =
    if leb max_file_name (length (c ∷ cs))
    then err enametoolong
    else search_inode_rec (length cs + 1) (drop_slash cs) root_inode fs

-- The characters up to the last slash, that one included; `none` where there is no slash and C reads
-- before the string.
pub up_to_last_slash : List ℕ → Option (List ℕ)
up_to_last_slash [] = none
up_to_last_slash (c ∷ cs) = elim (up_to_last_slash cs) [
  | some kept ↦ some (c ∷ kept)
  | none ↦ if c == slash then some (c ∷ []) else none
]

unfoldable pub search_parent_directory : List ℕ → Fs → Ret
unfolding up_to_last_slash
search_parent_directory [] fs = faults
search_parent_directory (c ∷ cs) fs =
    if leb max_path_len (length cs)
    then err enametoolong
    else if (c == slash) && (length cs == 0)
    then search_inode (c ∷ cs) fs
    else elim (up_to_last_slash (drop_slash (c ∷ cs))) [
      | none ↦ faults
      | some parent ↦ search_inode parent fs
    ]

-- The characters of the path from `extract_last_name_offset` on: those behind its last slash, or
-- behind its first character if there is none.
pub behind_last_slash : List ℕ → Option (List ℕ)
behind_last_slash [] = none
behind_last_slash (c ∷ cs) = elim (behind_last_slash cs) [
  | some name ↦ some name
  | none ↦ if c == slash then some cs else none
]

unfoldable pub last_name : List ℕ → List ℕ
unfolding behind_last_slash
last_name [] = []
last_name (c ∷ cs) = elim (behind_last_slash cs) [ some name ↦ name | none ↦ cs ]

-- The end of `add_inode_to_directory`.
pub link_back : (parent new : ℕ) → Fs → Ret × Fs
link_back parent new fs =
    (ok 0, if s_isdir (fs.inodes new).type_mode then init_data_blocks_dir new new parent fs else fs)

-- A name that the entry has no room for makes `strcpy` leave it.
unfoldable pub add_inode_to_directory : (parent new : ℕ) → List ℕ → Fs → Ret × Fs
unfolding link_back
add_inode_to_directory parent new name fs =
    if leb max_file_name (length name)
    then (faults, fs)
    else (let r = iterate_over_dir parent (insert_direntry_if_free new name) fs in
        elim r.0 [
          | ok n ↦
              if n == 0
              then (let w =
                    fiuba_write parent (dentry_bytes new name) dentry_size (r.1.inodes parent).size
                      r.1 in
                  elim w.0 [
                    | ok k ↦ link_back parent new w.1
                    | err e ↦ w
                    | faults ↦ w
                    | out_of_fuel ↦ w
                  ])
              else link_back parent new r.1
          | err e ↦ link_back parent new r.1
          | faults ↦ r
          | out_of_fuel ↦ r
        ])

-- `ok new` stands for EXIT_SUCCESS with the new inode in `*out`.
unfoldable pub new_inode : List ℕ → (mode : ℕ) → Fs → Ret × Fs
unfolding search_free_inode
new_inode path mode fs =
    if ltb max_path_len (length path)
    then (err enametoolong, fs)
    else elim (search_parent_directory path fs) [
      | ok parent ↦
          let r = search_free_inode mode fs in
          elim r.0 [
            | ok new ↦
                let a = add_inode_to_directory parent new (last_name path) r.1 in
                elim a.0 [
                  | ok k ↦ (ok new, a.1)
                  | err e ↦ (err e, mark_inode new false a.1)
                  | faults ↦ a
                  | out_of_fuel ↦ a
                ]
            | err e ↦ r
            | faults ↦ r
            | out_of_fuel ↦ r
          ]
      | err e ↦ (err e, fs)
      | faults ↦ (faults, fs)
      | out_of_fuel ↦ (out_of_fuel, fs)
    ]

unfoldable pub remove_from_parent : List ℕ → Fs → Ret × Fs
remove_from_parent path fs = elim (search_parent_directory path fs) [
  | ok parent ↦
      if parent == 0
      then (err enoent, fs)
      else (let r = unlink_inode parent (last_name path) fs in
          elim r.0 [
            | ok n ↦ (if n == 0 then err enoent else ok n, r.1)
            | err e ↦ r
            | faults ↦ r
            | out_of_fuel ↦ r
          ])
  | err e ↦ (err e, fs)
  | faults ↦ (faults, fs)
  | out_of_fuel ↦ (out_of_fuel, fs)
]

unfoldable pub fiuba_rmv_inode : List ℕ → (i : ℕ) → Fs → Ret × Fs
unfolding remove_from_parent
fiuba_rmv_inode path i fs =
    let r = remove_from_parent path fs in
    elim r.0 [
      | ok n ↦ if n == 0 then r else (ok 0, substract_link i r.1)
      | err e ↦ r
      | faults ↦ r
      | out_of_fuel ↦ r
    ]

pub init_superblock : Fs → Fs
init_superblock fs = record fs {
  superblock = record {
    inode_amount = inode_amount_of_fs;
    data_blocks_amount = block_amount_of_fs;
    block_bytes = block_size;
    inode_start = 1;
    data_start = 51;
    root = root_inode;
  };
}

pub init_bitmaps : Fs → Fs
init_bitmaps fs = record fs {
  data_bitmap = λ n. if ltb n fs.superblock.data_blocks_amount then false else fs.data_bitmap n;
  inode_bitmap = λ n.
      if n == 0
      then true
      else if ltb n fs.superblock.inode_amount
      then false
      else fs.inode_bitmap n;
}

pub init_root_inode : Fs → Fs
unfolding init_inode init_data_blocks_dir
init_root_inode fs =
    let i = fs.superblock.root in
    let fs₁ =
      init_inode i dir_type_mode (put_inode i (record (fs.inodes i) { link_count = 1 }) fs) in
    mark_inode root_inode true (init_data_blocks_dir i root_inode root_inode fs₁)

unfoldable pub init_fs : Fs → Fs
unfolding init_superblock init_bitmaps init_root_inode
init_fs fs = init_root_inode (init_bitmaps (init_superblock fs))
