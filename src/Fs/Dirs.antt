-- ===== src/Fs/Dirs.antt =====
-- Directory entries in fs.c: the iteration over a directory, and the functions it applies. An entry
-- is read from the bytes of the data blocks and written to them.
use sistemas_operativos.Base.{
  ℕ, zero, suc, ◌+◌, ◌-◌, ◌*◌, ◌/◌, ◌%◌, ◌^◌, Bool, true, false, not, ◌&&◌, ◌||◌, none, some, List,
  [], ◌∷◌, ◌==◌, ltb, leb, if◌then◌else◌,
}
use sistemas_operativos.Fs.State.{
  block_size, max_file_name, dentry_size, dot_char, Fs, enotdir, Ret, ok, err, out_of_fuel,
  put_byte, s_isdir, faults,
}
use sistemas_operativos.Fs.Inodes.{get_inode_block}
use sistemas_operativos.Fs.Io.{fiuba_write}

-- `strcmp a b == 0` on strings without their NUL.
abbrev pub same_name : List ℕ → List ℕ → Bool
same_name [] [] = true
same_name [] (y ∷ ys) = false
same_name (x ∷ xs) [] = false
same_name (x ∷ xs) (y ∷ ys) = (x == y) && same_name xs ys

-- The number in the `n` bytes from `a` on, the lowest first.
pub load : (n a : ℕ) → Fs → ℕ
load zero a fs = 0
load (suc n) a fs = fs.bytes a + 256 * load n (a + 1) fs

pub store : (n a v : ℕ) → Fs → Fs
store zero a v fs = fs
store (suc n) a v fs = store n (a + 1) (v / 256) (put_byte a (v % 256) fs)

-- The string at `a`, of less than `n` bytes.
pub c_string : (n a : ℕ) → Fs → List ℕ
c_string zero a fs = []
c_string (suc n) a fs =
    let rest = c_string n (a + 1) fs in if fs.bytes a == 0 then [] else fs.bytes a ∷ rest

-- `strcpy`, with the NUL.
pub strcpy : (a : ℕ) → List ℕ → Fs → Fs
strcpy a [] fs = put_byte a 0 fs
strcpy a (c ∷ cs) fs = strcpy (a + 1) cs (put_byte a c fs)

-- The fields of the entry at `a`.
pub inode_number : (a : ℕ) → Fs → ℕ
unfolding load
inode_number a fs = load 8 a fs

pub file_name : (a : ℕ) → Fs → List ℕ
unfolding c_string
file_name a fs = c_string max_file_name (a + 8) fs

-- A dentry_iterator, with its parameter: 0 goes on, any other number stops.
abbrev pub DentryIterator : Type 0
DentryIterator = (a : ℕ) → Fs → ℕ × Fs

unfoldable pub is_free_dentry : (a : ℕ) → Fs → Bool
unfolding inode_number
is_free_dentry a fs = inode_number a fs == 0

-- What an inode number of 64 bits is as an `int`; negative ones are written as what they wrap to.
abbrev pub to_int : ℕ → ℕ
to_int n = n % 2 ^ 32

unfoldable pub is_dentry_searched : List ℕ → DentryIterator
unfolding is_free_dentry file_name
is_dentry_searched name a fs = (
  if not (is_free_dentry a fs) && same_name (file_name a fs) name
      then to_int (inode_number a fs)
      else 0,
  fs,
)

pub search_first_file : DentryIterator
unfolding is_free_dentry file_name
search_first_file a fs = (
  if is_free_dentry a fs
        || (same_name (file_name a fs) (dot_char ∷ [])
            || same_name (file_name a fs) (dot_char ∷ dot_char ∷ []))
      then 0
      else to_int (inode_number a fs),
  fs,
)

pub remove_dentry : List ℕ → DentryIterator
unfolding is_dentry_searched store
remove_dentry name a fs =
    if (is_dentry_searched name a fs).0 == 0 then (0, fs) else (1, store 8 a 0 fs)

pub insert_direntry_if_free : (new : ℕ) → (name : List ℕ) → DentryIterator
unfolding is_free_dentry store strcpy
insert_direntry_if_free new name a fs =
    if is_free_dentry a fs then (to_int new, strcpy (a + 8) name (store 8 a new fs)) else (0, fs)

-- The loop over the `n` entries from `a` on; `iter` counts the bytes of the directory. The result is
-- the answer of the last entry, the count and the state.
pub iterate_over_one_block_dir :
    (n : ℕ) → (size : ℕ) → DentryIterator → (a iter : ℕ) → Fs → (ℕ × ℕ) × Fs
iterate_over_one_block_dir zero size func a iter fs = ((0, iter), fs)
iterate_over_one_block_dir (suc n) size func a iter fs =
    let r = func a fs in
    let rest = iterate_over_one_block_dir n size func (a + dentry_size) (iter + dentry_size) r.1 in
    if leb size iter then ((0, iter), fs) else if r.0 == 0 then rest else ((r.0, iter), r.1)

-- The loop over the blocks. Each turn counts at least one entry or is the last one.
pub dir_loop : (fuel : ℕ) → ℕ → DentryIterator → (idx iter : ℕ) → Fs → Ret × Fs
unfolding iterate_over_one_block_dir
dir_loop zero i func idx iter fs = (out_of_fuel, fs)
dir_loop (suc fuel) i func idx iter fs =
    let turn = λ (b : ℕ).
      iterate_over_one_block_dir (block_size / dentry_size) (fs.inodes i).size func (block_size * b)
        iter fs in
    let rest = λ (iter₁ : ℕ) (fs₁ : Fs). dir_loop fuel i func (idx + 1) iter₁ fs₁ in
    elim (get_inode_block (fs.inodes i) idx fs) [
      | none ↦ (ok 0, fs)
      | some b ↦
          if leb (fs.inodes i).size iter
          then (ok 0, fs)
          else if (turn b).0.0 == 0
          then rest (turn b).0.1 (turn b).1
          else (ok (turn b).0.0, (turn b).1)
    ]

unfoldable pub iterate_over_dir : ℕ → DentryIterator → Fs → Ret × Fs
unfolding dir_loop
iterate_over_dir i func fs =
    if s_isdir (fs.inodes i).type_mode
    then dir_loop ((fs.inodes i).size + 1) i func 0 0 fs
    else (err enotdir, fs)

unfoldable pub search_dir_inode_n : ℕ → List ℕ → Fs → Ret × Fs
unfolding iterate_over_dir
search_dir_inode_n i name fs = iterate_over_dir i (is_dentry_searched name) fs

pub unlink_inode : ℕ → List ℕ → Fs → Ret × Fs
unfolding iterate_over_dir remove_dentry
unlink_inode i name fs = iterate_over_dir i (remove_dentry name) fs

unfoldable pub dir_is_empty : ℕ → Fs → Bool × Fs
unfolding iterate_over_dir search_first_file
dir_is_empty i fs =
    if (fs.inodes i).size == 2 * dentry_size
    then (true, fs)
    else (let r = iterate_over_dir i search_first_file fs in
        elim r.0 [
          | ok n ↦ (n == 0, r.1)
          | err e ↦ (false, r.1)
          | faults ↦ (false, r.1)
          | out_of_fuel ↦ (false, r.1)
        ])

-- The character at a place of a zero-padded name.
pub char_at : List ℕ → ℕ → ℕ
char_at [] k = 0
char_at (c ∷ cs) zero = c
char_at (c ∷ cs) (suc k) = char_at cs k

-- The bytes of a new entry, with zeros behind its name.
pub dentry_bytes : (number : ℕ) → (name : List ℕ) → (k : ℕ) → ℕ
unfolding char_at
dentry_bytes number name k = if ltb k 8 then number / 256 ^ k % 256 else char_at name (k - 8)

unfoldable pub init_data_blocks_dir : ℕ → (dot dotdot : ℕ) → Fs → Fs
unfolding dentry_bytes
init_data_blocks_dir i dot dotdot fs =
    let buffer = λ (k : ℕ).
      if ltb k dentry_size
      then dentry_bytes dot (dot_char ∷ []) k
      else dentry_bytes dotdot (dot_char ∷ dot_char ∷ []) (k - dentry_size) in
    (fiuba_write i buffer (2 * dentry_size) (fs.inodes i).size fs).1
