-- ===== src/Fs/Paths/Split.antt =====
-- How fs.c cuts a path into the directory above and the last name.
use sistemas_operativos.Base.{
  ℕ, ◌≡◌, refl, ap, ◌∙◌, false, Option, none, some, List, [], ◌∷◌, ◌++◌, arith, ◌==◌, if◌then◌else◌,
  has, Bool-cases, inl, inr, length, ◌<◌, leb,
}
use sistemas_operativos.Fs.State.{slash, Fs, Ret, ok, enotdir, s_isdir, err, max_file_name}
use sistemas_operativos.Fs.Dirs.{DentryIterator, iterate_over_dir, insert_direntry_if_free}
use sistemas_operativos.Fs.Paths.{
  up_to_last_slash, behind_last_slash, last_name, add_inode_to_directory, link_back,
}

-- Both cuts of a string at its last slash, or that it has none.
abbrev pub IsCut : List ℕ → Option (List ℕ) → Option (List ℕ) → Type 0
IsCut path none none = has slash path ≡ false
IsCut path none (some n) = ⊥
IsCut path (some d) none = ⊥
IsCut path (some d) (some n) = (d ++ n ≡ path) × (has slash n ≡ false)

IsCut-step :
    (c : ℕ) (cs : List ℕ) (d n : Option (List ℕ))
    → IsCut cs d n
    → IsCut
        (c ∷ cs)
        (elim d [ some kept ↦ some (c ∷ kept) | none ↦ if c == slash then some (c ∷ []) else none ])
        (elim n [ some name ↦ some name | none ↦ if c == slash then some cs else none ])
IsCut-step c cs none none f = elim (Bool-cases (c == slash)) [
  | inl hit ↦ rw hit (refl, f)
  | inr miss ↦ rw miss (ground arith)
]
IsCut-step c cs none (some n) f = absurd f
IsCut-step c cs (some d) none f = absurd f
IsCut-step c cs (some d) (some n) f = (ap (λ (r : List ℕ). c ∷ r) f.0, f.1)

last_slash-IsCut : (path : List ℕ) → IsCut path (up_to_last_slash path) (behind_last_slash path)
unfolding up_to_last_slash behind_last_slash
last_slash-IsCut [] = refl
last_slash-IsCut (c ∷ cs) =
    IsCut-step c cs (up_to_last_slash cs) (behind_last_slash cs) (last_slash-IsCut cs)

last_name-step :
    (cs : List ℕ) (d n : Option (List ℕ))
    → IsCut cs d n
    → let name : List ℕ = elim n [ some name ↦ name | none ↦ cs ] in
      let up : Option (List ℕ) = elim d [
        | some kept ↦ some (slash ∷ kept)
        | none ↦ some (slash ∷ [])
      ] in
      (e : List ℕ) × (up ≡ some e) × (e ++ name ≡ slash ∷ cs) × (has slash name ≡ false)
last_name-step cs none none f = (slash ∷ [], refl, refl, f)
last_name-step cs none (some n) f = absurd f
last_name-step cs (some d) none f = absurd f
last_name-step cs (some d) (some n) f = (slash ∷ d, refl, ap (λ (r : List ℕ). slash ∷ r) f.0, f.1)

-- An absolute path is the directory above, up to its last slash, and the last name, which has no
-- slash.
pub last_name-IsCut :
    (cs : List ℕ)
    → (d : List ℕ) × (up_to_last_slash (slash ∷ cs) ≡ some d)
      × (d ++ last_name (slash ∷ cs) ≡ slash ∷ cs)
      × (has slash (last_name (slash ∷ cs)) ≡ false)
unfolding up_to_last_slash last_name
last_name-IsCut cs =
    last_name-step cs (up_to_last_slash cs) (behind_last_slash cs) (last_slash-IsCut cs)

iterate_over_dir-enotdir :
    (i : ℕ) (func : DentryIterator) (fs : Fs)
    → s_isdir (fs.inodes i).type_mode ≡ false
    → iterate_over_dir i func fs ≡ (err enotdir, fs)
unfolding iterate_over_dir
iterate_over_dir-enotdir i func fs e = rw e refl

link_back-regular :
    (parent new : ℕ) (fs : Fs)
    → s_isdir (fs.inodes new).type_mode ≡ false
    → link_back parent new fs ≡ (ok 0, fs)
unfolding link_back
link_back-regular parent new fs e = rw e refl

-- Where the parent is no directory, `add_inode_to_directory` of a new regular file reports success
-- and changes nothing: the file has no entry.
add_inode_to_directory-loses :
    (parent new : ℕ) (name : List ℕ) (fs : Fs)
    → length name < max_file_name
    → s_isdir (fs.inodes parent).type_mode ≡ false
    → s_isdir (fs.inodes new).type_mode ≡ false
    → add_inode_to_directory parent new name fs ≡ (ok 0, fs)
unfolding add_inode_to_directory
add_inode_to_directory-loses parent new name fs short file regular =
    let room : leb max_file_name (length name) ≡ false = ground arith in
    let refused = iterate_over_dir-enotdir parent (insert_direntry_if_free new name) fs file in
    rw (room, refused)
      (ap (λ (r : Ret × Fs). link_back parent new r.1) refused
        ∙ link_back-regular parent new fs regular)
