-- ===== src/Fork/Find/Preorder.antt =====
-- What the search of find.c prints: the entries in preorder.
use sistemas_operativos.Base.{
  Bool, true, false, ◌&&◌, ◌||◌, List, [], ◌∷◌, ◌++◌, ◌≡◌, ◌≢◌, refl, arith, ltb, if◌then◌else◌,
  length, inl, inr, Bool-cases,
}
use sistemas_operativos.Posix.{Text}
use sistemas_operativos.Fork.Find.{
  no_directory, closed_directory, directory, Directory, empty, entry, is_a_dotted_dir_name,
  path_max, create_subdir_path, ok_id, error_id, overflow, Search, then_search, print_match,
  find_all_matches_within,
}

-- The path of what a directory holds.
abbrev pub inside_of : (path name : Text) → Text
inside_of path name = path ++ name ++ 47 ∷ []

-- Each entry but `.` and `..` with the path before its name, a directory before what it holds.
abbrev pub preorder : (path : Text) → Directory → List (Text × Text)
preorder path empty = []
preorder path (entry (no_directory name) rest) =
    if is_a_dotted_dir_name name then preorder path rest else (path, name) ∷ preorder path rest
preorder path (entry (closed_directory name) rest) =
    if is_a_dotted_dir_name name then preorder path rest else (path, name) ∷ preorder path rest
preorder path (entry (directory name inside) rest) =
    if is_a_dotted_dir_name name
    then preorder path rest
    else (path, name) ∷ (preorder (inside_of path name) inside ++ preorder path rest)

-- Every directory below opens, and its path fits PATH_MAX.
abbrev pub opens : (path : Text) → Directory → Bool
opens path empty = true
opens path (entry (no_directory name) rest) = opens path rest
opens path (entry (closed_directory name) rest) = is_a_dotted_dir_name name && opens path rest
opens path (entry (directory name inside) rest) =
    (is_a_dotted_dir_name name
      || (ltb (length (inside_of path name)) path_max && opens (inside_of path name) inside))
    && opens path rest

-- The lines of the entries whose names are recognized.
abbrev pub lines_of : (Text → Bool) → List (Text × Text) → List Text
lines_of is_recognized [] = []
lines_of is_recognized ((path, name) ∷ es) =
    if is_recognized name
    then (path ++ name) ∷ lines_of is_recognized es
    else lines_of is_recognized es

module _ (is_recognized : Text → Bool) where
  lines_of-append :
      (es fs : List (Text × Text))
      → lines_of is_recognized (es ++ fs) ≡ lines_of is_recognized es ++ lines_of is_recognized fs
  lines_of-append [] fs = refl
  lines_of-append ((path, name) ∷ es) fs = ground (arith, lines_of-append es fs)

  print-lines :
      (path name : Text) (es : List (Text × Text))
      → then_search (print_match is_recognized path name, ok_id) (lines_of is_recognized es, ok_id)
        ≡ (lines_of is_recognized ((path, name) ∷ es), ok_id)
  print-lines path name es = elim (Bool-cases (is_recognized name)) [
    | inl hit ↦ rw (hit) refl
    | inr miss ↦ rw (miss) refl
  ]

  opens-parts : (a b c : Bool) → ((a && b) && c) ≡ true → (a ≡ true) × (b ≡ true) × (c ≡ true)
  opens-parts a b c e = (ground arith, ground arith, ground arith)

  -- Where every directory below opens.
  find-found :
      (path : Text) (dir : Directory)
      → opens path dir ≡ true
      → find_all_matches_within is_recognized path dir
        ≡ (lines_of is_recognized (preorder path dir), ok_id)
  unfolding find_all_matches_within create_subdir_path
  find-found path empty o = refl
  find-found path (entry (no_directory name) rest) o =
      elim (Bool-cases (is_a_dotted_dir_name name)) [
        | inl dotted ↦ rw (dotted) (find-found path rest o)
        | inr other ↦ rw (other, find-found path rest o) (print-lines path name _)
      ]
  find-found path (entry (closed_directory name) rest) o =
      elim (Bool-cases (is_a_dotted_dir_name name)) [
        | inl dotted ↦ rw (dotted) (find-found path rest (rw (dotted) at o))
        | inr other ↦ absurd (ground arith)
      ]
  find-found path (entry (directory name inside) rest) o =
      elim (Bool-cases (is_a_dotted_dir_name name)) [
        | inl dotted ↦ rw (dotted) (find-found path rest (rw (dotted) at o))
        | inr other ↦
            let (fits, below, after) =
              opens-parts (ltb (length (inside_of path name)) path_max)
                (opens (inside_of path name) inside) (opens path rest) (rw (other) at o) in
            rw
              (
                other,
                fits,
                find-found (inside_of path name) inside below,
                find-found path rest after,
                lines_of-append (preorder (inside_of path name) inside) (preorder path rest),
              )
              (elim (Bool-cases (is_recognized name)) [
                | inl hit ↦ rw (hit, find-found (inside_of path name) inside below) refl
                | inr miss ↦ rw (miss, find-found (inside_of path name) inside below) refl
              ])
      ]

  both-end : (r m : Search) → (then_search r m).1 ≡ ok_id → (r.1 ≡ ok_id) × (m.1 ≡ ok_id)
  both-end (lines, ok_id) m e = (refl, e)
  both-end (lines, error_id) m e = absurd (ground arith)
  both-end (lines, overflow) m e = absurd (ground arith)

  one-closed : (b c : Bool) → (b && c) ≡ false → ¬ (b ≡ false) → ¬ (c ≡ false) → ⊥
  one-closed true true o not_b not_c = ground arith
  one-closed true false o not_b not_c = not_c refl
  one-closed false c o not_b not_c = not_b refl

  -- Else it does not end with OK_ID.
  find-stops :
      (path : Text) (dir : Directory)
      → opens path dir ≡ false
      → (find_all_matches_within is_recognized path dir).1 ≢ ok_id
  unfolding find_all_matches_within create_subdir_path
  find-stops path empty o = absurd (ground arith)
  find-stops path (entry (no_directory name) rest) o =
      elim (Bool-cases (is_a_dotted_dir_name name)) [
        | inl dotted ↦ rw (dotted) (find-stops path rest o)
        | inr other ↦ rw (other) (find-stops path rest o)
      ]
  find-stops path (entry (closed_directory name) rest) o =
      elim (Bool-cases (is_a_dotted_dir_name name)) [
        | inl dotted ↦ rw (dotted) (find-stops path rest (rw (dotted) at o))
        | inr other ↦ elim (Bool-cases (ltb (length (inside_of path name)) path_max)) [
          | inl fits ↦ rw (other, fits) (ground arith)
          | inr long ↦ rw (other, long) (ground arith)
        ]
      ]
  find-stops path (entry (directory name inside) rest) o =
      elim (Bool-cases (is_a_dotted_dir_name name)) [
        | inl dotted ↦ rw (dotted) (find-stops path rest (rw (dotted) at o))
        | inr other ↦ elim (Bool-cases (ltb (length (inside_of path name)) path_max)) [
          | inl fits ↦
              rw (other, fits)
                (λ e.
                  let (sub, more) =
                    both-end
                      (then_search (print_match is_recognized path name, ok_id)
                        (find_all_matches_within is_recognized (inside_of path name) inside))
                      (find_all_matches_within is_recognized path rest) e in
                  let (_, below) =
                    both-end (print_match is_recognized path name, ok_id)
                      (find_all_matches_within is_recognized (inside_of path name) inside) sub in
                  one-closed (opens (inside_of path name) inside) (opens path rest)
                    (rw (other, fits) at o)
                    (λ closed. find-stops (inside_of path name) inside closed below)
                    (λ closed. find-stops path rest closed more))
          | inr long ↦ rw (other, long) (ground arith)
        ]
      ]

  -- Where every directory below opens and its path fits PATH_MAX, the search prints the lines of the
  -- recognized entries in preorder and ends with OK_ID; else it does not end with OK_ID.
  pub find-preorder :
      (path : Text) (dir : Directory)
      → (opens path dir ≡ true
          → find_all_matches_within is_recognized path dir
            ≡ (lines_of is_recognized (preorder path dir), ok_id))
        × (opens path dir ≡ false → (find_all_matches_within is_recognized path dir).1 ≢ ok_id)
  find-preorder path dir = (find-found path dir, find-stops path dir)
