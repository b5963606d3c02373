-- ===== src/Fork/Find.antt =====
-- lab-fork/fork/find.c. A directory is the list of what `readdir` gives, and `.` and `..` are entries
-- of it as the others are.
pub mod Preorder
use sistemas_operativos.Base.{
  ℕ, ◌+◌, ◌-◌, ◌≤◌, Bool, true, false, not, ◌&&◌, ◌||◌, Option, none, some, List, [], ◌∷◌, ◌++◌,
  ◌==◌, ltb, leb, if◌then◌else◌, length,
}
use sistemas_operativos.Posix.{Text}

-- `closed_directory` is one that openat or fdopendir refuses.
mutual
  pub data Entry : Type 0 where
    no_directory : Text → Entry
    closed_directory : Text → Entry
    directory : Text → Directory → Entry

  pub data Directory : Type 0 where
    empty : Directory
    entry : Entry → Directory → Directory

-- `strcmp` is 0.
unfoldable pub equal_text : Text → Text → Bool
equal_text [] [] = true
equal_text [] (d ∷ ds) = false
equal_text (c ∷ cs) [] = false
equal_text (c ∷ cs) (d ∷ ds) = (c == d) && equal_text cs ds

-- `strstr` and `strcasestr`, in the C locale, are not NULL.
unfoldable pub starts : (needle haystack : Text) → Bool
starts [] haystack = true
starts (c ∷ cs) [] = false
starts (c ∷ cs) (d ∷ ds) = (c == d) && starts cs ds

unfoldable pub strstr : (haystack needle : Text) → Bool
unfolding starts
strstr [] needle = starts needle []
strstr (c ∷ cs) needle = starts needle (c ∷ cs) || strstr cs needle

abbrev pub lower : ℕ → ℕ
lower c = if leb 65 c && leb c 90 then c + 32 else c

abbrev pub lowered : Text → Text
lowered [] = []
lowered (c ∷ cs) = lower c ∷ lowered cs

unfoldable pub is_str_contained_case_sensitive : (haystack needle : Text) → Bool
is_str_contained_case_sensitive haystack needle = strstr haystack needle

unfoldable pub is_str_contained_case_insensitive : (haystack needle : Text) → Bool
is_str_contained_case_insensitive haystack needle = strstr (lowered haystack) (lowered needle)

-- NAME_MAX and PATH_MAX.
abbrev pub name_max : ℕ
name_max = 255

abbrev pub path_max : ℕ
path_max = 4096

-- The arguments, with the string to find.
pub data Args : Type 0 where
  wrong_args : Args
  requires_case_insensitive : Text → Args
  requires_case_sensitive : Text → Args

unfoldable pub check_args : (argv : List Text) → Args
unfolding equal_text
check_args (prog ∷ str ∷ []) =
    if leb name_max (length str) then wrong_args else requires_case_sensitive str
check_args (prog ∷ flag ∷ str ∷ []) =
    if not (equal_text flag (45 ∷ 105 ∷ []))
    then wrong_args
    else if leb name_max (length str)
    then wrong_args
    else requires_case_insensitive str
check_args _ = wrong_args

unfoldable pub is_a_dotted_dir_name : Text → Bool
unfolding equal_text
is_a_dotted_dir_name name = equal_text name (46 ∷ []) || equal_text name (46 ∷ 46 ∷ [])

-- `none` is a write behind the array of PATH_MAX characters.
unfoldable pub create_subdir_path : (current_path subdir_name : Text) → Option Text
create_subdir_path current_path subdir_name =
    let subdir_path = current_path ++ subdir_name ++ 47 ∷ [] in
    if ltb (length subdir_path) path_max then some subdir_path else none

-- How a search ends, and the lines that it has printed.
pub data Ending : Type 0 where
  ok_id error_id overflow : Ending

abbrev pub Search : Type 0
Search = List Text × Ending

abbrev pub then_search : Search → Search → Search
then_search (lines, ok_id) (more, end) = (lines ++ more, end)
then_search (lines, error_id) rest = (lines, error_id)
then_search (lines, overflow) rest = (lines, overflow)

module _ (is_recognized : Text → Bool) where
  abbrev pub print_match : (current_path d_name : Text) → List Text
  print_match current_path d_name =
      if is_recognized d_name then (current_path ++ d_name) ∷ [] else []

  unfoldable pub find_all_matches_within : (current_path : Text) → Directory → Search
  unfolding is_a_dotted_dir_name create_subdir_path
  find_all_matches_within path empty = ([], ok_id)
  find_all_matches_within path (entry (no_directory name) rest) =
      let more = find_all_matches_within path rest in
      if is_a_dotted_dir_name name then more else then_search (print_match path name, ok_id) more
  find_all_matches_within path (entry (closed_directory name) rest) =
      let more = find_all_matches_within path rest in
      if is_a_dotted_dir_name name
      then more
      else elim (create_subdir_path path name) as (λ _. Search) [
        | none ↦ (print_match path name, overflow)
        | some _ ↦ (print_match path name, error_id)
      ]
  find_all_matches_within path (entry (directory name inside) rest) =
      let more = find_all_matches_within path rest in
      if is_a_dotted_dir_name name
      then more
      else elim (create_subdir_path path name) as (λ _. Search) [
        | none ↦ (print_match path name, overflow)
        | some subdir_path ↦
            then_search
              (then_search (print_match path name, ok_id)
                (find_all_matches_within subdir_path inside))
              more
      ]

-- `here` is the working directory, if opendir opens it.
unfoldable pub main : (argv : List Text) → (here : Option Directory) → Search
unfolding check_args find_all_matches_within
main argv here = elim (check_args argv) as (λ _. Search) [
  | wrong_args ↦ ([], error_id)
  | requires_case_insensitive str ↦ elim here as (λ _. Search) [
    | none ↦ ([], error_id)
    | some dir ↦
        find_all_matches_within (λ name. is_str_contained_case_insensitive name str) (46 ∷ 47 ∷ [])
          dir
  ]
  | requires_case_sensitive str ↦ elim here as (λ _. Search) [
    | none ↦ ([], error_id)
    | some dir ↦
        find_all_matches_within (λ name. is_str_contained_case_sensitive name str) (46 ∷ 47 ∷ [])
          dir
  ]
]
