-- ===== src/Fork/Tests.antt =====
-- Some runs of lab-fork/fork, and the theorems on them.
use sistemas_operativos.Base.{
  ℕ, ◌≤◌, ◌≡◌, ◌≢◌, ◌↔◌, refl, arith, Bool, true, false, some, List, [], ◌∷◌, has,
}
use sistemas_operativos.Posix.{Text, Proc}
use sistemas_operativos.Fork.Xargs.{collect_all_args_and_execute_commands}
use sistemas_operativos.Fork.Xargs.Batches.{Ran, Arguments, concat, Sized, collect-Batched}
use sistemas_operativos.Fork.Find
use sistemas_operativos.Fork.Find.{
  Directory, empty, entry, no_directory, closed_directory, directory, ok_id, equal_text, starts,
  strstr, is_str_contained_case_sensitive, is_str_contained_case_insensitive, check_args,
  is_a_dotted_dir_name, create_subdir_path, find_all_matches_within,
}
use sistemas_operativos.Fork.Find.Preorder.{preorder, opens, lines_of, find-preorder}
use sistemas_operativos.Fork.Primes.{
  Run, main, handle_myself_as_relative_child, handle_myself_as_relative_parent,
  handle_myself_as_absolute_parent,
}
use sistemas_operativos.Fork.Primes.Sieve.{Ascending, IsPrime, main-Primes}

main-Primes_example :
    (run : Run) × (main (λ stage call. false) false 30 30 ≡ some run)
    × (run.result ≡ true)
    × Ascending 2 run.printed
    × ((q : ℕ) → (has q run.printed ≡ true) ↔ ((q ≤ 30) × IsPrime q))
main-Primes_example =
    main-Primes (λ stage call. false) (λ stage call. refl) 30 30 (omega arith) (omega arith)
      (omega arith)

-- Up to 5, on a terminal.
prints_once :
    main (λ stage call. false) false 5 5 ≡ some (record { result = true; printed = 2 ∷ 3 ∷ 5 ∷ [] })
unfolding main handle_myself_as_relative_child handle_myself_as_relative_parent
    handle_myself_as_absolute_parent
prints_once = refl

-- Up to 5, into a file: each process writes the lines of those before it again.
prints_again :
    main (λ stage call. false) true 5 5
    ≡ some (record { result = true; printed = 2 ∷ 3 ∷ 5 ∷ 2 ∷ 3 ∷ 5 ∷ 2 ∷ 3 ∷ 2 ∷ [] })
unfolding main handle_myself_as_relative_child handle_myself_as_relative_parent
    handle_myself_as_absolute_parent
prints_again = refl

-- Six lines, the last without a newline.
abbrev demo_lines : List Text
demo_lines =
    (97 ∷ 10 ∷ [])
    ∷ (98 ∷ 10 ∷ [])
    ∷ (99 ∷ 10 ∷ [])
    ∷ (100 ∷ 10 ∷ [])
    ∷ (101 ∷ 10 ∷ [])
    ∷ (102 ∷ [])
    ∷ []

abbrev demo_proc : Proc
demo_proc = record { name = []; calls = 0; fds = []; environ = []; waited = [] }

collect-Batched_example :
    (bs : List (List Text)) × Ran
      (120 ∷ [])
      bs
      (collect_all_args_and_execute_commands (λ name n. false) (120 ∷ []) demo_lines demo_proc)
    × Arguments demo_lines (concat bs)
    × Sized bs
collect-Batched_example =
    collect-Batched (λ name n. false) (λ name n. refl) (120 ∷ []) demo_lines demo_proc

-- `a`, and `b` with `ab` in it, next to `.`
abbrev demo_directory : Directory
demo_directory = entry (closed_directory (46 ∷ [])) (
    entry (no_directory (97 ∷ []))
      (entry (directory (98 ∷ []) (entry (no_directory (97 ∷ 98 ∷ [])) empty)) empty))

abbrev has_a : Text → Bool
has_a name = is_str_contained_case_sensitive name (97 ∷ [])

find-preorder_example :
    (opens (46 ∷ 47 ∷ []) demo_directory ≡ true
      → find_all_matches_within has_a (46 ∷ 47 ∷ []) demo_directory
        ≡ (lines_of has_a (preorder (46 ∷ 47 ∷ []) demo_directory), ok_id))
    × (opens (46 ∷ 47 ∷ []) demo_directory ≡ false
        → (find_all_matches_within has_a (46 ∷ 47 ∷ []) demo_directory).1 ≢ ok_id)
find-preorder_example = find-preorder has_a (46 ∷ 47 ∷ []) demo_directory

-- `find -i A` prints `./a` and `./b/ab`.
finds_both :
    Find.main ((102 ∷ []) ∷ (45 ∷ 105 ∷ []) ∷ (65 ∷ []) ∷ []) (some demo_directory)
    ≡ (((46 ∷ 47 ∷ 97 ∷ []) ∷ (46 ∷ 47 ∷ 98 ∷ 47 ∷ 97 ∷ 98 ∷ []) ∷ []), ok_id)
unfolding Find.main check_args equal_text is_a_dotted_dir_name create_subdir_path
    find_all_matches_within is_str_contained_case_insensitive strstr starts
finds_both = refl
