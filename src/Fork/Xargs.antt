-- ===== src/Fork/Xargs.antt =====
-- lab-fork/fork/xargs.c. The lines are what `getline` reads, each with its newline if it has one. The buffers
-- that getline allocates are not modelled: behind the stored ones the array holds NULL.
pub mod Batches
use sistemas_operativos.Base.{
  ℕ, suc, ◌+◌, Bool, true, false, not, ◌&&◌, Option, none, some, List, [], ◌∷◌, ◌++◌, ◌==◌, ltb,
  if◌then◌else◌, length,
}
use sistemas_operativos.Posix.{
  Name, Text, Proc, M, ◌>>=◌, ◌>>◌, done, leave, exits, Forked, fork_failed, in_child, in_parent,
  fork, execvp, refused,
}

-- NARGS
abbrev pub nargs : ℕ
nargs = 4

-- The last character, if it is a newline, becomes the end of the string.
unfoldable pub replace_newline_to_null : Text → Text
replace_newline_to_null [] = []
replace_newline_to_null (c ∷ []) = if c == 10 then [] else c ∷ []
replace_newline_to_null (c ∷ d ∷ cs) = c ∷ replace_newline_to_null (d ∷ cs)

unfoldable pub stored_enough_args_for_execution : (amount : ℕ) → Bool
stored_enough_args_for_execution amount = amount == nargs

-- `refuses` is which calls fail, see Posix.
module _ (refuses : Name → ℕ → Bool) where
  -- Whether it gives OK_ID; the child returns where `execvp` fails, with an error.
  unfoldable pub execute_command_with_args : (args : List Text) → (required_command : Text) → M Bool
  execute_command_with_args args command = fork refuses >>= λ forked. elim forked [
    | fork_failed ↦ done false
    | in_parent child ↦ refused refuses >>= λ no. done (not no)
    | in_child ↦ execvp refuses (command ∷ args) >> done false
  ]

  -- What is left to run at the end of the input.
  unfoldable pub execute_rest : (stored : List Text) → (required_command : Text) → M Bool
  unfolding execute_command_with_args
  execute_rest [] command = done true
  execute_rest (arg ∷ args) command = execute_command_with_args (arg ∷ args) command

  -- The loop, with the arguments that are stored.
  unfoldable pub collect_from :
      (stored : List Text) → (required_command : Text) → (lines : List Text) → M Bool
  unfolding execute_rest stored_enough_args_for_execution
  collect_from stored command [] = execute_rest stored command
  collect_from stored command (line ∷ lines) =
      let stored' = stored ++ replace_newline_to_null line ∷ [] in
      let again = collect_from [] command lines in
      let more = collect_from stored' command lines in
      if stored_enough_args_for_execution (length stored')
      then (execute_command_with_args stored' command >>= λ ok. if ok then again else done false)
      else more

  unfoldable pub collect_all_args_and_execute_commands :
      (required_command : Text) → (lines : List Text) → M Bool
  unfolding collect_from
  collect_all_args_and_execute_commands command lines = collect_from [] command lines

  -- ERROR_ID is -1, of which a parent reads 8 bits.
  unfoldable pub main : (argv : List Text) → (lines : List Text) → M (Unit {0})
  unfolding collect_all_args_and_execute_commands
  main (prog ∷ command ∷ rest) lines = collect_all_args_and_execute_commands command lines >>= λ ok.
      if ok then leave (exits 0) else leave (exits 255)
  main argv lines = leave (exits 255)
