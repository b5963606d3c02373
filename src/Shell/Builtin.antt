-- ===== src/Shell/Builtin.antt =====
-- lab-shell/shell/builtin.c. What `perror` and `printf` print is left out. `resolve` is where the kernel leads a
-- path from a directory.
use sistemas_operativos.Base.{
  ℕ, ◌+◌, ◌-◌, Bool, true, false, ◌&&◌, ◌||◌, Option, none, some, List, [], ◌∷◌, ◌++◌, ◌==◌, ltb,
  if◌then◌else◌, length,
}
use sistemas_operativos.Posix.{Name, Text, Proc, M, ◌>>=◌, done, leave, faults, refused, setenv_in}
use sistemas_operativos.Shell.State.{space}

-- `status` as the 32 bits of an int, `prompt`, and the directory of the process.
pub record Vars : Type 0 where
  pub status : ℕ
  pub prompt : Text
  pub cwd : Text

abbrev pub buflen : ℕ
buflen = 1024

abbrev pub prmtlen : ℕ
prmtlen = 1024

abbrev pub exit_failure : ℕ
exit_failure = 1

-- `strcmp` is 0.
abbrev pub same_text : Text → Text → Bool
same_text [] [] = true
same_text [] (y ∷ ys) = false
same_text (x ∷ xs) [] = false
same_text (x ∷ xs) (y ∷ ys) = let rest = same_text xs ys in (x == y) && rest

-- The text alone, behind a space, or before one.
abbrev pub is_common : Text → (cmd : Text) → Bool
is_common word cmd =
    same_text cmd word || same_text cmd (space ∷ word) || same_text cmd (word ++ space ∷ [])

unfoldable pub its_a_common_exit_cmd : Text → Bool
its_a_common_exit_cmd = is_common (b'e' ∷ b'x' ∷ b'i' ∷ b't' ∷ [])

unfoldable pub its_a_common_cd_cmd : Text → Bool
its_a_common_cd_cmd = is_common (b'c' ∷ b'd' ∷ [])

unfoldable pub its_a_common_pwd_cmd : Text → Bool
its_a_common_pwd_cmd = is_common (b'p' ∷ b'w' ∷ b'd' ∷ [])

unfoldable pub exit_shell : Text → Bool
exit_shell cmd = its_a_common_exit_cmd cmd

abbrev pub getenv_in : (key : Text) → List (Text × Text) → Option Text
getenv_in key [] = none
getenv_in key ((k, v) ∷ vars) =
    let rest = getenv_in key vars in if same_text k key then some v else rest

abbrev pub home : Text
home = b'H' ∷ b'O' ∷ b'M' ∷ b'E' ∷ []

-- What follows `cd `, if the line starts so.
unfoldable pub cd_argument : Text → Option Text
cd_argument (c ∷ d ∷ s ∷ rest) =
    if (c == b'c') && (d == b'd') && (s == space) then some rest else none
cd_argument _ = none

module _ (refuses : Name → ℕ → Bool) (resolve : Text → Text → Text) where
  -- `none` is -1; `chdir(NULL)` fails.
  unfoldable pub chdir : Option Text → Vars → M (Option Vars)
  chdir none v = done none
  chdir (some path) v = refused refuses >>= λ no.
      if no then done none else done (some (record v { cwd = resolve v.cwd path }))

  -- The path into a buffer with `room` bytes, of which `getcwd` is told that they are PRMTLEN.
  unfoldable pub getcwd : (room : ℕ) → Vars → M (Option Text)
  getcwd room v = refused refuses >>= λ no.
      if no || ltb prmtlen (length v.cwd + 1)
      then done none
      else if ltb room (length v.cwd + 1)
      then leave faults
      else done (some v.cwd)

  -- What `cd` does with `dest_directory` in a buffer of `room` bytes; `keeps` is what becomes of the process,
  -- since the buffer then holds the new path.
  unfoldable pub cd_to :
      (dest_directory : Option Text) → (room : ℕ) → (keeps : Text → Proc → Proc) → Vars → M Vars
  unfolding chdir getcwd
  cd_to dest room keeps v = chdir dest v >>= λ r. elim r [
    | none ↦ done (record v { status = exit_failure })
    | some v' ↦ getcwd room v' >>= λ path. elim path [
      | none ↦ done (record v' { status = exit_failure })
      | some cwd ↦ λ p. done (record v' { prompt = b'(' ∷ (cwd ++ b')' ∷ []) }) (keeps cwd p)
    ]
  ]

  -- Without an argument the buffer is the value of HOME in the environment, with one it is the line from its
  -- fourth byte on. `none` is that the line is no `cd`.
  unfoldable pub cd : (cmd : Text) → Vars → M (Option Vars)
  cd cmd v p =
      let dest = getenv_in home p.environ in
      let room : ℕ = elim dest [ none ↦ 0 | some path ↦ length path + 1 ] in
      (if its_a_common_cd_cmd cmd
          then (cd_to dest room (λ cwd q. record q { environ = setenv_in home cwd q.environ }) v
              >>= λ v'. done (some v'))
          else elim (cd_argument cmd) [
            | none ↦ done none
            | some path ↦ cd_to (some path) (buflen - 3) (λ cwd q. q) v >>= λ v'. done (some v')
          ])
        p

  unfoldable pub pwd : (cmd : Text) → Vars → M (Option Vars)
  pwd cmd v =
      if its_a_common_pwd_cmd cmd
      then (getcwd prmtlen v >>= λ path. elim path [
        | none ↦ done (some (record v { status = exit_failure }))
        | some cwd ↦ done (some v)
      ])
      else done none
