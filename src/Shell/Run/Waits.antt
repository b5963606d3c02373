-- ===== src/Shell/Run/Waits.antt =====
-- lab-shell/shell/runcmd.c: what a line does where no call is refused.
use sistemas_operativos.Base.{ℕ, ◌≡◌, Bool, false, Option, none, some, List, [], ◌∷◌, ◌++◌}
use sistemas_operativos.Posix.{Name, Text, File, Proc, Outcome, returns, ends}
use sistemas_operativos.Shell.State.{Cmd, backcmd}
use sistemas_operativos.Shell.Exec.Line.{leader, Wired}
use sistemas_operativos.Shell.Exec.Ended.{Ended}
use sistemas_operativos.Shell.Builtin.{
  Vars, its_a_common_cd_cmd, cd_argument, exit_shell, its_a_common_pwd_cmd,
}
use sistemas_operativos.Shell.Run.{put_status, print_status_info}

-- The processes that have left the program.
abbrev pub leaving : {A B : Type 0} → List (Outcome A) → List (Outcome B)
leaving [] = []
leaving (returns a p ∷ os) = leaving os
leaving (ends e p ∷ os) = ends e p ∷ leaving os

-- The command does not run in the background.
abbrev pub IsForeground : Cmd → Type 0
IsForeground (backcmd e) = ⊥
IsForeground _ = Unit

-- The line is no built-in command.
pub record IsProgram (line : Text) : Type 0 where
  pub no_cd : its_a_common_cd_cmd line ≡ false
  pub no_cd_argument : cd_argument line ≡ none
  pub no_exit : exit_shell line ≡ false
  pub no_pwd : its_a_common_pwd_cmd line ≡ false

-- The shell's variables after a command whose process is `child`.
abbrev pub settled :
    (reaped : Option ℕ) → (status_of : Name → Option ℕ) → Cmd → (child : Name) → Vars → Vars
settled reaped status_of c child v =
    let v' = put_status (status_of child) (put_status reaped v) in
    record v' { status = print_status_info c v'.status }

module _ (refuses : Name → ℕ → Bool) (allowed : (name : Name) (n : ℕ) → refuses name n ≡ false)
    (resolve : Text → Text → Text) (status_text : ℕ → Text) (reaped : Option ℕ)
    (status_of : Name → Option ℕ) where
  -- The child has left, the shell has waited for it and goes on.
  abbrev pub GoesOn :
      Cmd → (i o e : File) → (waited : List Name) → Vars → List (Outcome Vars) → Type 0
  GoesOn c i o e waited v os =
      (xs : List (Outcome (Unit {0}))) × (q : Proc) × (os
        ≡ leaving xs ++ returns (settled reaped status_of c (leader xs) v) q ∷ [])
      × Wired c i o e xs
      × (q.waited ≡ leader xs ∷ waited)
      × (q.fds ≡ some i ∷ some o ∷ some e ∷ [])
