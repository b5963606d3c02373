-- ===== src/Shell/Run.antt =====
-- lab-shell/shell/runcmd.c, printstatus.c and sh.c. What waitpid gives is an argument, as is the text of a
-- number. What is printed is left out.
pub mod Waits
pub mod Crash
use sistemas_operativos.Base.{
  ℕ, zero, suc, ◌+◌, ◌-◌, ◌*◌, ◌/◌, ◌%◌, ◌^◌, Bool, true, false, ◌&&◌, ◌||◌, Option, none, some,
  List, [], ◌∷◌, ◌++◌, ◌==◌, if◌then◌else◌, length,
}
use sistemas_operativos.Posix
use sistemas_operativos.Posix.{
  Name, Text, Proc, M, ◌>>=◌, ◌>>◌, done, leave, exits, faults, Forked, fork_failed, in_child,
  in_parent, waitpid, fork,
}
use sistemas_operativos.Shell.State.{Cmd, no_cmd, execcmd, backcmd, pipecmd}
use sistemas_operativos.Shell.Parsing.{Parse, parsed, out_of_bounds, out_of_fuel, parse_line}
use sistemas_operativos.Shell.Exec.{exec_cmd, free_command}
use sistemas_operativos.Shell.Builtin.{Vars, exit_shell, cd, pwd, getenv_in, home, chdir}

-- The 32 bits of -n.
abbrev pub minus : ℕ → ℕ
minus n = (2 ^ 32 - n) % 2 ^ 32

-- WTERMSIG, and WEXITSTATUS, which is WSTOPSIG.
abbrev pub termsig : ℕ → ℕ
termsig status = status % 128

abbrev pub exitstatus : ℕ → ℕ
exitstatus status = status / 256 % 256

-- WIFEXITED is that the signal is 0, WIFSIGNALED that it is neither 0 nor 127.
unfoldable pub print_status : (status : ℕ) → ℕ
print_status status =
    if termsig status == 0
    then exitstatus status
    else if termsig status == 127
    then minus (exitstatus status)
    else minus (termsig status)

unfoldable pub print_status_info : Cmd → (status : ℕ) → ℕ
unfolding print_status
print_status_info no_cmd status = status
print_status_info (execcmd e) status = if length e.scmd == 0 then status else print_status status
print_status_info (backcmd e) status = if length e.scmd == 0 then status else print_status status
print_status_info (pipecmd l r) status = status

abbrev pub put_status : Option ℕ → Vars → Vars
put_status none v = v
put_status (some s) v = record v { status = s }

-- `reaped` is what waitpid with WNOHANG writes, `status_of` what waitpid for a process writes.
module _ (refuses : Name → ℕ → Bool) (resolve : Text → Text → Text) (status_text : ℕ → Text)
    (reaped : Option ℕ) (status_of : Name → Option ℕ) where
  -- The part of run_cmd that waits; `child` is none where the fork failed, and then waitpid(-1) waits for any
  -- child: `status_of []`.
  unfoldable pub wait_child : Cmd → (child : Option Name) → Vars → M Vars
  wait_child cmd none v =
      let v' = put_status (status_of []) v in
      done (record v' { status = print_status_info cmd v'.status })
  wait_child cmd (some name) v =
      waitpid name
      >> (let v' = put_status (status_of name) v in
          done (record v' { status = print_status_info cmd v'.status }))

  -- What run_cmd does after the fork.
  unfoldable pub wait_for : Cmd → (child : Option Name) → Vars → M Vars
  wait_for no_cmd child v = leave faults
  wait_for (backcmd e) child v = free_command (backcmd e) >> done (put_status reaped v)
  wait_for cmd child v =
      wait_child cmd child (put_status reaped v) >>= λ w. free_command cmd >> done w

  unfoldable pub run_parsed : Cmd → Vars → M Vars
  unfolding fork
  run_parsed cmd v = fork refuses >>= λ forked. elim forked [
    | fork_failed ↦ wait_for cmd none v
    | in_child ↦ exec_cmd refuses cmd cmd >> wait_for cmd none v
    | in_parent child ↦ wait_for cmd (some child) v
  ]

  -- Whether the shell is to exit, and its variables.
  unfoldable pub run_cmd : (cmd : Text) → Vars → M (Bool × Vars)
  run_cmd [] v = done (false, v)
  run_cmd (c ∷ cs) v = cd refuses resolve (c ∷ cs) v >>= λ moved. elim moved [
    | some v' ↦ done (false, v')
    | none ↦
        if exit_shell (c ∷ cs)
        then done (true, v)
        else (pwd refuses resolve (c ∷ cs) v >>= λ shown. elim shown [
          | some v' ↦ done (false, v')
          | none ↦ λ p.
              elim (parse_line (λ key. getenv_in key p.environ) (status_text v.status)
                  (length (c ∷ cs) + 1) none (c ∷ cs))
                as (λ _. List (Posix.Outcome (Bool × Vars))) [
                  | parsed cmd ↦ (run_parsed cmd v >>= λ v'. done (false, v')) p
                  | out_of_bounds ↦ leave faults p
                  | out_of_fuel ↦ leave faults p
                ]
        ])
  ]

  -- The lines up to the end of the input.
  unfoldable pub run_shell : (lines : List Text) → Vars → M Vars
  run_shell [] v = done v
  run_shell (line ∷ lines) v =
      run_cmd line v >>= λ r. let rest = run_shell lines r.1 in if r.0 then done r.1 else rest

  unfoldable pub init_shell : Vars → M Vars
  unfolding chdir
  init_shell v p =
      let dest = getenv_in home p.environ in
      (chdir refuses resolve dest v >>= λ r. elim r [
        | none ↦ done v
        | some v' ↦ done (record v' {
          prompt = elim dest [ none ↦ [] | some path ↦ b'(' ∷ (path ++ b')' ∷ []) ];
        })
      ])
        p
