-- ===== src/Shell/Exec/Started.antt =====
-- lab-shell/shell/exec.c where no call is refused: how one command becomes its program.
use sistemas_operativos.Base.{
  ℕ, zero, suc, ◌+◌, ◌≡◌, ◌<◌, inl, inr, Bool, true, false, Option, none, some, List, [], ◌∷◌,
  Bool-cases, if◌then◌else◌, ltb, length, arith,
}
use sistemas_operativos.Posix.{
  Name, Text, OpenFlags, File, opened, Proc, ◌>>=◌, ◌>>◌, done, Outcome, close, dup2, open_file,
  execvp, setenv, set_fd, continue,
}
use sistemas_operativos.Shell.State.{
  ExecCmd, Cmd, no_cmd, execcmd, backcmd, pipecmd, block_contains,
}
use sistemas_operativos.Shell.Exec.{
  user_mode, stdout_fileno, stderr_fileno, free_command, exit_if_syscall_failed, set_environ_vars,
  open_redir_fd, redirect_to, redirect_stdout, redirect_stdin, redirect_stderr, is_stdout_name,
  redirect_fds_according_to_command, spawn, exec_execcmd, get_environ_key, get_environ_value,
}
use sistemas_operativos.Shell.Exec.Command.{IsWhole}
use sistemas_operativos.Shell.Exec.Line.{
  Table, std, new_output, new_error, input, output_of, input_of, error_of, redirected,
}
use sistemas_operativos.Shell.Exec.Steps.{
  At, Passes, Starts, Does, Does-then, Starts-continue, at, passes, starts,
}

module _ (refuses : Name → ℕ → Bool)
    (allowed : (name : Name) (n : ℕ) → refuses name n ≡ false) where
  pub redirect_to-Does :
      (c : ExecCmd) (file : Text) (flags : OpenFlags) (fileno : ℕ) (i o e : File)
      → fileno < 3
      → Does (std i o e) (redirect_to refuses c file flags fileno) (
          set_fd fileno
            (some (opened file flags (if flags.creates then user_mode else 0)))
            (std i o e))
  unfolding redirect_to open_redir_fd open_file dup2 close exit_if_syscall_failed
  redirect_to-Does c file flags zero i o e small name waited p (at {calls}) =
      rw (allowed name calls, allowed name (calls + 1)) (passes at)
  redirect_to-Does c file flags (suc zero) i o e small name waited p (at {calls}) =
      rw (allowed name calls, allowed name (calls + 1)) (passes at)
  redirect_to-Does c file flags (suc (suc zero)) i o e small name waited p (at {calls}) =
      rw (allowed name calls, allowed name (calls + 1)) (passes at)
  redirect_to-Does c file flags (suc (suc (suc n))) i o e small name waited p a =
      absurd (omega arith)

  pub redirect_stderr-Does :
      (c : ExecCmd) (i o e : File)
      → Does
          (std i o e)
          (redirect_stderr refuses c)
          (std i o (if is_stdout_name c.err_file then o else new_error c.err_file))
  unfolding redirect_stderr dup2 exit_if_syscall_failed
  redirect_stderr-Does c i o e =
      elim (is_stdout_name c.err_file)
        as (λ t.
          Does (std i o e)
            (if t
              then (dup2 refuses stdout_fileno stderr_fileno >>= λ r.
                  exit_if_syscall_failed r (execcmd c) [])
              else redirect_to refuses c c.err_file
                  (record { creates = true; truncates = false; writes = true }) stderr_fileno)
            (std i o (if t then o else new_error c.err_file))) [
              | true ↦ to_output
              | false ↦ redirect_to-Does c c.err_file _ 2 i o e (omega arith)
            ]
    where
      to_output :
          (name : Name) (waited : List Name) (p : Proc)
          → At name waited (std i o e) p
          → Passes name waited (std i o o) (
              (dup2 refuses stdout_fileno stderr_fileno >>= λ r.
              exit_if_syscall_failed r (execcmd c) [])
                p)
      to_output name waited p (at {calls}) = rw (allowed name calls) (passes at)

  pub redirect-Does :
      (c : ExecCmd) (i o e : File)
      → Does
          (std i o e)
          (redirect_fds_according_to_command refuses c)
          (std (input_of c i) (output_of c o) (error_of c o e))
  unfolding redirect_fds_according_to_command redirect_stdout redirect_stdin
  redirect-Does c i o e =
      Does-then (std i o e) (std (input_of c i) (output_of c o) e)
        (std (input_of c i) (output_of c o) (error_of c o e)) _ _
        (Does-then (std i o e) (std i (output_of c o) e) (std (input_of c i) (output_of c o) e) _ _
          (elim (ltb 0 (length c.out_file))
            as (λ t.
              Does (std i o e) (if t then redirect_stdout refuses c else done tt)
                (std i (if t then new_output c.out_file else o) e)) [
                  | true ↦ redirect_to-Does c c.out_file _ 1 i o e (omega arith)
                  | false ↦ λ name waited p a. passes a
                ])
          (elim (ltb 0 (length c.in_file))
            as (λ t.
              Does (std i (output_of c o) e) (if t then redirect_stdin refuses c else done tt)
                (std (if t then input c.in_file else i) (output_of c o) e)) [
                  | true ↦ redirect_to-Does c c.in_file _ 0 i (output_of c o) e (omega arith)
                  | false ↦ λ name waited p a. passes a
                ]))
        (elim (ltb 0 (length c.err_file))
          as (λ t.
            Does (std (input_of c i) (output_of c o) e)
              (if t then redirect_stderr refuses c else done tt)
              (std (input_of c i) (output_of c o) (
                if t
                then (if is_stdout_name c.err_file then output_of c o else new_error c.err_file)
                else e))) [
                  | true ↦ redirect_stderr-Does c (input_of c i) (output_of c o) e
                  | false ↦ λ name waited p a. passes a
                ])

  pub environ_var-Does :
      (arg : Text) (found : Option ℕ) (F : Table)
      → Does F
          (elim found [
            | none ↦ done tt
            | some i ↦
                if ltb 0 i
                then (setenv refuses (get_environ_key arg) (get_environ_value arg i) >> done tt)
                else done tt
          ])
          F
  unfolding setenv
  environ_var-Does arg none F name waited p a = passes a
  environ_var-Does arg (some i) F name waited p (at {calls}) = elim (Bool-cases (ltb 0 i)) [
    | inl named ↦ rw (named, allowed name calls) (passes at)
    | inr unnamed ↦ rw unnamed (passes at)
  ]

  pub set_environ_vars-Does :
      (eargv : List Text) (F : Table) → Does F (set_environ_vars refuses eargv) F
  unfolding set_environ_vars
  set_environ_vars-Does [] F = λ name waited p a. passes a
  set_environ_vars-Does (arg ∷ args) F =
      Does-then F F F _ _ (environ_var-Does arg (block_contains arg 61) F)
        (set_environ_vars-Does args F)

  pub execvp-Starts :
      (argv : List Text) (name : Name) (waited : List Name) (F : Table)
      → 0 < length argv
      → (p : Proc) → At name waited F p
      → Starts argv name F (execvp refuses argv p)
  unfolding execvp
  execvp-Starts [] name waited F named p a = absurd (omega arith)
  execvp-Starts (prog ∷ args) name waited F named p (at {calls}) =
      rw (allowed name calls) (starts at)

  pub spawn-Starts :
      (c : ExecCmd) (name : Name) (waited : List Name) (F : Table)
      → 0 < length c.argv
      → (p : Proc) → At name waited F p
      → Starts c.argv name F (spawn refuses c p)
  unfolding spawn exit_if_syscall_failed
  spawn-Starts c name waited F named p a = exits_after (
      Starts-continue c.argv name waited F F (execvp refuses c.argv)
        (set_environ_vars-Does c.eargv F name waited p a)
        (execvp-Starts c.argv name waited F named))
    where
      exits_after :
          {os : List (Outcome (Unit {0}))}
          → Starts c.argv name F os
          → Starts c.argv name F (continue os (λ _. exit_if_syscall_failed none (execcmd c) []))
      exits_after (starts b) = starts b

  pub exec_execcmd-Starts :
      (c : ExecCmd) (name : Name) (waited : List Name) (i o e : File)
      → 0 < length c.argv
      → (p : Proc) → At name waited (std i o e) p
      → Starts c.argv name (redirected c i o e) (exec_execcmd refuses c p)
  unfolding exec_execcmd
  exec_execcmd-Starts c name waited i o e named p a =
      elim c.redirects
        as (λ t.
          Starts c.argv name
            (if t then std (input_of c i) (output_of c o) (error_of c o e) else std i o e)
            ((if t
                then (redirect_fds_according_to_command refuses c >> spawn refuses c)
                else spawn refuses c)
              p)) [
                | true ↦
                    Starts-continue c.argv name waited _ _ (spawn refuses c)
                      (redirect-Does c i o e name waited p a) (spawn-Starts c name waited _ named)
                | false ↦ spawn-Starts c name waited _ named p a
              ]

  pub free_command-Does : (c : Cmd) → IsWhole c → (F : Table) → Does F (free_command c) F
  unfolding free_command
  free_command-Does no_cmd whole F = absurd whole
  free_command-Does (execcmd c) whole F = λ name waited p a. passes a
  free_command-Does (backcmd c) whole F = λ name waited p a. passes a
  free_command-Does (pipecmd l r) (wl, wr) F =
      Does-then F F F _ _ (free_command-Does l wl F) (free_command-Does r wr F)
