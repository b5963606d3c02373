-- ===== src/Shell/Exec/Command.antt =====
-- lab-shell/shell/exec.c, whatever calls are refused: how one command ends, and what descriptors its program
-- inherits.
use sistemas_operativos.Base.{
  ℕ, zero, suc, ◌+◌, ◌≡◌, ◌<◌, refl, Bool, true, false, Option, none, some, List, [], ◌∷◌, inl, inr,
  Bool-cases, if◌then◌else◌, ltb, length, arith,
}
use sistemas_operativos.Posix.{
  Name, Text, OpenFlags, File, opened, Proc, End, execs, exits, faults, M, ◌>>◌, done, Outcome,
  returns, ends, close, dup2, open_file, execvp, setenv, set_fd,
}
use sistemas_operativos.Posix.Runs.{Post, Each, Runs, Runs-bind}
use sistemas_operativos.Shell.State.{
  ExecCmd, Cmd, no_cmd, execcmd, backcmd, pipecmd, block_contains,
}
use sistemas_operativos.Shell.Exec.{
  free_command, close_all_fds, exit_if_syscall_failed, set_environ_vars, open_redir_fd, redirect_to,
  redirect_stdout, redirect_stdin, redirect_stderr, is_stdout_name,
  redirect_fds_according_to_command, spawn, exec_execcmd, get_environ_key, get_environ_value,
}

-- The standard descriptors are open, behind them those of `more`, and no other.
pub data Opens (more : List (Option File)) : Proc → Type 0 where
  opens :
      {name : Name} {calls : ℕ} {i o e : File} {environ : List (Text × Text)} {waited : List Name}
      → Opens more (record {
        name = name;
        calls = calls;
        fds = some i ∷ some o ∷ some e ∷ more;
        environ = environ;
        waited = waited;
      })

-- A program starts with the standard descriptors alone, and no process reads through NULL.
abbrev pub Inherits : End → Proc → Type 0
Inherits (execs argv) p = Opens [] p
Inherits (exits status) p = Unit
Inherits faults p = ⊥

abbrev pub Std : Unit {0} → Proc → Type 0
Std _ = Opens []

abbrev pub Never : Unit {0} → Proc → Type 0
Never _ p = ⊥

-- What never returns meets any claim on its return.
pub Never-Each :
    (os : List (Outcome (Unit {0}))) → Each (Post Never Inherits) os → Each (Post Std Inherits) os
Never-Each [] h = tt
Never-Each (returns a p ∷ os) (h, hs) = absurd h
Never-Each (ends e p ∷ os) (h, hs) = (h, Never-Each os hs)

-- A standard descriptor is replaced, and the one behind them stays.
set_fd-std :
    (fileno : ℕ)
    → fileno < 3
    → (i o e f : File)
    → (i' o' e' : File) × (set_fd fileno (some f) (some i ∷ some o ∷ some e ∷ some f ∷ [])
        ≡ some i' ∷ some o' ∷ some e' ∷ some f ∷ [])
set_fd-std zero std i o e f = (f, o, e, refl)
set_fd-std (suc zero) std i o e f = (i, f, e, refl)
set_fd-std (suc (suc zero)) std i o e f = (i, o, f, refl)
set_fd-std (suc (suc (suc n))) std i o e f = absurd (omega arith)

-- No part is NULL, and each names a program.
abbrev pub IsWhole : Cmd → Type 0
IsWhole no_cmd = ⊥
IsWhole (execcmd c) = 0 < length c.argv
IsWhole (backcmd c) = 0 < length c.argv
IsWhole (pipecmd l r) = IsWhole l × IsWhole r

module _ (refuses : Name → ℕ → Bool) where
  redirect_to-Runs :
      (c : ExecCmd) (file : Text) (flags : OpenFlags) (fileno : ℕ)
      → fileno < 3
      → Runs Inherits (Opens []) (redirect_to refuses c file flags fileno) Std
  unfolding redirect_to open_redir_fd open_file dup2 close exit_if_syscall_failed close_all_fds
      free_command
  redirect_to-Runs c file flags fileno std p (opens {name} {calls} {i} {o} {e}) =
      elim (Bool-cases (refuses name calls)) [
        | inl fails ↦ rw fails (tt, tt)
        | inr works ↦ rw works (elim (Bool-cases (refuses name (calls + 1))) [
          | inl fails ↦ rw fails (tt, tt)
          | inr works' ↦
              let (i', o', e', moved) =
                set_fd-std fileno std i o e
                  (opened file flags (if flags.creates then 384 else 0)) in
              rw (works', moved) (opens, tt)
        ])
      ]

  redirect_stderr-Runs : (c : ExecCmd) → Runs Inherits (Opens []) (redirect_stderr refuses c) Std
  unfolding redirect_stderr dup2 exit_if_syscall_failed close_all_fds free_command
  redirect_stderr-Runs c p (opens {name} {calls}) = elim (Bool-cases (is_stdout_name c.err_file)) [
    | inl same ↦ rw same (elim (Bool-cases (refuses name calls)) [
      | inl fails ↦ rw fails (tt, tt)
      | inr works ↦ rw works (opens, tt)
    ])
    | inr other ↦ rw other (redirect_to-Runs c c.err_file _ 2 (omega arith) _ opens)
  ]

  -- A step that is taken only where a test holds.
  when-Runs :
      (t : Bool) (m : M (Unit {0}))
      → Runs Inherits (Opens []) m Std
      → Runs Inherits (Opens []) (if t then m else done tt) Std
  when-Runs true m runs p h = runs p h
  when-Runs false m runs p h = (h, tt)

  pub then-Runs :
      (m n : M (Unit {0})) (Q : Unit {0} → Proc → Type 0)
      → Runs Inherits (Opens []) m Std
      → Runs Inherits (Opens []) n Q
      → Runs Inherits (Opens []) (m >> n) Q
  then-Runs m n Q first next = Runs-bind Inherits Std Q (Opens []) m (λ _. n) first (λ _. next)

  redirect-Runs :
      (c : ExecCmd) → Runs Inherits (Opens []) (redirect_fds_according_to_command refuses c) Std
  unfolding redirect_fds_according_to_command redirect_stdout redirect_stdin
  redirect-Runs c =
      then-Runs _ _ Std
        (then-Runs _ _ Std
          (when-Runs (ltb 0 (length c.out_file)) _
            (redirect_to-Runs c c.out_file _ 1 (omega arith)))
          (when-Runs (ltb 0 (length c.in_file)) _ (redirect_to-Runs c c.in_file _ 0 (omega arith))))
        (when-Runs (ltb 0 (length c.err_file)) _ (redirect_stderr-Runs c))

  setenv-Runs :
      (key value : Text) → Runs Inherits (Opens []) (setenv refuses key value >> done tt) Std
  unfolding setenv
  setenv-Runs key value p (opens {name} {calls}) = elim (Bool-cases (refuses name calls)) [
    | inl fails ↦ rw fails (opens, tt)
    | inr works ↦ rw works (opens, tt)
  ]

  environ_var-Runs :
      (arg : Text) (found : Option ℕ)
      → Runs Inherits
          (Opens [])
          (elim found [
            | none ↦ done tt
            | some i ↦
                if ltb 0 i
                then (setenv refuses (get_environ_key arg) (get_environ_value arg i) >> done tt)
                else done tt
          ])
          Std
  environ_var-Runs arg none = λ p h. (h, tt)
  environ_var-Runs arg (some i) =
      when-Runs (ltb 0 i) _ (setenv-Runs (get_environ_key arg) (get_environ_value arg i))

  set_environ_vars-Runs :
      (eargv : List Text) → Runs Inherits (Opens []) (set_environ_vars refuses eargv) Std
  unfolding set_environ_vars
  set_environ_vars-Runs [] = λ p h. (h, tt)
  set_environ_vars-Runs (arg ∷ args) =
      then-Runs _ _ Std (environ_var-Runs arg (block_contains arg 61)) (set_environ_vars-Runs args)

  execvp-Runs :
      (argv : List Text) → 0 < length argv → Runs Inherits (Opens []) (execvp refuses argv) Std
  unfolding execvp
  execvp-Runs [] named p h = absurd (omega arith)
  execvp-Runs (prog ∷ args) named p (opens {name} {calls}) =
      elim (Bool-cases (refuses name calls)) [
        | inl fails ↦ rw fails (opens, tt)
        | inr works ↦ rw works (opens, tt)
      ]

  spawn-Runs : (c : ExecCmd) → 0 < length c.argv → Runs Inherits (Opens []) (spawn refuses c) Never
  unfolding spawn exit_if_syscall_failed close_all_fds free_command
  spawn-Runs c named =
      then-Runs _ _ Never
        (then-Runs _ _ Std (set_environ_vars-Runs c.eargv) (execvp-Runs c.argv named))
        (λ p h. (tt, tt))

  pub exec_execcmd-Runs :
      (c : ExecCmd) → 0 < length c.argv → Runs Inherits (Opens []) (exec_execcmd refuses c) Never
  unfolding exec_execcmd
  exec_execcmd-Runs c named =
      elim c.redirects
        as (λ t.
          Runs Inherits (Opens [])
            (if t
              then (redirect_fds_according_to_command refuses c >> spawn refuses c)
              else spawn refuses c)
            Never) [
              | true ↦ then-Runs _ _ Never (redirect-Runs c) (spawn-Runs c named)
              | false ↦ spawn-Runs c named
            ]
