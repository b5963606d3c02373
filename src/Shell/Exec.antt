-- ===== src/Shell/Exec.antt =====
-- lab-shell/shell/exec.c, with what it uses of utils.c and of freecmd.c. What is printed on an error is left
-- out, and of the memory only that no NULL is followed.
pub mod Command
pub mod Inherit
pub mod Line
pub mod Steps
pub mod Ended
pub mod Started
pub mod Wired
use sistemas_operativos.Base.{
  zero, suc, ℕ, ◌+◌, Bool, true, false, not, ◌&&◌, Option, none, some, List, [], ◌∷◌, ◌==◌,
  if◌then◌else◌, ltb, length,
}
use sistemas_operativos.Posix.{
  Name, Text, OpenFlags, Proc, M, ◌>>=◌, ◌>>◌, done, leave, exits, faults, Forked, fork_failed,
  in_child, in_parent, close, waitpid, pipe, fork, dup2, open_file, execvp, setenv,
}
use sistemas_operativos.Shell.State.{
  ExecCmd, Cmd, no_cmd, execcmd, backcmd, pipecmd, block_contains, cut,
}

abbrev pub stdin_fileno : ℕ
stdin_fileno = 0

abbrev pub stdout_fileno : ℕ
stdout_fileno = 1

abbrev pub stderr_fileno : ℕ
stderr_fileno = 2

-- ERROR_EXIT_ID is -1, of which a parent reads 8 bits.
abbrev pub error_exit : ℕ
error_exit = 255

-- S_IWUSR | S_IRUSR
abbrev pub user_mode : ℕ
user_mode = 384

unfoldable pub free_command : Cmd → M (Unit {0})
free_command no_cmd = leave faults
free_command (execcmd e) = done tt
free_command (backcmd e) = done tt
free_command (pipecmd l r) = free_command l >> free_command r

unfoldable pub close_all_fds : List ℕ → M (Unit {0})
close_all_fds [] = done tt
close_all_fds (fd ∷ fds) = close fd >> close_all_fds fds

unfoldable pub exit_if_syscall_failed :
    Option ℕ → (command_to_free : Cmd) → (fds_to_close : List ℕ) → M (Unit {0})
unfolding close_all_fds free_command
exit_if_syscall_failed (some r) command fds = done tt
exit_if_syscall_failed none command fds =
    close_all_fds fds >> free_command command >> leave (exits error_exit)

unfoldable pub report_and_clean_from_pipecmd_handler : List ℕ → M (Unit {0})
unfolding close_all_fds
report_and_clean_from_pipecmd_handler fds = close_all_fds fds

-- The characters before `=`; `arg` has one.
unfoldable pub get_environ_key : (arg : Text) → Text
unfolding cut
get_environ_key arg = (cut 61 arg).0

-- The characters from `idx + 1` on.
unfoldable pub get_environ_value : (arg : Text) → (idx : ℕ) → Text
get_environ_value [] idx = []
get_environ_value (c ∷ cs) zero = cs
get_environ_value (c ∷ cs) (suc idx) = get_environ_value cs idx

-- Whether the name is `&1`.
abbrev pub is_stdout_name : Text → Bool
is_stdout_name (c ∷ d ∷ []) = (c == 38) && (d == 49)
is_stdout_name _ = false

module _ (refuses : Name → ℕ → Bool) where
  unfoldable pub set_environ_vars : (eargv : List Text) → M (Unit {0})
  unfolding get_environ_key get_environ_value
  set_environ_vars [] = done tt
  set_environ_vars (arg ∷ args) =
      elim (block_contains arg 61) [
        | none ↦ done tt
        | some i ↦
            if ltb 0 i
            then (setenv refuses (get_environ_key arg) (get_environ_value arg i) >> done tt)
            else done tt
      ]
      >> set_environ_vars args

  -- The mode is given where the file may be made.
  unfoldable pub open_redir_fd : (file : Text) → OpenFlags → M (Option ℕ)
  open_redir_fd file flags = open_file refuses file flags (if flags.creates then user_mode else 0)

  -- `open`, `dup2` over a standard descriptor, `close`.
  unfoldable pub redirect_to : ExecCmd → (file : Text) → OpenFlags → (fileno : ℕ) → M (Unit {0})
  unfolding open_redir_fd
  redirect_to c file flags fileno = open_redir_fd file flags >>= λ opening. elim opening [
    | none ↦ exit_if_syscall_failed none (execcmd c) []
    | some fd ↦ dup2 refuses fd fileno >>= λ dup2_result.
        close fd >> exit_if_syscall_failed dup2_result (execcmd c) []
  ]

  unfoldable pub redirect_stdout : ExecCmd → M (Unit {0})
  unfolding redirect_to
  redirect_stdout c =
      redirect_to c c.out_file (record { creates = true; truncates = true; writes = true })
        stdout_fileno

  unfoldable pub redirect_stdin : ExecCmd → M (Unit {0})
  unfolding redirect_to
  redirect_stdin c =
      redirect_to c c.in_file (record { creates = false; truncates = false; writes = false })
        stdin_fileno

  unfoldable pub redirect_stderr : ExecCmd → M (Unit {0})
  unfolding redirect_to
  redirect_stderr c =
      if is_stdout_name c.err_file
      then (dup2 refuses stdout_fileno stderr_fileno >>= λ r.
          exit_if_syscall_failed r (execcmd c) [])
      else redirect_to c c.err_file (record { creates = true; truncates = false; writes = true })
          stderr_fileno

  unfoldable pub redirect_fds_according_to_command : ExecCmd → M (Unit {0})
  unfolding redirect_stdout redirect_stdin redirect_stderr
  redirect_fds_according_to_command c =
      (if ltb 0 (length c.out_file) then redirect_stdout c else done tt)
      >> (if ltb 0 (length c.in_file) then redirect_stdin c else done tt)
      >> (if ltb 0 (length c.err_file) then redirect_stderr c else done tt)

  -- The case EXEC of `exec_cmd`.
  unfoldable pub spawn : ExecCmd → M (Unit {0})
  unfolding set_environ_vars exit_if_syscall_failed
  spawn c =
      set_environ_vars c.eargv
      >> execvp refuses c.argv
      >> exit_if_syscall_failed none (execcmd c) []

  -- `exec_cmd` of a command of type EXEC or REDIR.
  unfoldable pub exec_execcmd : ExecCmd → M (Unit {0})
  unfolding redirect_fds_according_to_command spawn
  exec_execcmd c = if c.redirects then (redirect_fds_according_to_command c >> spawn c) else spawn c

  -- The process of the left command; `left` runs it.
  unfoldable pub left_child : (r w : ℕ) → (left : M (Unit {0})) → M (Unit {0})
  unfolding report_and_clean_from_pipecmd_handler
  left_child r w left =
      close r
      >> (dup2 refuses w stdout_fileno >>= λ dup2_result. elim dup2_result [
        | none ↦ report_and_clean_from_pipecmd_handler (w ∷ [])
        | some _ ↦ close w >> left
      ])

  unfoldable pub right_child : (r : ℕ) → (right : M (Unit {0})) → M (Unit {0})
  unfolding report_and_clean_from_pipecmd_handler
  right_child r right = dup2 refuses r stdin_fileno >>= λ dup2_result. elim dup2_result [
    | none ↦ report_and_clean_from_pipecmd_handler (r ∷ [])
    | some _ ↦ close r >> right
  ]

  -- The process that has forked the left command.
  unfoldable pub after_left : (r w : ℕ) → (child : Name) → (right : M (Unit {0})) → M (Unit {0})
  after_left r w child right =
      close w
      >> (fork refuses >>= λ forked. elim forked [
        | fork_failed ↦ waitpid child >> report_and_clean_from_pipecmd_handler (r ∷ [])
        | in_child ↦ right_child r right
        | in_parent child' ↦ close r >> waitpid child >> waitpid child'
      ])

  -- `left` and `right` are `exec_cmd` of the two commands.
  unfoldable pub handle_all_pipe_cmds_execution : (left right : M (Unit {0})) → M (Unit {0})
  handle_all_pipe_cmds_execution left right = pipe refuses >>= λ fds. elim fds [
    | none ↦ report_and_clean_from_pipecmd_handler []
    | some ends ↦ fork refuses >>= λ forked. elim forked [
      | fork_failed ↦ report_and_clean_from_pipecmd_handler (ends.0 ∷ ends.1 ∷ [])
      | in_child ↦ left_child ends.0 ends.1 left
      | in_parent child ↦ after_left ends.0 ends.1 child right
    ]
  ]

  -- `parsed_pipe` is the whole command, which each process of a pipe frees.
  unfoldable pub exec_cmd : (parsed_pipe : Cmd) → Cmd → M (Unit {0})
  unfolding exec_execcmd handle_all_pipe_cmds_execution free_command
  exec_cmd parsed_pipe no_cmd = leave faults
  exec_cmd parsed_pipe (execcmd c) = exec_execcmd c
  exec_cmd parsed_pipe (backcmd c) = exec_execcmd c
  exec_cmd parsed_pipe (pipecmd left right) =
      handle_all_pipe_cmds_execution (exec_cmd parsed_pipe left) (exec_cmd parsed_pipe right)
      >> free_command parsed_pipe
      >> leave (exits 0)
