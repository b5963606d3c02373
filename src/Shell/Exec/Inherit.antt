-- ===== src/Shell/Exec/Inherit.antt =====
-- lab-shell/shell/exec.c, whatever calls are refused: how the processes of a command end, and what descriptors
-- a program inherits.
use mathlib.Core.List.{append-nil}
use sistemas_operativos.Base.{ℕ, ◌+◌, Bool, some, [], ◌∷◌, inl, inr, Bool-cases}
use sistemas_operativos.Posix.{Name, read_end, write_end, Proc, M, close, waitpid, pipe, fork, dup2}
use sistemas_operativos.Posix.Runs.{Post, Each, Each-append, Runs}
use sistemas_operativos.Shell.State.{Cmd, no_cmd, execcmd, backcmd, pipecmd}
use sistemas_operativos.Shell.Exec.{
  free_command, close_all_fds, report_and_clean_from_pipecmd_handler, left_child, right_child,
  after_left, handle_all_pipe_cmds_execution, exec_cmd,
}
use sistemas_operativos.Shell.Exec.Command.{
  Opens, opens, Inherits, Std, Never, Never-Each, IsWhole, then-Runs, exec_execcmd-Runs,
}

module _ (refuses : Name → ℕ → Bool) where
  left_child-Runs :
      (left : M (Unit {0}))
      → Runs Inherits (Opens []) left Never
      → (k k' : Name)
      → Runs Inherits
          (Opens (some (read_end k) ∷ some (write_end k') ∷ []))
          (left_child refuses 3 4 left)
          Std
  unfolding left_child report_and_clean_from_pipecmd_handler close close_all_fds dup2
  left_child-Runs left runs k k' p (opens {name} {calls}) = elim (Bool-cases (refuses name calls)) [
    | inl fails ↦ rw fails (opens, tt)
    | inr works ↦ rw works (simp append-nil (Never-Each _ (runs _ opens)))
  ]

  right_child-Runs :
      (right : M (Unit {0}))
      → Runs Inherits (Opens []) right Never
      → (k : Name)
      → Runs Inherits (Opens (some (read_end k) ∷ [])) (right_child refuses 3 right) Std
  unfolding right_child report_and_clean_from_pipecmd_handler close close_all_fds dup2
  right_child-Runs right runs k p (opens {name} {calls}) = elim (Bool-cases (refuses name calls)) [
    | inl fails ↦ rw fails (opens, tt)
    | inr works ↦ rw works (simp append-nil (Never-Each _ (runs _ opens)))
  ]

  after_left-Runs :
      (child : Name) (right : M (Unit {0}))
      → Runs Inherits (Opens []) right Never
      → (k k' : Name)
      → Runs Inherits
          (Opens (some (read_end k) ∷ some (write_end k') ∷ []))
          (after_left refuses 3 4 child right)
          Std
  unfolding after_left report_and_clean_from_pipecmd_handler close close_all_fds waitpid fork
  after_left-Runs child right runs k k' p (opens {name} {calls}) =
      elim (Bool-cases (refuses name calls)) [
        | inl fails ↦ rw fails (opens, tt)
        | inr works ↦ rw works (
            simp append-nil (
              Each-append (Post Std Inherits) _ _ (right_child-Runs right runs k _ opens)
                (opens, tt)))
      ]

  handler-Runs :
      (left right : M (Unit {0}))
      → Runs Inherits (Opens []) left Never
      → Runs Inherits (Opens []) right Never
      → Runs Inherits (Opens []) (handle_all_pipe_cmds_execution refuses left right) Std
  unfolding handle_all_pipe_cmds_execution report_and_clean_from_pipecmd_handler close close_all_fds
      waitpid fork pipe
  handler-Runs left right runs runs' p (opens {name} {calls}) =
      elim (Bool-cases (refuses name calls)) [
        | inl fails ↦ rw fails (opens, tt)
        | inr works ↦ rw works (elim (Bool-cases (refuses name (calls + 1))) [
          | inl fails ↦ rw fails (opens, tt)
          | inr works' ↦ rw works' (
              simp append-nil (
                Each-append (Post Std Inherits) _ _
                  (left_child-Runs left runs (calls ∷ name) (calls ∷ name) _ opens)
                  (after_left-Runs ((calls + 1) ∷ name) right runs' (calls ∷ name) (calls ∷ name) _
                    opens)))
        ])
      ]

  free_command-Runs : (c : Cmd) → IsWhole c → Runs Inherits (Opens []) (free_command c) Std
  unfolding free_command
  free_command-Runs no_cmd whole = absurd whole
  free_command-Runs (execcmd c) whole = λ p h. (h, tt)
  free_command-Runs (backcmd c) whole = λ p h. (h, tt)
  free_command-Runs (pipecmd l r) (wl, wr) =
      then-Runs refuses _ _ Std (free_command-Runs l wl) (free_command-Runs r wr)

  exec_cmd-Runs :
      (whole c : Cmd)
      → IsWhole whole
      → IsWhole c
      → Runs Inherits (Opens []) (exec_cmd refuses whole c) Never
  unfolding exec_cmd
  exec_cmd-Runs whole no_cmd w h = absurd h
  exec_cmd-Runs whole (execcmd c) w named = exec_execcmd-Runs refuses c named
  exec_cmd-Runs whole (backcmd c) w named = exec_execcmd-Runs refuses c named
  exec_cmd-Runs whole (pipecmd l r) w (hl, hr) =
      then-Runs refuses _ _ Never
        (then-Runs refuses _ _ Std
          (handler-Runs _ _ (exec_cmd-Runs whole l w hl) (exec_cmd-Runs whole r w hr))
          (free_command-Runs whole w))
        (λ p h. (tt, tt))

  -- Whatever calls of the system are refused: where each part of the command names a program and none is
  -- missing, exec_cmd returns in no process, none reads through NULL, and each program that is started has
  -- the three standard descriptors open and no other, so that no end of a pipe stays open in it.
  pub exec_cmd-Inherits :
      (whole c : Cmd)
      → IsWhole whole
      → IsWhole c
      → (p : Proc) → Opens [] p
      → Each (Post Never Inherits) (exec_cmd refuses whole c p)
  exec_cmd-Inherits whole c w h p std = exec_cmd-Runs whole c w h p std
