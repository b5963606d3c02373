-- ===== src/Shell/Exec/Wired.antt =====
-- lab-shell/shell/exec.c where no call is refused: the programs of a line, their descriptors and who waits for
-- whom.
use mathlib.Core.List.{append-nil}
use sistemas_operativos.Base.{ℕ, ◌+◌, ◌≡◌, refl, ap, ◌∙◌, Bool, false, some, List, [], ◌∷◌, ◌++◌}
use sistemas_operativos.Posix.{
  Name, Text, File, read_end, write_end, Proc, exits, M, Outcome, returns, ends, leave, close,
  waitpid, pipe, fork, dup2, continue,
}
use sistemas_operativos.Shell.State.{Cmd, no_cmd, execcmd, backcmd, pipecmd}
use sistemas_operativos.Shell.Exec.{
  free_command, left_child, right_child, after_left, handle_all_pipe_cmds_execution, exec_cmd,
}
use sistemas_operativos.Shell.Exec.Command.{IsWhole}
use sistemas_operativos.Shell.Exec.Line.{Table, std, leader, Wired, piped}
use sistemas_operativos.Shell.Exec.Steps.{At, Passes, At-waited, At-name, at, passes}
use sistemas_operativos.Shell.Exec.Ended.{
  Ended, continue-Ended, leader-last, Wired-Ended, WiredAs, Started-of,
}
use sistemas_operativos.Shell.Exec.Started.{exec_execcmd-Starts, free_command-Does}

module _ (refuses : Name → ℕ → Bool)
    (allowed : (name : Name) (n : ℕ) → refuses name n ≡ false) where
  left_child-Wired :
      (left : M (Unit {0})) (W : List (Outcome (Unit {0})) → Type 0) (k : Name) (i o e : File)
      (name : Name)
      → ((p : Proc) → At name [] (std i (write_end k) e) p → W (left p))
      → (p : Proc) → At name [] (piped i o e k) p
      → W (left_child refuses 3 4 left p)
  unfolding left_child close dup2
  left_child-Wired left W k i o e name runs p (at {calls}) =
      rw (allowed name calls) (simp append-nil (runs _ at))

  right_child-Wired :
      (right : M (Unit {0})) (W : List (Outcome (Unit {0})) → Type 0) (k : Name) (i o e : File)
      (name : Name)
      → ((p : Proc) → At name [] (std (read_end k) o e) p → W (right p))
      → (p : Proc) → At name [] (some i ∷ some o ∷ some e ∷ some (read_end k) ∷ []) p
      → W (right_child refuses 3 right p)
  unfolding right_child close dup2
  right_child-Wired right W k i o e name runs p (at {calls}) =
      rw (allowed name calls) (simp append-nil (runs _ at))

  -- The pipe, both children, and the parent that has waited for them.
  handler-eq :
      (left right : M (Unit {0})) (i o e : File) (name : Name) (p : Proc)
      → At name [] (std i o e) p
      → (k : Name) × (l : Name) × (r : Name) × (pl : Proc) × (pr : Proc) × (q : Proc) × At l []
          (piped i o e k)
          pl
        × At r [] (some i ∷ some o ∷ some e ∷ some (read_end k) ∷ []) pr
        × At name (r ∷ l ∷ []) (std i o e) q
        × (handle_all_pipe_cmds_execution refuses left right p
            ≡ left_child refuses 3 4 left pl
              ++ (right_child refuses 3 right pr ++ returns tt q ∷ []))
  unfolding handle_all_pipe_cmds_execution after_left pipe fork close waitpid
  handler-eq left right i o e name p (at {calls} {environ}) =
      let pl : Proc = record {
        name = (calls + 1) ∷ name;
        calls = 0;
        fds = piped i o e (calls ∷ name);
        environ = environ;
        waited = [];
      } in
      let pr : Proc = record {
        name = (calls + 1 + 1) ∷ name;
        calls = 0;
        fds = some i ∷ some o ∷ some e ∷ some (read_end (calls ∷ name)) ∷ [];
        environ = environ;
        waited = [];
      } in
      let q : Proc = record {
        name = name;
        calls = calls + 1 + 1 + 1;
        fds = std i o e;
        environ = environ;
        waited = ((calls + 1 + 1) ∷ name) ∷ ((calls + 1) ∷ name) ∷ [];
      } in
      (
        calls ∷ name,
        (calls + 1) ∷ name,
        (calls + 1 + 1) ∷ name,
        pl,
        pr,
        q,
        at,
        at,
        at,
        rw (allowed name calls, allowed name (calls + 1), allowed name (calls + 1 + 1))
            (simp append-nil refl),
      )

  -- The tree is freed and the parent exits.
  parent-eq :
      (whole : Cmd) (name : Name) (waited : List Name) (F : Table)
      (xs ys : List (Outcome (Unit {0}))) (q : Proc)
      → IsWhole whole
      → Ended xs
      → Ended ys
      → At name waited F q
      → (q' : Proc) × At name waited F q'
        × (continue
              (continue (xs ++ (ys ++ returns tt q ∷ [])) (λ _. free_command whole))
              (λ _. leave (exits 0))
            ≡ xs ++ (ys ++ ends (exits 0) q' ∷ []))
  parent-eq whole name waited F xs ys q w hx hy a =
      let (q', a', eq) = freed (free_command-Does refuses allowed whole w F name waited q a) in
      (
        q',
        a',
        rw
            (
              continue-Ended xs (ys ++ returns tt q ∷ []) (λ _. free_command whole) hx,
              continue-Ended ys (returns tt q ∷ []) (λ _. free_command whole) hy,
              continue-Ended xs (ys ++ (free_command whole q ++ [])) (λ _. leave (exits 0)) hx,
              continue-Ended ys (free_command whole q ++ []) (λ _. leave (exits 0)) hy,
              eq,
            )
            refl,
      )
    where
      freed :
          {os : List (Outcome (Unit {0}))}
          → Passes name waited F os
          → (q' : Proc) × At name waited F q' × (os ≡ returns tt q' ∷ [])
      freed (passes b) = (_, b, refl)

  pub exec_cmd-WiredAs :
      (whole c : Cmd)
      → IsWhole whole
      → IsWhole c
      → (i o e : File) (name : Name) (p : Proc) → At name [] (std i o e) p
      → WiredAs name c i o e (exec_cmd refuses whole c p)
  unfolding exec_cmd
  exec_cmd-WiredAs whole no_cmd w h = absurd h
  exec_cmd-WiredAs whole (execcmd c) w named = λ i o e name p a.
      Started-of c name i o e (exec_execcmd-Starts refuses allowed c name [] i o e named p a)
  exec_cmd-WiredAs whole (backcmd c) w named = λ i o e name p a.
      Started-of c name i o e (exec_execcmd-Starts refuses allowed c name [] i o e named p a)
  exec_cmd-WiredAs whole (pipecmd cl cr) w (hl, hr) = λ i o e name p a.
      let (k, l, r, pl, pr, q, al, ar, aq, eq) =
        handler-eq (exec_cmd refuses whole cl) (exec_cmd refuses whole cr) i o e name p a in
      let (wl, ll) =
        left_child-Wired (exec_cmd refuses whole cl) (WiredAs l cl i (write_end k) e) k i o e l
          (exec_cmd-WiredAs whole cl w hl i (write_end k) e l) pl al in
      let (wr, lr) =
        right_child-Wired (exec_cmd refuses whole cr) (WiredAs r cr (read_end k) o e) k i o e r
          (exec_cmd-WiredAs whole cr w hr (read_end k) o e r) pr ar in
      let xs = left_child refuses 3 4 (exec_cmd refuses whole cl) pl in
      let ys = right_child refuses 3 (exec_cmd refuses whole cr) pr in
      let (q', aq', eq') =
        parent-eq whole name (r ∷ l ∷ []) (std i o e) xs ys q w
          (Wired-Ended cl i (write_end k) e xs wl) (Wired-Ended cr (read_end k) o e ys wr) aq in
      let all =
        ap (λ os. continue (continue os (λ _. free_command whole)) (λ _. leave (exits 0))) eq
        ∙ eq' in
      (
        (k, xs, ys, q', all, rw (ll, lr) (At-waited aq'), wl, wr),
        ap leader all ∙ leader-last xs ys (ends (exits 0) q') ∙ At-name aq',
      )

  -- Where no call is refused, no part of the command is missing and each names a program: exec_cmd of a fresh
  -- process between the files i, o and e starts each program of the command once. A program has the standard
  -- files of its place with its redirections, and no other: each `|` has a pipe, whose write end is the output
  -- of what stands on the left and whose read end is the input of what stands on the right. The process of
  -- a `|` exits with 0 after it has waited for the processes of both sides.
  pub exec_cmd-Wired :
      (c : Cmd) (i o e : File) (name : Name) (calls : ℕ) (environ : List (Text × Text))
      → IsWhole c
      → Wired c i o e (
          exec_cmd refuses c c (record {
            name = name;
            calls = calls;
            fds = some i ∷ some o ∷ some e ∷ [];
            environ = environ;
            waited = [];
          }))
  exec_cmd-Wired c i o e name calls environ whole =
      (exec_cmd-WiredAs c c whole whole i o e name _ at).0
