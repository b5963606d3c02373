-- ===== src/Shell/Tests.antt =====
-- Some lines, and the theorem on lab-shell/shell/parsing.c at one of them.
use sistemas_operativos.Base.{
  length, ◌+◌, some, ◌==◌, false, true, ℕ, zero, suc, ◌≡◌, refl, arith, true, false, Option, none,
  List, [], ◌∷◌,
}
use sistemas_operativos.Shell.State.{
  Cmd, bar, no_cmd, pipecmd, execcmd, pipe_cmd_create, exec_cmd_create, split_line, block_contains,
  space,
}
use sistemas_operativos.Posix.{Proc, inherited, Outcome}
use sistemas_operativos.Posix.Runs.{Each, Post}
use sistemas_operativos.Shell.Exec.{exec_cmd}
use sistemas_operativos.Shell.Exec.Command.{Inherits, Never, opens}
use sistemas_operativos.Shell.Exec.Inherit.{exec_cmd-Inherits}
use sistemas_operativos.Shell.Exec.Line.{Wired}
use sistemas_operativos.Shell.Exec.Wired.{exec_cmd-Wired}
use sistemas_operativos.Shell.Builtin.{getenv_in, Vars}
use sistemas_operativos.Shell.Run.{run_cmd}
use sistemas_operativos.Shell.Run.Crash.{HasNull, OwnFault, NoneReturns, run_cmd-crashes}
use sistemas_operativos.Shell.Parsing.{
  parsed, out_of_bounds, parse_cmd, parse_line, expand_environ_var,
}
use sistemas_operativos.Shell.Parsing.Outcome.{Ends, FitsAll}
use sistemas_operativos.Shell.Parsing.Ends.{BeyondLine, parse_line-Ends}

-- No variable is set.
abbrev demo_getenv : List ℕ → Option (List ℕ)
demo_getenv name = none

-- `a b >c| d $?`
abbrev demo : List ℕ
demo = 97 ∷ space ∷ 98 ∷ space ∷ 62 ∷ 99 ∷ 124 ∷ space ∷ 100 ∷ space ∷ 36 ∷ 63 ∷ []

parse_line-Ends_example :
    Ends (BeyondLine none demo) FitsAll (parse_line demo_getenv (48 ∷ []) 13 none demo)
parse_line-Ends_example = parse_line-Ends demo_getenv (48 ∷ []) 13 none demo (omega arith)

-- What it parses to.
abbrev demo_cmd : Cmd
demo_cmd =
    pipecmd
      (execcmd (record {
        scmd = 97 ∷ space ∷ 98 ∷ space ∷ 62 ∷ 99 ∷ [];
        redirects = true;
        argv = (97 ∷ []) ∷ (98 ∷ []) ∷ [];
        eargv = [];
        out_file = 99 ∷ [];
        in_file = [];
        err_file = [];
      }))
      (execcmd (record {
        scmd = 100 ∷ space ∷ 36 ∷ 63 ∷ [];
        redirects = false;
        argv = (100 ∷ []) ∷ (48 ∷ []) ∷ [];
        eargv = [];
        out_file = [];
        in_file = [];
        err_file = [];
      }))

-- `&a`: the character before the line is read.
reads_before : parse_line demo_getenv [] 3 none (38 ∷ 97 ∷ []) ≡ out_of_bounds
unfolding parse_line split_line block_contains parse_cmd
reads_before = refl

-- `n` arguments `a`.
abbrev many : ℕ → List ℕ
many zero = []
many (suc n) = 97 ∷ space ∷ many n

-- With 20 arguments, NULL is written behind `argv`.
writes_behind : parse_line demo_getenv [] 41 none (many 20) ≡ out_of_bounds
unfolding parse_line split_line block_contains parse_cmd exec_cmd_create expand_environ_var
writes_behind = refl

-- `|` alone is no command.
parses_null : parse_line demo_getenv [] 2 none (124 ∷ []) ≡ parsed no_cmd
unfolding parse_line split_line block_contains pipe_cmd_create parse_cmd
parses_null = refl

-- A process with three files.
abbrev demo_proc : Proc
demo_proc = record {
  name = [];
  calls = 7;
  fds = some (inherited 0) ∷ some (inherited 1) ∷ some (inherited 2) ∷ [];
  environ = [];
  waited = [];
}

-- The second call of each process fails.
exec_cmd-Inherits_example :
    Each (Post Never Inherits) (exec_cmd (λ name n. n == 1) demo_cmd demo_cmd demo_proc)
exec_cmd-Inherits_example =
    exec_cmd-Inherits (λ name n. n == 1) demo_cmd demo_cmd (omega arith, omega arith)
      (omega arith, omega arith) demo_proc opens

exec_cmd-Wired_example :
    Wired demo_cmd
      (inherited 0)
      (inherited 1)
      (inherited 2)
      (exec_cmd (λ name n. false) demo_cmd demo_cmd demo_proc)
exec_cmd-Wired_example =
    exec_cmd-Wired (λ name n. false) (λ name n. refl) demo_cmd (inherited 0) (inherited 1)
      (inherited 2) [] 7 [] (omega arith, omega arith)

abbrev demo_vars : Vars
demo_vars = record { status = 0; prompt = []; cwd = [] }

run_cmd-crashes_example :
    let run =
      run_cmd
        (λ name n. false)
        (λ from path. path)
        (λ n. 48 ∷ [])
        none
        (λ name. some 0)
        (bar ∷ 97 ∷ [])
        demo_vars
        demo_proc in
    ((c : Cmd)
      → parse_line
          (λ key. getenv_in key demo_proc.environ)
          (48 ∷ [])
          (length (bar ∷ 97 ∷ []) + 1)
          none
          (bar ∷ 97 ∷ [])
        ≡ parsed c
      → HasNull c)
    × NoneReturns run
    × OwnFault demo_proc.name run
run_cmd-crashes_example =
    run_cmd-crashes (λ name n. false) (λ from path. path) (λ n. 48 ∷ []) none (λ name. some 0)
      (97 ∷ []) demo_vars demo_proc
