-- ===== src/Shell/State.antt =====
-- The commands of lab-shell/shell (types.h) and the helpers of utils.c and createcmd.c. A string is its
-- characters without the NUL; each has room in its buffer.
use sistemas_operativos.Base.{
  ℕ, ◌+◌, Bool, false, Option, none, some, List, [], ◌∷◌, ◌==◌, if◌then◌else◌,
}

abbrev pub space : ℕ
space = 32

-- The character `|`.
abbrev pub bar : ℕ
bar = 124

-- `struct execcmd`; `redirects` is that its type is REDIR. The lists stand for `argv` and `eargv`, and
-- their lengths for `argc` and `eargc`.
pub record ExecCmd : Type 0 where
  pub scmd : List ℕ
  pub redirects : Bool
  pub argv : List (List ℕ)
  pub eargv : List (List ℕ)
  pub out_file : List ℕ
  pub in_file : List ℕ
  pub err_file : List ℕ

-- `struct cmd`; `no_cmd` is NULL. `scmd` of a command in the background is that of its command.
pub data Cmd : Type 0 where
  no_cmd : Cmd
  execcmd : ExecCmd → Cmd
  backcmd : ExecCmd → Cmd
  pipecmd : (left right : Cmd) → Cmd

unfoldable pub exec_cmd_create : List ℕ → ExecCmd
exec_cmd_create buf = record {
  scmd = buf;
  redirects = false;
  argv = [];
  eargv = [];
  out_file = [];
  in_file = [];
  err_file = [];
}

unfoldable pub pipe_cmd_create : (left right : Cmd) → Cmd
pipe_cmd_create left no_cmd = left
pipe_cmd_create left right = pipecmd left right

-- What is before the first `splitter`, and what follows it.
unfoldable pub cut : (splitter : ℕ) → List ℕ → List ℕ × List ℕ
cut splitter [] = ([], [])
cut splitter (c ∷ cs) =
    let rest = cut splitter cs in if c == splitter then ([], cs) else (c ∷ rest.0, rest.1)

-- `while (buf[i] == SPACE) i++`
unfoldable pub skip_spaces : List ℕ → List ℕ
skip_spaces [] = []
skip_spaces (c ∷ cs) = let rest = skip_spaces cs in if c == space then rest else c ∷ cs

-- The left part, which stays in the buffer, and the result. Behind the line the buffer has zeros, since
-- `read_line` clears it.
unfoldable pub split_line : List ℕ → (splitter : ℕ) → List ℕ × List ℕ
unfolding cut skip_spaces
split_line buf splitter = let (left, right) = cut splitter buf in (left, skip_spaces right)

-- `none` is -1.
unfoldable pub block_contains : List ℕ → (c : ℕ) → Option ℕ
block_contains [] c = none
block_contains (x ∷ xs) c =
    let rest = block_contains xs c in
    if x == c then some 0 else elim rest [ none ↦ none | some i ↦ some (i + 1) ]
