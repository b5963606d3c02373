-- ===== src/Shell/Parsing.antt =====
-- lab-shell/shell/parsing.c. `getenv` is the environment, and `status_text` what `sprintf` prints of
-- `status`.
mod Lengths
pub mod Outcome
pub mod Ends
use sistemas_operativos.Base.{
  ℕ, zero, suc, ◌+◌, ◌-◌, Bool, true, false, not, ◌&&◌, ◌||◌, Option, none, some, List, [], ◌∷◌,
  ◌++◌, ◌==◌, ltb, leb, if◌then◌else◌, length,
}
use sistemas_operativos.Shell.State.{
  space, bar, ExecCmd, Cmd, no_cmd, execcmd, backcmd, pipecmd, exec_cmd_create, pipe_cmd_create,
  split_line, block_contains,
}

-- How the parser ends: with a value, with a write beyond an array or a read before the line, or, in the
-- model, out of fuel.
pub data Parse (A : Type 0) : Type 0 where
  parsed : A → Parse A
  out_of_bounds : Parse A
  out_of_fuel : Parse A

infixl 5 ◌>>=◌
abbrev pub ◌>>=◌ : {A B : Type 0} → Parse A → (A → Parse B) → Parse B
parsed a >>= f = f a
out_of_bounds >>= f = out_of_bounds
out_of_fuel >>= f = out_of_fuel

-- MAXARGS
abbrev pub max_args : ℕ
max_args = 20

-- The token at the start, and what follows it.
unfoldable pub get_token : List ℕ → List ℕ × List ℕ
get_token [] = ([], [])
get_token (c ∷ cs) =
    let rest = get_token cs in if c == space then ([], c ∷ cs) else (c ∷ rest.0, rest.1)

abbrev pub drop : (n : ℕ) → List ℕ → List ℕ
drop zero cs = cs
drop (suc n) [] = []
drop (suc n) (c ∷ cs) = drop n cs

-- `none` is that the token is no redirection.
unfoldable pub parse_redir_flow : ExecCmd → (arg : List ℕ) → Option ExecCmd
parse_redir_flow c arg = elim (block_contains arg 62) [
  | some i ↦
      if i == 0
      then some (record c { out_file = drop 1 arg; redirects = true })
      else if i == 1
      then some (record c { err_file = drop 2 arg; redirects = true })
      else some (record c { redirects = true })
  | none ↦ elim (block_contains arg 60) [
    | some i ↦ some (record c { in_file = drop 1 arg; redirects = true })
    | none ↦ none
  ]
]

-- Whether the token is KEY=VALUE.
unfoldable pub parse_environ_var : (arg : List ℕ) → Bool
parse_environ_var arg = elim (block_contains arg 61) [
  | none ↦ false
  | some i ↦ ltb 0 i && elim (block_contains arg 45) as (λ _. Bool) [ none ↦ true | some j ↦ false ]
]

-- An argument is added; the last place of `argv` is for NULL.
unfoldable pub add_arg : ExecCmd → (tok : List ℕ) → Parse ExecCmd
add_arg c [] = parsed c
add_arg c (x ∷ xs) =
    if ltb (length c.argv + 1) max_args
    then parsed (record c { argv = c.argv ++ ((x ∷ xs) ∷ []) })
    else out_of_bounds

-- The character before place `i` of the line; `before` is the one before its start, if there is one.
abbrev pub char_before : (before : Option ℕ) → ℕ → List ℕ → Option ℕ
char_before before zero cs = before
char_before before (suc i) [] = none
char_before before (suc i) (c ∷ cs) = char_before (some c) i cs

module _ (getenv : List ℕ → Option (List ℕ)) (status_text : List ℕ) where
  unfoldable pub expand_environ_var : (arg : List ℕ) → List ℕ
  expand_environ_var [] = []
  expand_environ_var (c ∷ []) = c ∷ []
  expand_environ_var (c ∷ d ∷ cs) =
      if not (c == 36)
      then c ∷ d ∷ cs
      else if (d == 63) && (length cs == 0)
      then status_text
      else elim (getenv (d ∷ cs)) [ none ↦ [] | some value ↦ value ]

  -- One round of the loop of `parse_exec`.
  unfoldable pub parse_token : ExecCmd → (tok : List ℕ) → Parse ExecCmd
  unfolding parse_redir_flow parse_environ_var add_arg
  parse_token c tok = elim (parse_redir_flow c tok) [
    | some c' ↦ parsed c'
    | none ↦
        if parse_environ_var tok
        then (if ltb (length c.eargv) max_args
            then parsed (record c { eargv = c.eargv ++ (tok ∷ []) })
            else out_of_bounds)
        else add_arg c (expand_environ_var tok)
  ]

  unfoldable pub parse_tokens : (fuel : ℕ) → ExecCmd → List ℕ → Parse ExecCmd
  unfolding get_token parse_token
  parse_tokens zero c buf = out_of_fuel
  parse_tokens (suc fuel) c [] = parsed c
  parse_tokens (suc fuel) c (x ∷ xs) = parse_token c (get_token (x ∷ xs)).0 >>= λ c'.
      parse_tokens fuel c' (drop 1 (get_token (x ∷ xs)).1)

  unfoldable pub parse_exec : List ℕ → Parse ExecCmd
  unfolding parse_tokens
  parse_exec buf = parse_tokens (length buf + 1) (exec_cmd_create buf) buf

  -- The command up to the first `&`.
  unfoldable pub parse_back : List ℕ → Parse Cmd
  unfolding parse_exec
  parse_back buf = parse_exec (split_line buf 38).0 >>= λ e. parsed (backcmd e)

  unfoldable pub parse_cmd : (before : Option ℕ) → List ℕ → Parse Cmd
  unfolding parse_back
  parse_cmd before [] = parsed no_cmd
  parse_cmd before (c ∷ cs) = elim (block_contains (c ∷ cs) 38) [
    | none ↦ parse_exec (c ∷ cs) >>= λ e. parsed (execcmd e)
    | some i ↦ elim (char_before before i (c ∷ cs)) [
      | none ↦ out_of_bounds
      | some d ↦
          if d == 62 then parse_exec (c ∷ cs) >>= (λ e. parsed (execcmd e)) else parse_back (c ∷ cs)
    ]
  ]

  -- Before the right part stands a NUL or a space.
  unfoldable pub parse_line : (fuel : ℕ) → (before : Option ℕ) → List ℕ → Parse Cmd
  unfolding parse_cmd
  parse_line zero before buf = out_of_fuel
  parse_line (suc fuel) before buf =
      let (left, right) = split_line buf bar in
      let deeper = parse_line fuel (some space) right in
      elim (block_contains right bar) as (λ _. Parse Cmd) [
        | some i ↦ deeper
        | none ↦ parse_cmd (some space) right
      ]
      >>= λ r. parse_cmd before left >>= λ l. parsed (pipe_cmd_create l r)
