-- ===== src/Shell/Parsing/Ends.antt =====
-- lab-shell/shell/parsing.c: the parser ends, and what it leaves in `argv` and `eargv`.
use sistemas_operativos.Base.{
  ℕ, zero, suc, ◌+◌, ◌≤◌, Bool, true, false, Option, none, some, List, [], ◌∷◌, ◌≡◌, ap, ◌∙◌, ◌⊎◌,
  inl, inr, refl, if◌then◌else◌, length, length-append, ltb, ◌==◌, arith, sym,
}
use sistemas_operativos.Shell.State.{
  space, bar, ExecCmd, execcmd, exec_cmd_create, pipe_cmd_create, split_line, block_contains,
}
use sistemas_operativos.Shell.Parsing.{
  parsed, ◌>>=◌, max_args, get_token, drop, parse_redir_flow, parse_environ_var, expand_environ_var,
  parse_token, parse_tokens, parse_exec, parse_back, char_before, parse_cmd, parse_line,
}
use sistemas_operativos.Shell.Parsing.Lengths.{length-rest, length-split_line, length-left}
use sistemas_operativos.Shell.Parsing.Outcome.{
  Ends, Ends-bind, Ends-weaken, Fits, FitsAll, FitsIn, if-Ends, option-Ends, ltb→lt, ltb→ge,
  parse_redir_flow-FitsIn, redirected-Ends, add_arg-Ends, pipe_cmd_create-FitsAll, value, stops,
}

-- Where the character before the first `c` lies before the line, the line starts with `c`.
block_contains-before :
    (before : Option ℕ) (cs : List ℕ) (c i : ℕ)
    → block_contains cs c ≡ some i
    → char_before before i cs ≡ none
    → (before ≡ none) × (i ≡ 0)
unfolding block_contains
block_contains-before before [] c i found outside = absurd cc
block_contains-before before (x ∷ xs) c i found outside =
    by_head (x == c) (block_contains xs c) (λ j here. block_contains-before (some x) xs c j here)
      found
  where
    by_head :
        (t : Bool) (o : Option ℕ)
        → ((j : ℕ) → o ≡ some j → char_before (some x) j xs ≡ none → (some x ≡ none) × (j ≡ 0))
        → (if t then some 0 else elim o [ none ↦ none | some j ↦ some (j + 1) ]) ≡ some i
        → (before ≡ none) × (i ≡ 0)
    by_head true o later head =
        let first : 0 ≡ i = cc in
        (ap (λ k. char_before before k (x ∷ xs)) first ∙ outside, sym first)
    by_head false none later head = absurd cc
    by_head false (some j) later head =
        let place : j + 1 ≡ i = cc in
        let e : suc j ≡ i = omega arith in
        let (unread, _) = later j refl (ap (λ k. char_before before k (x ∷ xs)) e ∙ outside) in
        absurd cc

-- Why a command is not parsed.
abbrev Beyond : (before : Option ℕ) (buf : List ℕ) → Type 0
Beyond before buf = (max_args ≤ length buf) ⊎ ((before ≡ none) × (block_contains buf 38 ≡ some 0))

-- Why a line is not parsed.
abbrev pub BeyondLine : (before : Option ℕ) (buf : List ℕ) → Type 0
BeyondLine before buf =
    (max_args ≤ length buf)
    ⊎ ((before ≡ none) × (block_contains (split_line buf bar).0 38 ≡ some 0))

module _ (getenv : List ℕ → Option (List ℕ)) (status_text : List ℕ) where
  parse_token-Ends :
      (total left : ℕ) (c : ExecCmd) (tok : List ℕ)
      → FitsIn total (left + 1) c
      → Ends (max_args ≤ total) (FitsIn total left) (parse_token getenv status_text c tok)
  unfolding parse_token
  parse_token-Ends total left c tok (args, vars, args_in, vars_in) =
      let one = length-append c.eargv (tok ∷ []) in
      redirected-Ends (max_args ≤ total) (FitsIn total left) (parse_redir_flow c tok)
        (parse_redir_flow-FitsIn total left c tok (args, vars, omega arith, omega arith))
        (if-Ends (max_args ≤ total) (FitsIn total left) (parse_environ_var tok)
          (λ variable.
            if-Ends (max_args ≤ total) (FitsIn total left) (ltb (length c.eargv) max_args)
              (λ room.
                let room' = ltb→lt (length c.eargv) max_args room in
                value (args, omega arith, omega arith, omega arith))
              (λ full. let full' = ltb→ge (length c.eargv) max_args full in stops (omega arith)))
          (λ argument.
            add_arg-Ends total left c (expand_environ_var getenv status_text tok)
              (args, vars, args_in, vars_in)))

  parse_tokens-Ends :
      (total fuel : ℕ) (c : ExecCmd) (buf : List ℕ)
      → length buf + 1 ≤ fuel
      → FitsIn total (length buf) c
      → Ends (max_args ≤ total) Fits (parse_tokens getenv status_text fuel c buf)
  unfolding parse_tokens
  parse_tokens-Ends total zero c buf enough fits = absurd (omega arith)
  parse_tokens-Ends total (suc fuel) c [] enough (args, vars, args_in, vars_in) = value (args, vars)
  parse_tokens-Ends total (suc fuel) c (x ∷ xs) enough (args, vars, args_in, vars_in) =
      let shorter = length-rest x xs in
      Ends-bind (max_args ≤ total)
        (parse_token-Ends total (length xs) c (get_token (x ∷ xs)).0
          (args, vars, omega arith, omega arith))
        (λ c' (args', vars', args_in', vars_in').
          parse_tokens-Ends total fuel c' (drop 1 (get_token (x ∷ xs)).1) (omega arith)
            (args', vars', omega arith, omega arith))

  parse_exec-Ends :
      (buf : List ℕ) → Ends (max_args ≤ length buf) Fits (parse_exec getenv status_text buf)
  unfolding parse_exec exec_cmd_create
  parse_exec-Ends buf =
      parse_tokens-Ends (length buf) (length buf + 1) (exec_cmd_create buf) buf (omega arith)
        (omega arith, omega arith, omega arith, omega arith)

  execcmd-Ends :
      (buf : List ℕ)
      → Ends
          (max_args ≤ length buf)
          FitsAll
          (parse_exec getenv status_text buf >>= (λ e. parsed (execcmd e)))
  execcmd-Ends buf = Ends-bind (max_args ≤ length buf) (parse_exec-Ends buf) (λ e fits. value fits)

  parse_back-Ends :
      (buf : List ℕ) → Ends (max_args ≤ length buf) FitsAll (parse_back getenv status_text buf)
  unfolding parse_back
  parse_back-Ends buf =
      let shorter = length-left 38 buf in
      Ends-bind (max_args ≤ length buf)
        (Ends-weaken (max_args ≤ length (split_line buf 38).0) (λ long. omega arith)
          (parse_exec-Ends (split_line buf 38).0))
        (λ e fits. value fits)

  parse_cmd-Ends :
      (before : Option ℕ) (buf : List ℕ)
      → Ends (Beyond before buf) FitsAll (parse_cmd getenv status_text before buf)
  unfolding parse_cmd
  parse_cmd-Ends before [] = value (omega arith)
  parse_cmd-Ends before (c ∷ cs) =
      option-Ends (Beyond before (c ∷ cs)) FitsAll (block_contains (c ∷ cs) 38)
        (λ no_back. Ends-weaken (max_args ≤ length (c ∷ cs)) inl (execcmd-Ends (c ∷ cs)))
        (λ i found.
          option-Ends (Beyond before (c ∷ cs)) FitsAll (char_before before i (c ∷ cs))
            (λ outside.
              let (unread, first) = block_contains-before before (c ∷ cs) 38 i found outside in
              stops (inr (unread, found ∙ ap some first)))
            (λ d read.
              if-Ends (Beyond before (c ∷ cs)) FitsAll (d == 62)
                (λ redirects. Ends-weaken (max_args ≤ length (c ∷ cs)) inl (execcmd-Ends (c ∷ cs)))
                (λ back. Ends-weaken (max_args ≤ length (c ∷ cs)) inl (parse_back-Ends (c ∷ cs)))))

  -- With one step of fuel more than the line has characters, parse_line ends. Where it gives a command, each
  -- part of the command has at most 19 arguments, so that NULL has room behind them, and at most 20
  -- variables. It leaves its arrays or its line only where the line has at least 20 characters, or where
  -- nothing is before the line and its first command starts with `&`.
  pub parse_line-Ends :
      (fuel : ℕ) (before : Option ℕ) (buf : List ℕ)
      → length buf + 1 ≤ fuel
      → Ends
          ((max_args ≤ length buf)
            ⊎ ((before ≡ none) × (block_contains (split_line buf bar).0 38 ≡ some 0)))
          FitsAll
          (parse_line getenv status_text fuel before buf)
  unfolding parse_line block_contains split_line pipe_cmd_create
  parse_line-Ends zero before buf enough = absurd (omega arith)
  parse_line-Ends (suc fuel) before [] enough = value (omega arith)
  parse_line-Ends (suc fuel) before (c ∷ cs) enough =
      let shorter = length-split_line bar c cs in
      let shorter' = length-left bar (c ∷ cs) in
      let (left, right) = split_line (c ∷ cs) bar in
      Ends-bind (BeyondLine before (c ∷ cs))
        (option-Ends (BeyondLine before (c ∷ cs)) FitsAll (block_contains right bar)
          (λ last.
            Ends-weaken (Beyond (some space) right)
              (λ why. elim why [ inl long ↦ inl (omega arith) | inr (unread, _) ↦ absurd cc ])
              (parse_cmd-Ends (some space) right))
          (λ i more.
            Ends-weaken (BeyondLine (some space) right)
              (λ why. elim why [ inl long ↦ inl (omega arith) | inr (unread, _) ↦ absurd cc ])
              (parse_line-Ends fuel (some space) right (omega arith))))
        (λ r fits_r.
          Ends-bind (BeyondLine before (c ∷ cs))
            (Ends-weaken (Beyond before left)
              (λ why. elim why [ inl long ↦ inl (omega arith) | inr first ↦ inr first ])
              (parse_cmd-Ends before left))
            (λ l fits_l. value (pipe_cmd_create-FitsAll l r fits_l fits_r)))
