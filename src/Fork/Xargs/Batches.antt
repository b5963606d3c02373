-- ===== src/Fork/Xargs/Batches.antt =====
-- lab-fork/fork/xargs.c: which commands are run.
use mathlib.Core.Path.{subst}
use mathlib.Core.List.{append-nil, append_assoc, map}
use sistemas_operativos.Base.{
  ℕ, ◌+◌, ◌≤◌, ◌<◌, ◌≡◌, ◌≢◌, ◌⊎◌, refl, sym, ap, ◌∙◌, inl, inr, Bool, true, false, List, [], ◌∷◌,
  ◌++◌, ◌==◌, length, length-append, Bool-cases, ==→eq, arith,
}
use sistemas_operativos.Posix.{Name, Text, Proc, execs, Outcome, returns, ends, fork, execvp}
use sistemas_operativos.Fork.Xargs.{
  nargs, replace_newline_to_null, stored_enough_args_for_execution, execute_command_with_args,
  execute_rest, collect_from, collect_all_args_and_execute_commands,
}

-- One program for each batch, in order, and then the process returns OK_ID.
abbrev pub Ran : (command : Text) → (batches : List (List Text)) → List (Outcome Bool) → Type 0
Ran command [] os = (q : Proc) × (os ≡ returns true q ∷ [])
Ran command (b ∷ bs) os =
    (q : Proc) × (rest : List (Outcome Bool)) × (os ≡ ends (execs (command ∷ b)) q ∷ rest)
    × Ran command bs rest

abbrev pub concat : List (List Text) → List Text
concat [] = []
concat (b ∷ bs) = b ++ concat bs

-- The last character is no newline.
abbrev pub EndsPlain : Text → Type 0
EndsPlain [] = Unit
EndsPlain (c ∷ []) = c ≢ 10
EndsPlain (c ∷ d ∷ cs) = EndsPlain (d ∷ cs)

-- The argument is the line, less the newline at its end where it has one.
abbrev pub IsArgument : (line arg : Text) → Type 0
IsArgument line arg = (line ≡ arg ++ 10 ∷ []) ⊎ ((line ≡ arg) × EndsPlain line)

-- The arguments of the lines, in order.
abbrev pub Arguments : (lines args : List Text) → Type 0
Arguments [] [] = Unit
Arguments [] (arg ∷ args) = ⊥
Arguments (line ∷ lines) [] = ⊥
Arguments (line ∷ lines) (arg ∷ args) = IsArgument line arg × Arguments lines args

replace-IsArgument : (line : Text) → IsArgument line (replace_newline_to_null line)
unfolding replace_newline_to_null
replace-IsArgument [] = inr (refl, tt)
replace-IsArgument (c ∷ []) = elim (Bool-cases (c == 10)) [
  | inl newline ↦ rw (newline) (inl (ap (λ (x : ℕ). x ∷ []) (==→eq c 10 newline)))
  | inr other ↦ rw (other) (inr (refl, λ e. ground arith))
]
replace-IsArgument (c ∷ d ∷ cs) = elim (replace-IsArgument (d ∷ cs)) [
  | inl cut ↦ inl (ap (λ xs. c ∷ xs) cut)
  | inr (same, plain) ↦ inr (ap (λ xs. c ∷ xs) same, plain)
]

map-Arguments : (lines : List Text) → Arguments lines (map replace_newline_to_null lines)
map-Arguments [] = tt
map-Arguments (line ∷ lines) = (replace-IsArgument line, map-Arguments lines)

-- Each batch has NARGS arguments, the last one at least one.
abbrev pub Sized : List (List Text) → Type 0
Sized [] = Unit
Sized (b ∷ []) = (1 ≤ length b) × (length b ≤ nargs)
Sized (b ∷ b' ∷ bs) = (length b ≡ nargs) × Sized (b' ∷ bs)

Sized-cons : (b : List Text) (bs : List (List Text)) → length b ≡ nargs → Sized bs → Sized (b ∷ bs)
Sized-cons b [] full sized = (omega arith, omega arith)
Sized-cons b (b' ∷ bs) full sized = (full, sized)

-- What the lines that are left come to, with what is stored.
abbrev Batched :
    (command : Text) → (stored : List Text) → (lines : List Text) → List (Outcome Bool) → Type 0
Batched command stored lines os =
    (bs : List (List Text)) × Ran command bs os
    × (concat bs ≡ stored ++ map replace_newline_to_null lines)
    × Sized bs

module _ (refuses : Name → ℕ → Bool)
    (allowed : (name : Name) (n : ℕ) → refuses name n ≡ false) where
  execute-eq :
      (args : List Text) (command : Text) (p : Proc)
      → (pc : Proc) × (pp : Proc) × (execute_command_with_args refuses args command p
          ≡ ends (execs (command ∷ args)) pc ∷ returns true pp ∷ [])
  unfolding execute_command_with_args fork execvp
  execute-eq args command p =
      let pc : Proc = record p { name = p.calls ∷ p.name; calls = 0 + 1; waited = [] } in
      let pp : Proc = record p { calls = p.calls + 1 + 1 } in
      (
        pc,
        pp,
        rw (allowed p.name p.calls, allowed (p.calls ∷ p.name) 0, allowed p.name (p.calls + 1))
            refl,
      )

  collect_from-Batched :
      (stored : List Text) (command : Text) (lines : List Text)
      → length stored < nargs
      → (p : Proc) → Batched command stored lines (collect_from refuses stored command lines p)
  unfolding collect_from execute_rest stored_enough_args_for_execution
  collect_from-Batched [] command [] room p = ([], (p, refl), refl, tt)
  collect_from-Batched (a ∷ args) command [] room p =
      let (pc, pp, eq) = execute-eq (a ∷ args) command p in
      (
        (a ∷ args) ∷ [],
        (pc, returns true pp ∷ [], eq, (pp, refl)),
        refl,
        (omega arith, omega arith),
      )
  collect_from-Batched stored command (line ∷ lines) room p =
      let stored' = stored ++ replace_newline_to_null line ∷ [] in
      let long = length-append stored (replace_newline_to_null line ∷ []) in
      elim (Bool-cases (length stored' == nargs)) [
        | inl full ↦
            (let (pc, pp, eq) = execute-eq stored' command p in
              let (bs, ran, all, sized) = collect_from-Batched [] command lines (omega arith) pp in
              (
                stored' ∷ bs,
                (
                  pc,
                  collect_from refuses [] command lines pp,
                  rw (full, eq) (simp append-nil refl),
                  ran,
                ),
                ap (λ xs. stored' ++ xs) all
                    ∙ append_assoc stored (replace_newline_to_null line ∷ [])
                        (map replace_newline_to_null lines),
                Sized-cons stored' bs (==→eq (length stored') nargs full) sized,
              ))
        | inr more ↦
            (let (bs, ran, all, sized) =
                collect_from-Batched stored' command lines (ground arith) p in
              (
                bs,
                rw more ran,
                all
                    ∙ append_assoc stored (replace_newline_to_null line ∷ [])
                        (map replace_newline_to_null lines),
                sized,
              ))
      ]

  -- Where no call is refused, xargs runs the command once for each batch of lines, in order, and then returns
  -- OK_ID: the batches are the lines in order, each without the newline at its end, if it has one, and each has NARGS of them but the
  -- last, which has one at least.
  pub collect-Batched :
      (command : Text) (lines : List Text) (p : Proc)
      → (bs : List (List Text)) × Ran command bs
          (collect_all_args_and_execute_commands refuses command lines p)
        × Arguments lines (concat bs)
        × Sized bs
  unfolding collect_all_args_and_execute_commands
  collect-Batched command lines p =
      let (bs, ran, all, sized) = collect_from-Batched [] command lines (omega arith) p in
      (bs, ran, subst (Arguments lines) (sym all) (map-Arguments lines), sized)
