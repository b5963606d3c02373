-- ===== src/Shell/Run/Crash.antt =====
-- lab-shell/shell/runcmd.c on a command of which a part is NULL.
use mathlib.Core.Path.{subst}
use mathlib.Core.List.{append-nil}
use sistemas_operativos.Base.{
  length, ℕ, zero, suc, ◌+◌, Bool-cases, ◌≡◌, refl, ◌⊎◌, inl, inr, Bool, false, Option, none, some,
  List, [], ◌∷◌, ◌++◌,
}
use sistemas_operativos.Posix.{
  Name, Text, Proc, M, ◌>>=◌, ◌>>◌, done, leave, faults, execs, exits, waitpid, Outcome, returns,
  ends, continue, fork, Forked, fork_failed, in_child, in_parent,
}
use sistemas_operativos.Shell.State.{
  Cmd, no_cmd, execcmd, backcmd, pipecmd, pipe_cmd_create, split_line, bar,
}
use sistemas_operativos.Shell.Parsing.{
  Parse, parsed, out_of_bounds, out_of_fuel, parse_line, parse_cmd,
}
use sistemas_operativos.Shell.Parsing as Parsing
use sistemas_operativos.Shell.Exec.{exec_cmd, free_command}
use sistemas_operativos.Shell.Builtin.{
  Vars, its_a_common_cd_cmd, cd_argument, exit_shell, its_a_common_exit_cmd, its_a_common_pwd_cmd,
  cd, pwd, getenv_in,
}
use sistemas_operativos.Shell.Run.{put_status, wait_child, wait_for, run_parsed, run_cmd}

-- No process goes on.
abbrev pub NoneReturns : {A : Type 0} → List (Outcome A) → Type 0
NoneReturns [] = Unit
NoneReturns (returns a p ∷ os) = ⊥
NoneReturns (ends e p ∷ os) = NoneReturns os

NoneReturns-append :
    {A : Type 0} (xs ys : List (Outcome A))
    → NoneReturns xs
    → NoneReturns ys
    → NoneReturns (xs ++ ys)
NoneReturns-append [] ys hx hy = hy
NoneReturns-append (returns a p ∷ xs) ys hx hy = absurd hx
NoneReturns-append (ends e p ∷ xs) ys hx hy = NoneReturns-append xs ys hx hy

-- Nobody comes out of the first part.
NoneReturns-first :
    {A B : Type 0} (os : List (Outcome A)) (f : A → M B)
    → NoneReturns os
    → NoneReturns (continue os f)
NoneReturns-first [] f h = tt
NoneReturns-first (returns a p ∷ os) f h = absurd h
NoneReturns-first (ends e p ∷ os) f h = NoneReturns-first os f h

-- Nobody comes out of the second part.
NoneReturns-second :
    {A B : Type 0} (os : List (Outcome A)) (f : A → M B)
    → ((a : A) (p : Proc) → NoneReturns (f a p))
    → NoneReturns (continue os f)
NoneReturns-second [] f h = tt
NoneReturns-second (returns a p ∷ os) f h =
    NoneReturns-append (f a p) (continue os f) (h a p) (NoneReturns-second os f h)
NoneReturns-second (ends e p ∷ os) f h = NoneReturns-second os f h

-- The process of this name reads through NULL.
abbrev pub OwnFault : {A : Type 0} → Name → List (Outcome A) → Type 0
OwnFault name [] = ⊥
OwnFault name (returns a p ∷ os) = OwnFault name os
OwnFault name (ends (execs argv) p ∷ os) = OwnFault name os
OwnFault name (ends (exits status) p ∷ os) = OwnFault name os
OwnFault name (ends faults p ∷ os) = (p.name ≡ name) ⊎ OwnFault name os

OwnFault-append :
    {A : Type 0} (name : Name) (xs ys : List (Outcome A))
    → OwnFault name ys
    → OwnFault name (xs ++ ys)
OwnFault-append name [] ys c = c
OwnFault-append name (returns a p ∷ xs) ys c = OwnFault-append name xs ys c
OwnFault-append name (ends (execs argv) p ∷ xs) ys c = OwnFault-append name xs ys c
OwnFault-append name (ends (exits status) p ∷ xs) ys c = OwnFault-append name xs ys c
OwnFault-append name (ends faults p ∷ xs) ys c = inr (OwnFault-append name xs ys c)

OwnFault-first :
    {A B : Type 0} (name : Name) (os : List (Outcome A)) (f : A → M B)
    → OwnFault name os
    → OwnFault name (continue os f)
OwnFault-first name [] f c = absurd c
OwnFault-first name (returns a p ∷ os) f c =
    OwnFault-append name (f a p) (continue os f) (OwnFault-first name os f c)
OwnFault-first name (ends (execs argv) p ∷ os) f c = OwnFault-first name os f c
OwnFault-first name (ends (exits status) p ∷ os) f c = OwnFault-first name os f c
OwnFault-first name (ends faults p ∷ os) f (inl own) = inl own
OwnFault-first name (ends faults p ∷ os) f (inr c) = inr (OwnFault-first name os f c)

-- A part of the command is NULL.
abbrev pub HasNull : Cmd → Type 0
HasNull no_cmd = Unit
HasNull (execcmd e) = ⊥
HasNull (backcmd e) = ⊥
HasNull (pipecmd l r) = HasNull l ⊎ HasNull r

free_command-crashes : (c : Cmd) → HasNull c → (p : Proc) → NoneReturns (free_command c p)
unfolding free_command
free_command-crashes no_cmd null p = tt
free_command-crashes (execcmd e) null p = absurd null
free_command-crashes (backcmd e) null p = absurd null
free_command-crashes (pipecmd l r) (inl null) p =
    NoneReturns-first (free_command l p) (λ _. free_command r) (free_command-crashes l null p)
free_command-crashes (pipecmd l r) (inr null) p =
    NoneReturns-second (free_command l p) (λ _. free_command r)
      (λ _ q. free_command-crashes r null q)

free_command-ends :
    (c : Cmd) (p : Proc)
    → (free_command c p ≡ returns tt p ∷ []) ⊎ (free_command c p ≡ ends faults p ∷ [])
unfolding free_command
free_command-ends no_cmd p = inr refl
free_command-ends (execcmd e) p = inl refl
free_command-ends (backcmd e) p = inl refl
free_command-ends (pipecmd l r) p = elim (free_command-ends l p) [
  | inl on ↦ elim (free_command-ends r p) [
    | inl both ↦ inl (rw (on, both) refl)
    | inr crash ↦ inr (rw (on, crash) refl)
  ]
  | inr crash ↦ inr (rw (crash) refl)
]

free_command-faults : (c : Cmd) → HasNull c → (p : Proc) → free_command c p ≡ ends faults p ∷ []
unfolding free_command
free_command-faults no_cmd null p = refl
free_command-faults (execcmd e) null p = absurd null
free_command-faults (backcmd e) null p = absurd null
free_command-faults (pipecmd l r) (inl null) p = rw (free_command-faults l null p) refl
free_command-faults (pipecmd l r) (inr null) p = elim (free_command-ends l p) [
  | inl on ↦ rw (on, free_command-faults r null p) refl
  | inr crash ↦ rw (crash) refl
]

pipe_cmd_create-HasNull : (r : Cmd) → HasNull (pipe_cmd_create no_cmd r)
unfolding pipe_cmd_create
pipe_cmd_create-HasNull no_cmd = tt
pipe_cmd_create-HasNull (execcmd e) = inl tt
pipe_cmd_create-HasNull (backcmd e) = inl tt
pipe_cmd_create-HasNull (pipecmd a b) = inl tt

-- The parser gives a command with a part that is NULL, or nothing.
abbrev Nulls : Parse Cmd → Type 0
Nulls (parsed c) = HasNull c
Nulls out_of_bounds = Unit
Nulls out_of_fuel = Unit

Nulls-created : (r : Parse Cmd) → Nulls (Parsing.◌>>=◌ r (λ c. parsed (pipe_cmd_create no_cmd c)))
Nulls-created (parsed c) = pipe_cmd_create-HasNull c
Nulls-created out_of_bounds = tt
Nulls-created out_of_fuel = tt

parse_line-Nulls :
    (getenv : Text → Option Text) (status_text : Text) (fuel : ℕ) (before : Option ℕ) (cs : Text)
    → Nulls (parse_line getenv status_text fuel before (bar ∷ cs))
unfolding parse_line split_line parse_cmd
parse_line-Nulls getenv status_text zero before cs = tt
parse_line-Nulls getenv status_text (suc fuel) before cs = Nulls-created _

cd_argument-bar : (cs : Text) → cd_argument (bar ∷ cs) ≡ none
unfolding cd_argument
cd_argument-bar [] = refl
cd_argument-bar (d ∷ []) = refl
cd_argument-bar (d ∷ s ∷ rest) = refl

not_exit : (cs : Text) → exit_shell (bar ∷ cs) ≡ false
unfolding exit_shell its_a_common_exit_cmd
not_exit cs = refl

not_cd : (cs : Text) → its_a_common_cd_cmd (bar ∷ cs) ≡ false
unfolding its_a_common_cd_cmd
not_cd cs = refl

not_pwd : (cs : Text) → its_a_common_pwd_cmd (bar ∷ cs) ≡ false
unfolding its_a_common_pwd_cmd
not_pwd cs = refl

module _ (refuses : Name → ℕ → Bool) (resolve : Text → Text → Text) (status_text : ℕ → Text)
    (reaped : Option ℕ) (status_of : Name → Option ℕ) where
  wait_for-crashes :
      (c : Cmd) (child : Option Name) (v : Vars) (p : Proc)
      → HasNull c
      → NoneReturns (wait_for refuses resolve status_text reaped status_of c child v p)
  unfolding wait_for
  wait_for-crashes no_cmd child v p null = tt
  wait_for-crashes (execcmd e) child v p null = absurd null
  wait_for-crashes (backcmd e) child v p null = absurd null
  wait_for-crashes (pipecmd l r) child v p null =
      NoneReturns-second
        (wait_child refuses resolve status_text reaped status_of (pipecmd l r) child
          (put_status reaped v) p)
        (λ w. free_command (pipecmd l r) >> done w)
        (λ w q.
          NoneReturns-first (free_command (pipecmd l r) q) (λ _. done w)
            (free_command-crashes (pipecmd l r) null q))

  run_parsed-crashes :
      (c : Cmd) (v : Vars) (p : Proc)
      → HasNull c
      → NoneReturns (run_parsed refuses resolve status_text reaped status_of c v p)
  unfolding run_parsed
  run_parsed-crashes c v p null = NoneReturns-second (fork refuses p) _ each
    where
      each :
          (forked : Forked) (q : Proc)
          → NoneReturns (
              (elim forked as (λ _. M Vars) [
                | fork_failed ↦ wait_for refuses resolve status_text reaped status_of c none v
                | in_child ↦
                    exec_cmd refuses c c
                    >> wait_for refuses resolve status_text reaped status_of c none v
                | in_parent child ↦
                    wait_for refuses resolve status_text reaped status_of c (some child) v
              ])
                q)
      each fork_failed q = wait_for-crashes c none v q null
      each in_child q =
          NoneReturns-second (exec_cmd refuses c c q) _ (λ _ q'. wait_for-crashes c none v q' null)
      each (in_parent child) q = wait_for-crashes c (some child) v q null

  -- The shell's own process reads through NULL where it frees the command.
  wait_for-faults :
      (c : Cmd) (child : Option Name) (v : Vars) (p : Proc)
      → HasNull c
      → (q : Proc) × (q.name ≡ p.name)
        × (wait_for refuses resolve status_text reaped status_of c child v p ≡ ends faults q ∷ [])
  unfolding wait_for wait_child waitpid
  wait_for-faults no_cmd child v p null = (p, refl, refl)
  wait_for-faults (execcmd e) child v p null = absurd null
  wait_for-faults (backcmd e) child v p null = absurd null
  wait_for-faults (pipecmd l r) none v p null =
      (p, refl, rw (free_command-faults (pipecmd l r) null p) refl)
  wait_for-faults (pipecmd l r) (some child) v p null =
      let q : Proc = record p { waited = child ∷ p.waited } in
      (q, refl, rw (free_command-faults (pipecmd l r) null q) refl)

  run_parsed-faults :
      (c : Cmd) (v : Vars) (p : Proc)
      → HasNull c
      → OwnFault p.name (run_parsed refuses resolve status_text reaped status_of c v p)
  unfolding run_parsed fork
  run_parsed-faults c v p null = elim (Bool-cases (refuses p.name p.calls)) [
    | inl failed ↦
        let (q, own, e) = wait_for-faults c none v (record p { calls = p.calls + 1 }) null in
        rw (failed, e) (inl own)
    | inr made ↦
        let (q, own, e) =
          wait_for-faults c (some (p.calls ∷ p.name)) v (record p { calls = p.calls + 1 }) null in
        rw (made, e)
          (OwnFault-append {A = Vars} p.name
            ((exec_cmd refuses c c
                >> wait_for refuses resolve status_text reaped status_of c none v)
              (record p { name = p.calls ∷ p.name; calls = 0; waited = [] }))
            (ends faults q ∷ []) (inl own))
  ]

  -- No process goes on.
  run_cmd-NoneReturns :
      (cs : Text) (v : Vars) (p : Proc)
      → NoneReturns (run_cmd refuses resolve status_text reaped status_of (bar ∷ cs) v p)
  unfolding run_cmd cd pwd
  run_cmd-NoneReturns cs v p =
      rw (not_cd cs, cd_argument-bar cs, not_exit cs, not_pwd cs)
        (simp append-nil (
          ran _
            (parse_line-Nulls (λ key. getenv_in key p.environ) (status_text v.status) _ none cs)))
    where
      ran :
          (r : Parse Cmd)
          → Nulls r
          → NoneReturns {A = Bool × Vars} (elim r as (λ _. List (Outcome (Bool × Vars))) [
            | parsed cmd ↦
                (run_parsed refuses resolve status_text reaped status_of cmd v >>= λ v'.
                done (false, v'))
                  p
            | out_of_bounds ↦ leave faults p
            | out_of_fuel ↦ leave faults p
          ])
      ran (parsed cmd) null =
          NoneReturns-first (run_parsed refuses resolve status_text reaped status_of cmd v p) _
            (run_parsed-crashes cmd v p null)
      ran out_of_bounds null = tt
      ran out_of_fuel null = tt

  -- The shell's own process crashes.
  run_cmd-faults :
      (cs : Text) (v : Vars) (p : Proc)
      → OwnFault p.name (run_cmd refuses resolve status_text reaped status_of (bar ∷ cs) v p)
  unfolding run_cmd cd pwd
  run_cmd-faults cs v p =
      rw (not_cd cs, cd_argument-bar cs, not_exit cs, not_pwd cs)
        (simp append-nil (
          ran _
            (parse_line-Nulls (λ key. getenv_in key p.environ) (status_text v.status) _ none cs)))
    where
      ran :
          (r : Parse Cmd)
          → Nulls r
          → OwnFault {A = Bool × Vars} p.name (elim r as (λ _. List (Outcome (Bool × Vars))) [
            | parsed cmd ↦
                (run_parsed refuses resolve status_text reaped status_of cmd v >>= λ v'.
                done (false, v'))
                  p
            | out_of_bounds ↦ leave faults p
            | out_of_fuel ↦ leave faults p
          ])
      ran (parsed cmd) null =
          OwnFault-first p.name (run_parsed refuses resolve status_text reaped status_of cmd v p) _
            (run_parsed-faults cmd v p null)
      ran out_of_bounds null = inl refl
      ran out_of_fuel null = inl refl

  -- On a line that starts with `|`, whatever calls are refused: a command that the line parses to has a part
  -- that is NULL, run_cmd goes on in no process, and the shell's own process reads through NULL, or outside
  -- its arrays where the parse already does.
  pub run_cmd-crashes :
      (cs : Text) (v : Vars) (p : Proc)
      → ((c : Cmd)
          → parse_line
              (λ key. getenv_in key p.environ)
              (status_text v.status)
              (length (bar ∷ cs) + 1)
              none
              (bar ∷ cs)
            ≡ parsed c
          → HasNull c)
        × NoneReturns (run_cmd refuses resolve status_text reaped status_of (bar ∷ cs) v p)
        × OwnFault p.name (run_cmd refuses resolve status_text reaped status_of (bar ∷ cs) v p)
  run_cmd-crashes cs v p = (
    λ c e. subst Nulls e (
        parse_line-Nulls (λ key. getenv_in key p.environ) (status_text v.status)
          (length (bar ∷ cs) + 1) none cs),
    run_cmd-NoneReturns cs v p,
    run_cmd-faults cs v p,
  )
