-- ===== src/Shell/Parsing/Outcome.antt =====
-- lab-shell/shell/parsing.c: how a parse may end, and one redirection or argument of it.
use sistemas_operativos.Base.{
  ℕ, ◌+◌, ◌≤◌, ◌<◌, Bool, true, false, Option, none, some, List, [], ◌∷◌, ◌≡◌, refl, if◌then◌else◌,
  length, length-append, ltb, ◌==◌, arith,
}
use sistemas_operativos.Shell.State.{
  ExecCmd, Cmd, no_cmd, execcmd, backcmd, pipecmd, pipe_cmd_create, block_contains,
}
use sistemas_operativos.Shell.Parsing.{
  Parse, parsed, out_of_bounds, ◌>>=◌, max_args, parse_redir_flow, add_arg,
}

-- The parser does not run out of fuel: it ends with a value that satisfies `P`, or for the reason `Beyond`.
pub data Ends {A : Type 0} (Beyond : Type 0) (P : A → Type 0) : Parse A → Type 0 where
  value : {a : A} → P a → Ends Beyond P (parsed a)
  stops : Beyond → Ends Beyond P out_of_bounds

pub Ends-bind :
    {A B : Type 0} {P : A → Type 0} {Q : B → Type 0} {r : Parse A} {f : A → Parse B}
    (Beyond : Type 0)
    → Ends Beyond P r
    → ((a : A) → P a → Ends Beyond Q (f a))
    → Ends Beyond Q (r >>= f)
Ends-bind Beyond (value p) next = next _ p
Ends-bind Beyond (stops why) next = stops why

pub Ends-weaken :
    {A : Type 0} {P : A → Type 0} {r : Parse A} (Beyond : Type 0) {Beyond' : Type 0}
    → (Beyond → Beyond')
    → Ends Beyond P r
    → Ends Beyond' P r
Ends-weaken Beyond weaken (value p) = value p
Ends-weaken Beyond weaken (stops why) = stops (weaken why)

-- `argv` has room for its arguments and NULL, and `eargv` for its variables.
abbrev pub Fits : ExecCmd → Type 0
Fits c = (length c.argv + 1 ≤ max_args) × (length c.eargv ≤ max_args)

-- Each command of the line fits.
abbrev pub FitsAll : Cmd → Type 0
FitsAll no_cmd = 0 ≤ 0
FitsAll (execcmd e) = Fits e
FitsAll (backcmd e) = Fits e
FitsAll (pipecmd l r) = FitsAll l × FitsAll r

-- The command fits, and with `left` characters to read, it stems from at most `total`.
abbrev pub FitsIn : (total left : ℕ) → ExecCmd → Type 0
FitsIn total left c =
    (length c.argv + 1 ≤ max_args)
    × (length c.eargv ≤ max_args)
    × (length c.argv + left ≤ total)
    × (length c.eargv + left ≤ total)

-- What holds of the value, if there is one.
abbrev pub OnSome : (P : ExecCmd → Type 0) → Option ExecCmd → Type 0
OnSome P none = 0 ≤ 0
OnSome P (some c) = P c

pub if-Ends :
    {A : Type 0} (Beyond : Type 0) (P : A → Type 0) (t : Bool) {x y : Parse A}
    → (t ≡ true → Ends Beyond P x)
    → (t ≡ false → Ends Beyond P y)
    → Ends Beyond P (if t then x else y)
if-Ends Beyond P true then_x else_y = then_x refl
if-Ends Beyond P false then_x else_y = else_y refl

pub option-Ends :
    {A : Type 0} (Beyond : Type 0) (P : A → Type 0) (o : Option ℕ) {x : Parse A} {f : ℕ → Parse A}
    → (o ≡ none → Ends Beyond P x)
    → ((i : ℕ) → o ≡ some i → Ends Beyond P (f i))
    → Ends Beyond P (elim o [ none ↦ x | some i ↦ f i ])
option-Ends Beyond P none of_none of_some = of_none refl
option-Ends Beyond P (some i) of_none of_some = of_some i refl

pub if-OnSome :
    (P : ExecCmd → Type 0) (t : Bool) (x y : Option ExecCmd)
    → OnSome P x
    → OnSome P y
    → OnSome P (if t then x else y)
if-OnSome P true x y then_x else_y = then_x
if-OnSome P false x y then_x else_y = else_y

pub option-OnSome :
    (P : ExecCmd → Type 0) (o : Option ℕ) (x : Option ExecCmd) (f : ℕ → Option ExecCmd)
    → OnSome P x
    → ((i : ℕ) → OnSome P (f i))
    → OnSome P (elim o [ none ↦ x | some i ↦ f i ])
option-OnSome P none x f of_none of_some = of_none
option-OnSome P (some i) x f of_none of_some = of_some i

pub ltb→lt : (a b : ℕ) → ltb a b ≡ true → a < b
ltb→lt a b h = ground arith

pub ltb→ge : (a b : ℕ) → ltb a b ≡ false → b ≤ a
ltb→ge a b h = ground arith

pub parse_redir_flow-FitsIn :
    (total left : ℕ) (c : ExecCmd) (arg : List ℕ)
    → FitsIn total left c
    → OnSome (FitsIn total left) (parse_redir_flow c arg)
unfolding parse_redir_flow
parse_redir_flow-FitsIn total left c arg fits =
    option-OnSome (FitsIn total left) (block_contains arg 62) _ _
      (option-OnSome (FitsIn total left) (block_contains arg 60) _ _ (omega arith) (λ i. fits))
      (λ i.
        if-OnSome (FitsIn total left) (i == 0) _ _ fits
          (if-OnSome (FitsIn total left) (i == 1) _ _ fits fits))

pub redirected-Ends :
    (Beyond : Type 0) (P : ExecCmd → Type 0) (o : Option ExecCmd) {otherwise : Parse ExecCmd}
    → OnSome P o
    → Ends Beyond P otherwise
    → Ends Beyond P (elim o [ some c ↦ parsed c | none ↦ otherwise ])
redirected-Ends Beyond P none fits ends = ends
redirected-Ends Beyond P (some c) fits ends = value fits

-- One character of the line pays for an argument.
pub add_arg-Ends :
    (total left : ℕ) (c : ExecCmd) (tok : List ℕ)
    → FitsIn total (left + 1) c
    → Ends (max_args ≤ total) (FitsIn total left) (add_arg c tok)
unfolding add_arg
add_arg-Ends total left c [] (args, vars, args_in, vars_in) =
    value (args, vars, omega arith, omega arith)
add_arg-Ends total left c (x ∷ xs) (args, vars, args_in, vars_in) =
    let one = length-append c.argv ((x ∷ xs) ∷ []) in
    if-Ends (max_args ≤ total) (FitsIn total left) (ltb (length c.argv + 1) max_args)
      (λ room.
        let room' = ltb→lt (length c.argv + 1) max_args room in
        value (omega arith, vars, omega arith, omega arith))
      (λ full. let full' = ltb→ge (length c.argv + 1) max_args full in stops (omega arith))

pub pipe_cmd_create-FitsAll : (l r : Cmd) → FitsAll l → FitsAll r → FitsAll (pipe_cmd_create l r)
unfolding pipe_cmd_create
pipe_cmd_create-FitsAll l no_cmd fl fr = fl
pipe_cmd_create-FitsAll l (execcmd e) fl fr = (fl, fr)
pipe_cmd_create-FitsAll l (backcmd e) fl fr = (fl, fr)
pipe_cmd_create-FitsAll l (pipecmd a b) fl fr = (fl, fr)
