-- ===== src/Shell/Exec/Ended.antt =====
-- Outcomes of lab-shell/shell/exec.c in which no process returns.
use mathlib.Core.List.{append_assoc}
use mathlib.Core.Path.{subst}
use sistemas_operativos.Base.{◌≡◌, refl, sym, ap, List, [], ◌∷◌, ◌++◌}
use sistemas_operativos.Posix.{Name, File, read_end, write_end, M, Outcome, returns, ends, continue}
use sistemas_operativos.Shell.State.{ExecCmd, Cmd, no_cmd, execcmd, backcmd, pipecmd}
use sistemas_operativos.Shell.Exec.Line.{redirected, process, leader, Started, Wired}
use sistemas_operativos.Shell.Exec.Steps.{Starts, at, starts}

-- No process returns.
abbrev pub Ended : List (Outcome (Unit {0})) → Type 0
Ended [] = Unit
Ended (returns a p ∷ os) = ⊥
Ended (ends e p ∷ os) = Ended os

pub Ended-append : (xs ys : List (Outcome (Unit {0}))) → Ended xs → Ended ys → Ended (xs ++ ys)
Ended-append [] ys hx hy = hy
Ended-append (returns a p ∷ xs) ys hx hy = absurd hx
Ended-append (ends e p ∷ xs) ys hx hy = Ended-append xs ys hx hy

pub continue-Ended :
    (xs ys : List (Outcome (Unit {0}))) (f : Unit {0} → M (Unit {0}))
    → Ended xs
    → continue (xs ++ ys) f ≡ xs ++ continue ys f
continue-Ended [] ys f h = refl
continue-Ended (returns a p ∷ xs) ys f h = absurd h
continue-Ended (ends e p ∷ xs) ys f h = ap (λ os. ends e p ∷ os) (continue-Ended xs ys f h)

pub leader-append :
    (xs : List (Outcome (Unit {0}))) (y : Outcome (Unit {0}))
    → leader (xs ++ y ∷ []) ≡ (process y).name
leader-append [] y = refl
leader-append (x ∷ []) y = refl
leader-append (x ∷ x' ∷ xs) y = leader-append (x' ∷ xs) y

pub leader-last :
    (xs ys : List (Outcome (Unit {0}))) (y : Outcome (Unit {0}))
    → leader (xs ++ (ys ++ y ∷ [])) ≡ (process y).name
leader-last xs ys y = rw (← append_assoc xs ys (y ∷ [])) (leader-append (xs ++ ys) y)

pub Wired-Ended :
    (c : Cmd) (i o e : File) (os : List (Outcome (Unit {0}))) → Wired c i o e os → Ended os
Wired-Ended no_cmd i o e os w = absurd w
Wired-Ended (execcmd c) i o e os (q, eq, _) = subst Ended (sym eq) tt
Wired-Ended (backcmd c) i o e os (q, eq, _) = subst Ended (sym eq) tt
Wired-Ended (pipecmd l r) i o e os (k, xs, ys, q, eq, _, wl, wr) = subst Ended (sym eq) (
    Ended-append xs _ (Wired-Ended l i (write_end k) e xs wl)
      (Ended-append ys _ (Wired-Ended r (read_end k) o e ys wr) tt))

-- The last outcome is that of the process that was to run the command.
abbrev pub WiredAs : Name → Cmd → (i o e : File) → List (Outcome (Unit {0})) → Type 0
WiredAs name c i o e os = Wired c i o e os × (leader os ≡ name)

pub Started-of :
    (c : ExecCmd) (name : Name) (i o e : File) {os : List (Outcome (Unit {0}))}
    → Starts c.argv name (redirected c i o e) os
    → Started c i o e os × (leader os ≡ name)
Started-of c name i o e (starts (at)) = ((_, refl, refl), refl)
