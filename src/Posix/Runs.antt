-- ===== src/Posix/Runs.antt =====
-- What holds of every outcome of a function that forks.
use sistemas_operativos.Base.{List, [], ◌∷◌, ◌++◌}
use sistemas_operativos.Posix.{Proc, End, Outcome, returns, ends, M, continue, ◌>>=◌}

-- `Q` holds where a process returns from the function, `E` where it leaves the program.
abbrev pub Post : {A : Type 0} → (A → Proc → Type 0) → (End → Proc → Type 0) → Outcome A → Type 0
Post Q E (returns a p) = Q a p
Post Q E (ends e p) = E e p

abbrev pub Each : {A : Type 0} → (Outcome A → Type 0) → List (Outcome A) → Type 0
Each P [] = Unit
Each P (o ∷ os) = P o × Each P os

pub Each-append :
    {A : Type 0} (P : Outcome A → Type 0) (xs ys : List (Outcome A))
    → Each P xs
    → Each P ys
    → Each P (xs ++ ys)
Each-append P [] ys hx hy = hy
Each-append P (x ∷ xs) ys (h, hx) hy = (h, Each-append P xs ys hx hy)

-- From a process with `P`, every outcome is as said.
abbrev pub Runs :
    {A : Type 0}
    → (E : End → Proc → Type 0) → (P : Proc → Type 0) → (m : M A) → (Q : A → Proc → Type 0) → Type 0
Runs E P m Q = (p : Proc) → P p → Each (Post Q E) (m p)

module _ {A B : Type 0} (E : End → Proc → Type 0) (Q : A → Proc → Type 0)
    (R : B → Proc → Type 0) where
  pub Each-continue :
      (f : A → M B) (os : List (Outcome A))
      → ((a : A) → Runs E (Q a) (f a) R)
      → Each (Post Q E) os
      → Each (Post R E) (continue os f)
  Each-continue f [] next h = tt
  Each-continue f (returns a p ∷ os) next (h, hs) =
      Each-append (Post R E) (f a p) (continue os f) (next a p h) (Each-continue f os next hs)
  Each-continue f (ends e p ∷ os) next (h, hs) = (h, Each-continue f os next hs)

  pub Runs-bind :
      (P : Proc → Type 0) (m : M A) (f : A → M B)
      → Runs E P m Q
      → ((a : A) → Runs E (Q a) (f a) R)
      → Runs E P (m >>= f) R
  Runs-bind P m f first next p h = Each-continue f (m p) next (first p h)
