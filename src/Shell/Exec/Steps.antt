-- ===== src/Shell/Exec/Steps.antt =====
-- Steps of lab-shell/shell/exec.c by one process, whose descriptors are known before and after.
use sistemas_operativos.Base.{ℕ, ◌≡◌, refl, List, [], ◌∷◌, ◌++◌}
use sistemas_operativos.Posix.{Name, Text, Proc, execs, M, ◌>>◌, Outcome, returns, ends, continue}
use sistemas_operativos.Shell.Exec.Line.{Table}

-- The process `name` with these descriptors, which has waited for `waited`.
pub data At (name : Name) (waited : List Name) (fds : Table) : Proc → Type 0 where
  at :
      {calls : ℕ} {environ : List (Text × Text)}
      → At name waited fds
          (record { name = name; calls = calls; fds = fds; environ = environ; waited = waited })

-- The one process goes on, with these descriptors.
pub data Passes (name : Name) (waited : List Name) (fds : Table)
    : List (Outcome (Unit {0})) → Type 0 where
  passes : {q : Proc} → At name waited fds q → Passes name waited fds (returns tt q ∷ [])

-- The one process has become a program.
pub data Starts (argv : List Text) (name : Name) (fds : Table)
    : List (Outcome (Unit {0})) → Type 0 where
  starts :
      {q : Proc} {waited : List Name}
      → At name waited fds q
      → Starts argv name fds (ends (execs argv) q ∷ [])

abbrev pub Does : (F : Table) → M (Unit {0}) → (G : Table) → Type 0
Does F m G =
    (name : Name) (waited : List Name) (p : Proc) → At name waited F p → Passes name waited G (m p)

pub Passes-nil :
    {name : Name} {waited : List Name} {G : Table} {os : List (Outcome (Unit {0}))}
    → Passes name waited G os
    → Passes name waited G (os ++ [])
Passes-nil (passes a) = passes a

pub Starts-nil :
    {argv : List Text} {name : Name} {G : Table} {os : List (Outcome (Unit {0}))}
    → Starts argv name G os
    → Starts argv name G (os ++ [])
Starts-nil (starts a) = starts a

pub Passes-continue :
    (name : Name) (waited : List Name) (G H : Table) (n : M (Unit {0}))
    {os : List (Outcome (Unit {0}))}
    → Passes name waited G os
    → Does G n H
    → Passes name waited H (continue os (λ _. n))
Passes-continue name waited G H n (passes a) next = Passes-nil (next name waited _ a)

-- One step after another.
pub Does-then : (F G H : Table) (m n : M (Unit {0})) → Does F m G → Does G n H → Does F (m >> n) H
Does-then F G H m n first next name waited p a =
    Passes-continue name waited G H n (first name waited p a) next

pub Starts-continue :
    (argv : List Text) (name : Name) (waited : List Name) (G H : Table) (n : M (Unit {0}))
    {os : List (Outcome (Unit {0}))}
    → Passes name waited G os
    → ((p : Proc) → At name waited G p → Starts argv name H (n p))
    → Starts argv name H (continue os (λ _. n))
Starts-continue argv name waited G H n (passes a) next = Starts-nil (next _ a)

pub At-waited :
    {name : Name} {waited : List Name} {F : Table} {q : Proc}
    → At name waited F q
    → q.waited ≡ waited
At-waited at = refl

pub At-name :
    {name : Name} {waited : List Name} {F : Table} {q : Proc} → At name waited F q → q.name ≡ name
At-name at = refl

pub At-fds :
    {name : Name} {waited : List Name} {F : Table} {q : Proc} → At name waited F q → q.fds ≡ F
At-fds at = refl
