-- ===== src/Posix.antt =====
-- The processes of lab-shell/shell and lab-fork/fork and the calls of the system that they make: descriptors,
-- pipes, fork, exec and the environment, as POSIX describes them.
pub mod Runs
use sistemas_operativos.Base.{
  ℕ, zero, suc, ◌+◌, Bool, true, false, not, ◌&&◌, Option, none, some, List, [], ◌∷◌, ◌++◌, ◌==◌,
  if◌then◌else◌,
}

-- A process, and with it each pipe, is named by the number of the call that made it, before the name of the
-- process that made the call: no two have one name.
abbrev pub Name : Type 0
Name = List ℕ

abbrev pub Text : Type 0
Text = List ℕ

-- The flags of `open` that the programs use.
pub record OpenFlags : Type 0 where
  pub creates : Bool
  pub truncates : Bool
  pub writes : Bool

-- What a descriptor stands for; `inherited` is what the program had at its start.
pub data File : Type 0 where
  inherited : ℕ → File
  read_end : (pipe : Name) → File
  write_end : (pipe : Name) → File
  opened : (path : Text) → OpenFlags → (mode : ℕ) → File

-- The table of descriptors has place `fd` for descriptor `fd`; `calls` numbers the calls of the process.
pub record Proc : Type 0 where
  pub name : Name
  pub calls : ℕ
  pub fds : List (Option File)
  pub environ : List (Text × Text)
  pub waited : List Name

-- How a process leaves the program: it becomes another one, it exits, or it reads through NULL.
pub data End : Type 0 where
  execs : (argv : List Text) → End
  exits : (status : ℕ) → End
  faults : End

pub data Outcome (A : Type 0) : Type 0 where
  returns : A → Proc → Outcome A
  ends : End → Proc → Outcome A

-- A function of the program gives an outcome for each process that has left it: after a fork there are two.
-- Their order is not that in time.
abbrev pub M : Type 0 → Type 0
M A = Proc → List (Outcome A)

abbrev pub continue : {A B : Type 0} → List (Outcome A) → (A → M B) → List (Outcome B)
continue [] f = []
continue (returns a p ∷ os) f = f a p ++ continue os f
continue (ends e p ∷ os) f = ends e p ∷ continue os f

infixl 5 ◌>>=◌ ◌>>◌
abbrev pub ◌>>=◌ : {A B : Type 0} → M A → (A → M B) → M B
◌>>=◌ m f p = continue (m p) f

abbrev pub ◌>>◌ : {A B : Type 0} → M A → M B → M B
m >> k = m >>= λ _. k

abbrev pub done : {A : Type 0} → A → M A
done a p = returns a p ∷ []

abbrev pub leave : {A : Type 0} → End → M A
leave e p = ends e p ∷ []

-- A table holds no places behind its last descriptor.
abbrev pub place : Option File → List (Option File) → List (Option File)
place none [] = []
place none (x ∷ xs) = none ∷ x ∷ xs
place (some f) xs = some f ∷ xs

abbrev pub get_fd : List (Option File) → ℕ → Option File
get_fd [] fd = none
get_fd (x ∷ xs) zero = x
get_fd (x ∷ xs) (suc fd) = get_fd xs fd

abbrev pub set_fd : (fd : ℕ) → Option File → List (Option File) → List (Option File)
set_fd zero f [] = place f []
set_fd zero f (x ∷ xs) = place f xs
set_fd (suc fd) f [] = place none (set_fd fd f [])
set_fd (suc fd) f (x ∷ xs) = place x (set_fd fd f xs)

abbrev pub lowest_free : List (Option File) → ℕ
lowest_free [] = 0
lowest_free (none ∷ xs) = 0
lowest_free (some f ∷ xs) = suc (lowest_free xs)

-- What `fork` returns.
pub data Forked : Type 0 where
  fork_failed : Forked
  in_child : Forked
  in_parent : (child : Name) → Forked

abbrev pub put_fd : (fd : ℕ) → Option File → Proc → Proc
put_fd fd f p = record p { fds = set_fd fd f p.fds }

-- `close`, whose result no caller reads.
unfoldable pub close : (fd : ℕ) → M (Unit {0})
close fd p = done tt (put_fd fd none p)

-- `waitpid` for a child; the calls give no status here.
unfoldable pub waitpid : (child : Name) → M (Unit {0})
waitpid child p = done tt (record p { waited = child ∷ p.waited })

abbrev pub setenv_in : (key value : Text) → List (Text × Text) → List (Text × Text)
setenv_in key value environ = (key, value) ∷ environ

-- `refuses name n` is that call number `n` of the process fails.
module _ (refuses : Name → ℕ → Bool) where
  -- Whether the call that is made is refused.
  abbrev pub refused : M Bool
  refused p = done (refuses p.name p.calls) (record p { calls = p.calls + 1 })

  -- The two ends, at the lowest free places.
  unfoldable pub pipe : M (Option (ℕ × ℕ))
  pipe p =
      let made = p.calls ∷ p.name in
      let r = lowest_free p.fds in
      let p₁ = put_fd r (some (read_end made)) p in
      let w = lowest_free p₁.fds in
      (refused >>= λ no. if no then done none else λ q.
      done (some (r, w)) (record q { fds = set_fd w (some (write_end made)) p₁.fds }))
        p

  -- The child has the descriptors and the environment of its parent, and has waited for nobody.
  unfoldable pub fork : M Forked
  fork p =
      let child = p.calls ∷ p.name in
      (refused >>= λ no. if no then done fork_failed else λ q.
      returns in_child (record q { name = child; calls = 0; waited = [] })
      ∷ returns (in_parent child) q
      ∷ [])
        p

  -- -1, as `none`, also for an old descriptor that is not open.
  unfoldable pub dup2 : (old new : ℕ) → M (Option ℕ)
  dup2 old new p =
      (refused >>= λ no. if no then done none else elim (get_fd p.fds old) [
        | none ↦ done none
        | some f ↦ λ q. done (some new) (put_fd new (some f) q)
      ])
        p

  unfoldable pub open_file : (path : Text) → OpenFlags → (mode : ℕ) → M (Option ℕ)
  open_file path flags mode p =
      let fd = lowest_free p.fds in
      (refused >>= λ no.
      if no then done none else λ q. done (some fd) (put_fd fd (some (opened path flags mode)) q))
        p

  -- It does not return where it succeeds. Without a program's name it reads through NULL.
  unfoldable pub execvp : (argv : List Text) → M (Unit {0})
  execvp [] = leave faults
  execvp (prog ∷ args) = refused >>= λ no. if no then done tt else leave (execs (prog ∷ args))

  unfoldable pub setenv : (key value : Text) → M Bool
  setenv key value = refused >>= λ no. if no then done false else λ p.
      done true (record p { environ = setenv_in key value p.environ })
