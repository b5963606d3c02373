-- ===== src/Shell/Exec/Line.antt =====
-- What the programs of a line of lab-shell/shell are to be started with.
use sistemas_operativos.Base.{
  ◌≡◌, true, false, Option, some, List, [], ◌∷◌, ◌++◌, if◌then◌else◌, ltb, length,
}
use sistemas_operativos.Posix.{
  Name, Text, File, read_end, write_end, opened, Proc, execs, exits, Outcome, returns, ends,
}
use sistemas_operativos.Shell.State.{ExecCmd, Cmd, no_cmd, execcmd, backcmd, pipecmd}
use sistemas_operativos.Shell.Exec.{user_mode, is_stdout_name}

abbrev pub Table : Type 0
Table = List (Option File)

abbrev pub std : (i o e : File) → Table
std i o e = some i ∷ some o ∷ some e ∷ []

abbrev pub new_output : Text → File
new_output file = opened file (record { creates = true; truncates = true; writes = true }) user_mode

abbrev pub new_error : Text → File
new_error file = opened file (record { creates = true; truncates = false; writes = true }) user_mode

abbrev pub input : Text → File
input file = opened file (record { creates = false; truncates = false; writes = false }) 0

-- The output of a command between `i` and `o`.
abbrev pub output_of : ExecCmd → (o : File) → File
output_of c o = if ltb 0 (length c.out_file) then new_output c.out_file else o

abbrev pub input_of : ExecCmd → (i : File) → File
input_of c i = if ltb 0 (length c.in_file) then input c.in_file else i

-- `2>&1` is the output after its own redirection.
abbrev pub error_of : ExecCmd → (o e : File) → File
error_of c o e =
    if ltb 0 (length c.err_file)
    then (if is_stdout_name c.err_file then output_of c o else new_error c.err_file)
    else e

abbrev pub redirected : ExecCmd → (i o e : File) → Table
redirected c i o e =
    if c.redirects then std (input_of c i) (output_of c o) (error_of c o e) else std i o e

abbrev pub process : Outcome (Unit {0}) → Proc
process (returns a p) = p
process (ends e p) = p

-- The name of the process whose outcome is the last.
abbrev pub leader : List (Outcome (Unit {0})) → Name
leader [] = []
leader (o ∷ []) = (process o).name
leader (o ∷ o' ∷ os) = leader (o' ∷ os)

-- A command has become its program, with its redirections in place.
abbrev pub Started : ExecCmd → (i o e : File) → List (Outcome (Unit {0})) → Type 0
Started c i o e os = (q : Proc) × (os ≡ ends (execs c.argv) q ∷ []) × (q.fds ≡ redirected c i o e)

-- The processes of a line between the files `i`, `o` and `e`: each `|` has a pipe, that the left side writes
-- and the right side reads, and a process that exits with 0 after it has waited for both sides.
abbrev pub Wired : Cmd → (i o e : File) → List (Outcome (Unit {0})) → Type 0
Wired no_cmd i o e os = ⊥
Wired (execcmd c) i o e os = Started c i o e os
Wired (backcmd c) i o e os = Started c i o e os
Wired (pipecmd l r) i o e os =
    (k : Name) × (xs : List (Outcome (Unit {0}))) × (ys : List (Outcome (Unit {0}))) × (q : Proc)
    × (os ≡ xs ++ (ys ++ ends (exits 0) q ∷ []))
    × (q.waited ≡ leader ys ∷ leader xs ∷ [])
    × Wired l i (write_end k) e xs
    × Wired r (read_end k) o e ys

-- With the two ends of a pipe behind.
abbrev pub piped : (i o e : File) → (k : Name) → Table
piped i o e k = some i ∷ some o ∷ some e ∷ some (read_end k) ∷ some (write_end k) ∷ []
