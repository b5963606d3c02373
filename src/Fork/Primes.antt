-- ===== src/Fork/Primes.antt =====
-- lab-fork/fork/primes.c. A pipe is the list of the numbers that are written to it until its write end is
-- closed. What is printed is a list of numbers, of all processes together.
pub mod Sieve
use sistemas_operativos.Base.{
  ℕ, zero, suc, ◌+◌, ◌-◌, ◌%◌, ◌^◌, Bool, true, false, not, ◌&&◌, ◌||◌, Option, none, some, List,
  [], ◌∷◌, ◌++◌, ◌==◌, ltb, if◌then◌else◌, length,
}

-- The calls that may fail; a number is that of the read or the write.
pub data Call : Type 0 where
  pipe fork wait : Call
  read write : ℕ → Call

-- Whether the function returned OK_ID, and what was printed meanwhile.
pub record Run : Type 0 where
  pub result : Bool
  pub printed : List ℕ

-- What is written to a pipe, and whether the writer returned OK_ID.
pub record Sent : Type 0 where
  pub stream : List ℕ
  pub result : Bool

-- INT_MAX
abbrev pub int_max : ℕ
int_max = 2 ^ 31 - 1

abbrev pub after : ℕ → Sent → Sent
after n sent = record sent { stream = n ∷ sent.stream }

-- What `printf` writes at once, and what it leaves in the buffer.
abbrev pub now : (full : Bool) → List ℕ → List ℕ
now full line = if full then [] else line

abbrev pub later : (full : Bool) → (buffer line : List ℕ) → List ℕ
later full buffer line = if full then buffer ++ line else []

-- `refuses stage call` is that the call fails in the process of this stage; the first is stage 0. Where `full` is
-- true, stdout is no terminal: a line stays in the buffer of the process, which a fork copies, and the buffer
-- is written where the process exits.
module _ (refuses : ℕ → Call → Bool) (full : Bool) where
  -- The loop from `i` on. `none` is that `i`, an int, overflows, or that the fuel is used up.
  unfoldable pub send_from : (fuel i max_number_required : ℕ) → Option Sent
  send_from zero i max = none
  send_from (suc fuel) i max =
      let rest = send_from fuel (i + 1) max in
      if ltb max i
      then some (record { stream = []; result = true })
      else if refuses 0 (write i)
      then some (record { stream = []; result = false })
      else if i == int_max
      then none
      else elim rest [ none ↦ none | some sent ↦ some (after i sent) ]

  -- The numbers from 2 to the one required.
  unfoldable pub handle_myself_as_absolute_parent : (max_number_required : ℕ) → Option Sent
  unfolding send_from
  handle_myself_as_absolute_parent max = send_from max 2 max

  -- `k` counts the reads.
  unfoldable pub forward_from : (stage k : ℕ) → (first_number_received : ℕ) → List ℕ → Sent
  forward_from stage k first [] = record { stream = []; result = not (refuses stage (read k)) }
  forward_from stage k first (n ∷ ns) =
      let rest = forward_from stage (k + 1) first ns in
      if refuses stage (read k)
      then record { stream = []; result = false }
      else if n % first == 0
      then rest
      else if refuses stage (write k)
      then record { stream = []; result = false }
      else after n rest

  unfoldable pub handle_myself_as_relative_parent :
      (stage : ℕ) → (first_number_received : ℕ) → List ℕ → Sent
  unfolding forward_from
  handle_myself_as_relative_parent stage first received = forward_from stage 1 first received

  -- The process of a stage, from its start to its exit, with the buffer that it has copied. Its child writes
  -- to the same output before the process has waited for it. `none` is that the fuel is used up.
  unfoldable pub handle_myself_as_relative_child :
      (fuel stage : ℕ) → (buffer : List ℕ) → List ℕ → Option Run
  unfolding handle_myself_as_relative_parent
  handle_myself_as_relative_child zero stage buffer received = none
  handle_myself_as_relative_child (suc fuel) stage buffer [] =
      some (record { result = not (refuses stage (read 0)); printed = buffer })
  handle_myself_as_relative_child (suc fuel) stage buffer (first ∷ received) =
      let mine = later full buffer (first ∷ []) in
      let sent = handle_myself_as_relative_parent stage first received in
      let child = handle_myself_as_relative_child fuel (stage + 1) mine sent.stream in
      if refuses stage (read 0)
      then some (record { result = false; printed = buffer })
      else if refuses stage pipe || refuses stage fork
      then some (record { result = false; printed = now full (first ∷ []) ++ mine })
      else elim child [
        | none ↦ none
        | some run ↦ some (record {
          result = not (refuses stage wait) && sent.result;
          printed = now full (first ∷ []) ++ (run.printed ++ mine);
        })
      ]

  -- `main` with one argument, of which `strtol` gives the `long` that is `number` as a bit pattern; an int
  -- keeps 32 bits of it. `none` is that an int overflows, or that the fuel is used up. The first process is
  -- stage 0 of the writes, and the second is stage 1.
  unfoldable pub main : (fuel : ℕ) → (number : ℕ) → Option Run
  unfolding handle_myself_as_absolute_parent handle_myself_as_relative_child
  main fuel number =
      let max = number % 2 ^ 32 in
      if ltb max 2 || ltb int_max max
      then some (record { result = false; printed = [] })
      else if refuses 0 pipe || refuses 0 fork
      then some (record { result = false; printed = [] })
      else elim (handle_myself_as_absolute_parent max) as (λ _. Option Run) [
        | none ↦ none
        | some sent ↦
            elim (handle_myself_as_relative_child fuel 1 [] sent.stream) as (λ _. Option Run) [
              | none ↦ none
              | some run ↦
                  some
                    (record { result = not (refuses 0 wait) && sent.result; printed = run.printed })
            ]
      ]
