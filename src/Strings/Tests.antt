-- ===== src/Strings/Tests.antt =====
-- Some bytes in memory: the theorems on lib/string.c and lib/printfmt.c at them.
use sistemas_operativos.Base.{
  ℕ, suc, ◌+◌, ◌≡◌, refl, arith, some, [], ◌∷◌, ◌==◌, if◌then◌else◌, length,
}
use sistemas_operativos.Base.Returns.{Returns}
use sistemas_operativos.Strings.Memory.{Memory}
use sistemas_operativos.Strings.Bytes.{memmove}
use sistemas_operativos.Strings.Bytes.Moved.{copied, memmove-copied}
use sistemas_operativos.Strings.Numbers.{strtol, printnum}
use sistemas_operativos.Strings.Numbers.Printed.{NoDigit, Stands, printnum-strtol}

-- "ab" at 100.
abbrev demo : Memory
demo a = if a == 100 then 97 else if a == 101 then 98 else 0

-- The source and the destination overlap in two bytes.
memmove-copied_example : memmove 101 100 3 demo 102 ≡ copied 3 101 100 demo 102
memmove-copied_example = memmove-copied 101 100 3 102 demo

printnum-strtol_example :
    Returns
      (λ cs.
        (extra s : ℕ) (mem : Memory)
        → Stands cs s mem
        → NoDigit (mem (s + length cs))
        → strtol (length cs + suc extra) s 10 mem ≡ some (1234, s + length cs))
      (printnum (1234 + 1) 1234 10 0 32)
printnum-strtol_example = printnum-strtol 1234 32 (omega arith)

prints : printnum 1235 1234 10 0 32 ≡ some (49 ∷ 50 ∷ 51 ∷ 52 ∷ [])
unfolding printnum
prints = refl
