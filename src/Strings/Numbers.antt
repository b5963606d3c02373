-- ===== src/Strings/Numbers.antt =====
-- `strtol` of lib/string.c and `printnum` of lib/printfmt.c. A `long` has 32 bits: the value that
-- is read stays below 2^31, and the result is a bit pattern.
pub mod Printed
use sistemas_operativos.Base.{
  ℕ, zero, suc, ◌+◌, ◌-◌, ◌*◌, ◌/◌, ◌%◌, ◌^◌, Bool, true, false, ◌&&◌, ◌||◌, Option, none, some,
  List, [], ◌∷◌, ◌++◌, ◌==◌, ltb, leb, if◌then◌else◌,
}
use sistemas_operativos.Base.Returns.{◌>>=◌}
use sistemas_operativos.Strings.Memory.{Memory}

-- The value of a digit; `none` of another character.
unfoldable pub digit : ℕ → Option ℕ
digit c =
    if leb 48 c && leb c 57
    then some (c - 48)
    else if leb 97 c && leb c 122
    then some (c - 97 + 10)
    else if leb 65 c && leb c 90
    then some (c - 65 + 10)
    else none

-- Whitespace at `s` is skipped.
unfoldable pub skip_blanks : (fuel s : ℕ) → Memory → Option ℕ
skip_blanks zero s mem = none
skip_blanks (suc fuel) s mem =
    let rest = skip_blanks fuel (s + 1) mem in
    if (mem s == 32) || (mem s == 9) then rest else some s

-- The sign: whether it is a minus, and where the number goes on.
unfoldable pub sign_at : (s : ℕ) → Memory → Bool × ℕ
sign_at s mem =
    if mem s == 43 then (false, s + 1) else if mem s == 45 then (true, s + 1) else (false, s)

-- The base and where the digits start.
unfoldable pub base_at : (base s : ℕ) → Memory → ℕ × ℕ
base_at base s mem =
    if ((base == 0) || (base == 16)) && ((mem s == 48) && (mem (s + 1) == 120))
    then (16, s + 2)
    else if (base == 0) && (mem s == 48)
    then (8, s + 1)
    else if base == 0
    then (10, s)
    else (base, s)

-- The loop over the digits, with the value and where it ends. `none` is that the value passes the greatest
-- `long`, which is undefined, or that the fuel is used up.
unfoldable pub digits_from : (fuel base val s : ℕ) → Memory → Option (ℕ × ℕ)
unfolding digit
digits_from zero base val s mem = none
digits_from (suc fuel) base val s mem = elim (digit (mem s)) [
  | none ↦ some (val, s)
  | some dig ↦
      let rest = digits_from fuel base (val * base + dig) (s + 1) mem in
      if leb base dig then some (val, s) else if leb (2 ^ 31) (val * base + dig) then none else rest
]

abbrev pub negate : (neg : Bool) → (val : ℕ) → ℕ
negate neg val = if neg then (2 ^ 32 - val) % 2 ^ 32 else val

-- The value, and what `endptr` gets.
unfoldable pub strtol : (fuel s base : ℕ) → Memory → Option (ℕ × ℕ)
unfolding skip_blanks sign_at base_at digits_from
strtol fuel s base mem = do
  s₁ ← skip_blanks fuel s mem
  let sign = sign_at s₁ mem
  let start = base_at base sign.1 mem
  r ← digits_from fuel start.0 0 start.1 mem
  some (negate sign.0 r.0, r.1)

-- "0123456789abcdef"[k]
abbrev pub digit_char : ℕ → ℕ
digit_char k = if ltb k 10 then 48 + k else 87 + k

-- `while (--width > 0) putch(padc)`, for `n` rounds
unfoldable pub pad : (n padc : ℕ) → List ℕ
pad zero padc = []
pad (suc n) padc = padc ∷ pad n padc

-- The characters that `printnum` gives to `putch`; a width that is not positive pads nothing.
unfoldable pub printnum : (fuel num base width padc : ℕ) → Option (List ℕ)
unfolding pad
printnum zero num base width padc = none
printnum (suc fuel) num base width padc = do
  front ←
      if leb base num
      then printnum fuel (num / base) base (width - 1) padc
      else some (pad (width - 1) padc)
  some (front ++ (digit_char (num % base) ∷ []))
