-- ===== src/Strings/Numbers/Printed.antt =====
-- What `printnum` prints without padding, `strtol` reads.
use mathlib.Core.Path.{subst}
use sistemas_operativos.Base.{
  ℕ, zero, suc, ◌+◌, ◌*◌, ◌/◌, ◌%◌, ◌^◌, ◌≤◌, ◌<◌, ◌≡◌, refl, ◌∙◌, inl, inr, arith, true, false,
  Option-cases, some, List, [], ◌∷◌, ◌++◌, leb, Bool-cases, length, length-append,
}
use sistemas_operativos.Base.Returns
use sistemas_operativos.Base.Returns.{Returns, returns, ◌>>=◌}
use sistemas_operativos.Strings.Memory.{Memory}
use sistemas_operativos.Strings.Numbers.{
  digit, skip_blanks, sign_at, base_at, digits_from, strtol, digit_char, printnum,
}

-- The characters stand at `s`.
abbrev pub Stands : List ℕ → (s : ℕ) → Memory → Type 0
Stands [] s mem = Unit
Stands (c ∷ cs) s mem = (mem s ≡ c) × Stands cs (s + 1) mem

digit-digit_char : (k : ℕ) → k < 10 → digit (digit_char k) ≡ some k
unfolding digit
digit-digit_char k below = ground arith

Stands-append :
    (xs ys : List ℕ) (s : ℕ) (mem : Memory)
    → Stands (xs ++ ys) s mem
    → Stands xs s mem × Stands ys (s + length xs) mem
Stands-append [] ys s mem h = (tt, subst (λ (a : ℕ). Stands ys a mem) here h)
  where
    here : s ≡ s + 0
    here = omega arith
Stands-append (x ∷ xs) ys s mem (e, h) =
    let (front, back) = Stands-append xs ys (s + 1) mem h in
    ((e, front), subst (λ (a : ℕ). Stands ys a mem) there back)
  where
    there : s + 1 + length xs ≡ s + suc (length xs)
    there = omega arith

-- The characters are read as the digits of `num`, and the first one is a digit.
pub record Reads (num : ℕ) (cs : List ℕ) : Type 0 where
  value :
      (fuel extra s end : ℕ) (mem : Memory)
      → fuel ≡ length cs + extra
      → s + length cs ≡ end
      → Stands cs s mem
      → digits_from fuel 10 0 s mem ≡ digits_from extra 10 num end mem
  first : (s : ℕ) (mem : Memory) → Stands cs s mem → (48 ≤ mem s) × (mem s ≤ 57)

-- One digit more.
digit_step :
    (extra val k s : ℕ) (mem : Memory)
    → k < 10
    → mem s ≡ digit_char k
    → val * 10 + k < 2 ^ 31
    → digits_from (suc extra) 10 val s mem ≡ digits_from extra 10 (val * 10 + k) (s + 1) mem
unfolding digits_from
digit_step extra val k s mem below e fits = ground (arith, e, digit-digit_char k below)

one-Reads : (num : ℕ) → num < 10 → Reads num (digit_char (num % 10) ∷ [])
one-Reads num below = record {
  value = λ fuel extra s end mem rounds stop h.
      let one : fuel ≡ suc extra = omega arith in
      (λ i. digits_from (one i) 10 0 s mem)
      ∙ (digit_step extra 0 (num % 10) s mem (omega arith) h.0 (omega arith)
          ∙ (λ i. digits_from extra 10 (same i) (stop i) mem));
  first = λ s mem h. (ground (arith, h.0), ground (arith, h.0));
}
  where
    same : 0 * 10 + num % 10 ≡ num
    same = omega arith

more-Reads :
    (num : ℕ) (front : List ℕ)
    → num < 2 ^ 31
    → Reads (num / 10) front
    → Reads num (front ++ (digit_char (num % 10) ∷ []))
more-Reads num front below r = record {
  value = λ fuel extra s end mem rounds stop h.
      let (before, here) = Stands-append front (digit_char (num % 10) ∷ []) s mem h in
      let size = length-append front (digit_char (num % 10) ∷ []) in
      let rounds' : fuel ≡ length front + suc extra = omega (arith, rounds, size) in
      let stop' : s + length front + 1 ≡ end = omega (arith, stop, size) in
      r.value fuel (suc extra) s (s + length front) mem rounds' refl before
      ∙ (digit_step extra (num / 10) (num % 10) (s + length front) mem (omega arith) here.0
            (omega arith)
          ∙ (λ i. digits_from extra 10 (same i) (stop' i) mem));
  first = λ s mem h. r.first s mem (Stands-append front (digit_char (num % 10) ∷ []) s mem h).0;
}
  where
    same : num / 10 * 10 + num % 10 ≡ num
    same = omega arith

printnum-Reads :
    (fuel num padc : ℕ)
    → num < fuel
    → num < 2 ^ 31
    → Returns (Reads num) (printnum fuel num 10 0 padc)
unfolding printnum
printnum-Reads zero num padc enough below = absurd (omega arith)
printnum-Reads (suc fuel) num padc enough below = elim (Bool-cases (leb 10 num)) [
  | inl large ↦ rw (large) (
      Returns.bind (printnum-Reads fuel (num / 10) padc (ground arith) (omega arith))
        λ front r. returns (more-Reads num front below r))
  | inr small ↦ rw (small) (returns (one-Reads num (ground arith)))
]

skip_blanks-none :
    (fuel s : ℕ) (mem : Memory) → 0 < fuel → 48 ≤ mem s → skip_blanks fuel s mem ≡ some s
unfolding skip_blanks
skip_blanks-none zero s mem some_fuel digit = absurd (omega arith)
skip_blanks-none (suc fuel) s mem some_fuel digit = ground arith

sign_at-none : (s : ℕ) (mem : Memory) → 48 ≤ mem s → sign_at s mem ≡ (false, s)
unfolding sign_at
sign_at-none s mem digit = ground arith

base_at-ten : (s : ℕ) (mem : Memory) → base_at 10 s mem ≡ (10, s)
unfolding base_at
base_at-ten s mem = refl

-- The character is no digit of base 10.
abbrev pub NoDigit : (c : ℕ) → Type 0
NoDigit c = (d : ℕ) → digit c ≡ some d → 10 ≤ d

leb-of : (a b : ℕ) → a ≤ b → leb a b ≡ true
leb-of a b le = ground arith

digits_from-end :
    (extra val s : ℕ) (mem : Memory)
    → NoDigit (mem s)
    → digits_from (suc extra) 10 val s mem ≡ some (val, s)
unfolding digits_from
digits_from-end extra val s mem stop = elim (Option-cases (digit (mem s))) [
  | inl other ↦ ground (arith, other)
  | inr (d, letter) ↦
      let past : leb 10 d ≡ true = leb-of 10 d (stop d letter) in ground (arith, letter, past)
]

strtol-Reads :
    (num extra s : ℕ) (cs : List ℕ) (mem : Memory)
    → Reads num cs
    → Stands cs s mem
    → NoDigit (mem (s + length cs))
    → strtol (length cs + suc extra) s 10 mem ≡ some (num, s + length cs)
unfolding strtol
strtol-Reads num extra s cs mem r h stop = ground (
  arith,
  skip_blanks-none (length cs + suc extra) s mem (omega arith) (r.first s mem h).0,
  sign_at-none s mem (r.first s mem h).0,
  base_at-ten s mem,
  r.value (length cs + suc extra) (suc extra) s (s + length cs) mem refl refl h,
  digits_from-end extra num (s + length cs) mem stop,
)

-- `printnum` of a number below 2^31 in base 10, without padding, ends, and where its characters stand in
-- memory before one that is no digit of
-- base 10, `strtol` in base 10 reads the number and stops behind them.
pub printnum-strtol :
    (num padc : ℕ)
    → num < 2 ^ 31
    → Returns
        (λ cs.
          (extra s : ℕ) (mem : Memory)
          → Stands cs s mem
          → NoDigit (mem (s + length cs))
          → strtol (length cs + suc extra) s 10 mem ≡ some (num, s + length cs))
        (printnum (num + 1) num 10 0 padc)
printnum-strtol num padc below =
    Returns.mono (printnum-Reads (num + 1) num padc (omega arith) below)
      λ cs r extra s mem h stop. strtol-Reads num extra s cs mem r h stop
