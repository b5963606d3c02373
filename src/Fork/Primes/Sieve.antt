-- ===== src/Fork/Primes/Sieve.antt =====
-- lab-fork/fork/primes.c prints the primes.
use mathlib.Core.List.{append-nil}
use native.Mathlib.Nat.{dvd_trans, dvd_iff_mod-eq-zero}
use sistemas_operativos.Base.{
  ℕ, zero, suc, ◌+◌, ◌-◌, ◌%◌, ◌^◌, ◌||◌, ◌≤◌, ◌<◌, ◌≡◌, ◌≢◌, ◌↔◌, ◌⊎◌, inl, inr, refl, ap, ◌∙◌,
  Bool, true, false, some, List, [], ◌∷◌, ◌==◌, ltb, if◌then◌else◌, length, has, Bool-cases, ==→eq,
  ==_refl, arith,
}
use sistemas_operativos.Fork.Primes.{
  Call, pipe, fork, wait, read, write, Run, int_max, send_from, forward_from,
  handle_myself_as_absolute_parent, handle_myself_as_relative_parent,
  handle_myself_as_relative_child, main,
}

-- The numbers from `i` on, `rounds` of them.
abbrev counted : (i rounds : ℕ) → List ℕ
counted i zero = []
counted i (suc rounds) = i ∷ counted (i + 1) rounds

-- The numbers that a stage passes on.
abbrev keep : (first : ℕ) → List ℕ → List ℕ
keep first [] = []
keep first (n ∷ ns) = let rest = keep first ns in if n % first == 0 then rest else n ∷ rest

-- The first numbers of the stages.
abbrev firsts : (fuel : ℕ) → List ℕ → List ℕ
firsts zero ns = []
firsts (suc fuel) [] = []
firsts (suc fuel) (n ∷ ns) = n ∷ firsts fuel (keep n ns)

-- Each number is greater than the one before it, and none is below `low`.
abbrev pub Ascending : (low : ℕ) → List ℕ → Type 0
Ascending low [] = Unit
Ascending low (n ∷ ns) = (low ≤ n) × Ascending (n + 1) ns

abbrev pub IsPrime : ℕ → Type 0
IsPrime q = (2 ≤ q) × ((d : ℕ) → 2 ≤ d → d < q → q % d ≢ 0)

Ascending-le : (low low' : ℕ) (ns : List ℕ) → low ≤ low' → Ascending low' ns → Ascending low ns
Ascending-le low low' [] le a = tt
Ascending-le low low' (n ∷ ns) le (h, a) = (omega arith, a)

keep-Ascending : (p low : ℕ) (ns : List ℕ) → Ascending low ns → Ascending low (keep p ns)
keep-Ascending p low [] a = tt
keep-Ascending p low (n ∷ ns) (h, a) =
    let rest = keep-Ascending p (n + 1) ns a in
    elim (n % p == 0) as (λ t. Ascending low (if t then keep p ns else n ∷ keep p ns)) [
      | true ↦ Ascending-le low (n + 1) (keep p ns) (omega arith) rest
      | false ↦ (h, rest)
    ]

firsts-Ascending : (fuel low : ℕ) (ns : List ℕ) → Ascending low ns → Ascending low (firsts fuel ns)
firsts-Ascending zero low ns a = tt
firsts-Ascending (suc fuel) low [] a = tt
firsts-Ascending (suc fuel) low (n ∷ ns) (h, a) =
    (h, firsts-Ascending fuel (n + 1) (keep n ns) (keep-Ascending n (n + 1) ns a))

keep-length : (p : ℕ) (ns : List ℕ) → length (keep p ns) ≤ length ns
keep-length p [] = omega arith
keep-length p (n ∷ ns) =
    let rest = keep-length p ns in
    elim (n % p == 0) as (λ t. length (if t then keep p ns else n ∷ keep p ns) ≤ suc (length ns)) [
      | true ↦ omega arith
      | false ↦ omega arith
    ]

has-cons : (q n : ℕ) (ns : List ℕ) → has q (n ∷ ns) ≡ true → (q ≡ n) ⊎ (has q ns ≡ true)
has-cons q n ns h = elim (Bool-cases (q == n)) [
  | inl same ↦ inl (==→eq q n same)
  | inr other ↦ inr (ground arith)
]

has-here : (q : ℕ) (ns : List ℕ) → has q (q ∷ ns) ≡ true
has-here q ns = rw (==_refl q) refl

has-eq : (q n : ℕ) (ns : List ℕ) → q ≡ n → has q (n ∷ ns) ≡ true
has-eq q n ns e = ground arith

has-there : (q n : ℕ) (ns : List ℕ) → has q ns ≡ true → has q (n ∷ ns) ≡ true
has-there q n ns h = ground arith

Ascending-has : (low q : ℕ) (ns : List ℕ) → Ascending low ns → has q ns ≡ true → low ≤ q
Ascending-has low q [] a h = cc
Ascending-has low q (n ∷ ns) (le, a) h = elim (has-cons q n ns h) [
  | inl e ↦ omega arith
  | inr m ↦ let above = Ascending-has (n + 1) q ns a m in omega arith
]

keep-has : (p q : ℕ) (ns : List ℕ) → has q (keep p ns) ≡ true → (has q ns ≡ true) × (q % p ≢ 0)
keep-has p q [] h = cc
keep-has p q (n ∷ ns) h = elim (Bool-cases (n % p == 0)) [
  | inl divides ↦ let (m, ne) = keep-has p q ns (rw divides at h) in (has-there q n ns m, ne)
  | inr other ↦ elim (has-cons q n (keep p ns) (rw other at h)) [
    | inl e ↦ (has-eq q n ns e, λ z. ground arith)
    | inr m ↦ let (m', ne) = keep-has p q ns m in (has-there q n ns m', ne)
  ]
]

has-keep : (p q : ℕ) (ns : List ℕ) → has q ns ≡ true → q % p ≢ 0 → has q (keep p ns) ≡ true
has-keep p q [] h ne = cc
has-keep p q (n ∷ ns) h ne = elim (Bool-cases (n % p == 0)) [
  | inl divides ↦ elim (has-cons q n ns h) [
    | inl e ↦ absurd (ne (ap (λ k. k % p) e ∙ ==→eq (n % p) 0 divides))
    | inr m ↦ rw divides (has-keep p q ns m ne)
  ]
  | inr other ↦ elim (has-cons q n ns h) [
    | inl e ↦ rw other (has-eq q n (keep p ns) e)
    | inr m ↦ rw other (has-there q n (keep p ns) (has-keep p q ns m ne))
  ]
]

mod_trans : (p d q : ℕ) → d % p ≡ 0 → q % d ≡ 0 → q % p ≡ 0
mod_trans p d q e f =
    (dvd_iff_mod-eq-zero p).0
      (dvd_trans p ((dvd_iff_mod-eq-zero p).1 e) ((dvd_iff_mod-eq-zero d).1 f))

-- The first numbers are those of the list that no smaller number of the list divides.
firsts_sound :
    (fuel low q : ℕ) (ns : List ℕ)
    → Ascending low ns
    → has q (firsts fuel ns) ≡ true
    → (has q ns ≡ true) × ((d : ℕ) → has d ns ≡ true → d < q → q % d ≢ 0)
firsts_sound zero low q ns a h = cc
firsts_sound (suc fuel) low q [] a h = cc
firsts_sound (suc fuel) low q (p ∷ ns) (le, a) h = elim (has-cons q p (firsts fuel (keep p ns)) h) [
  | inl e ↦ (
    has-eq q p ns e,
    λ d m below. elim (has-cons d p ns m) [
      | inl same ↦ absurd (omega arith)
      | inr later ↦ let above = Ascending-has (p + 1) d ns a later in absurd (omega arith)
    ],
  )
  | inr m ↦
      let (kept, none_divides) =
        firsts_sound fuel (p + 1) q (keep p ns) (keep-Ascending p (p + 1) ns a) m in
      let (there, ne) = keep-has p q ns kept in
      (
        has-there q p ns there,
        λ d md below. elim (has-cons d p ns md) [
          | inl same ↦ rw same ne
          | inr later ↦ λ divides. elim (Bool-cases (d % p == 0)) [
            | inl z ↦ ne (mod_trans p d q (==→eq (d % p) 0 z) divides)
            | inr nz ↦ none_divides d (has-keep p d ns later (λ z. ground arith)) below divides
          ]
        ],
      )
]

firsts_complete :
    (fuel low q : ℕ) (ns : List ℕ)
    → length ns < fuel
    → Ascending low ns
    → has q ns ≡ true
    → ((d : ℕ) → has d ns ≡ true → d < q → q % d ≢ 0)
    → has q (firsts fuel ns) ≡ true
firsts_complete zero low q ns enough a h prime = absurd (omega arith)
firsts_complete (suc fuel) low q [] enough a h prime = cc
firsts_complete (suc fuel) low q (p ∷ ns) enough (le, a) h prime = elim (has-cons q p ns h) [
  | inl e ↦ has-eq q p (firsts fuel (keep p ns)) e
  | inr m ↦
      let above = Ascending-has (p + 1) q ns a m in
      let ne = prime p (has-here p ns) (omega arith) in
      let short = keep-length p ns in
      has-there q p (firsts fuel (keep p ns)) (
        firsts_complete fuel (p + 1) q (keep p ns) (omega arith) (keep-Ascending p (p + 1) ns a)
          (has-keep p q ns m ne)
          (λ d md below. prime d (has-there d p ns (keep-has p d ns md).0) below))
]

counted-Ascending : (i rounds : ℕ) → Ascending i (counted i rounds)
counted-Ascending i zero = tt
counted-Ascending i (suc rounds) = (omega arith, counted-Ascending (i + 1) rounds)

counted-has : (i rounds q : ℕ) → (has q (counted i rounds) ≡ true) → (i ≤ q) × (q < i + rounds)
counted-has i zero q h = cc
counted-has i (suc rounds) q h = elim (has-cons q i (counted (i + 1) rounds) h) [
  | inl e ↦ (omega arith, omega arith)
  | inr m ↦ let b = counted-has (i + 1) rounds q m in (omega arith, omega arith)
]

has-counted : (i rounds q : ℕ) → i ≤ q → q < i + rounds → has q (counted i rounds) ≡ true
has-counted i zero q le lt = absurd (omega arith)
has-counted i (suc rounds) q le lt = elim (Bool-cases (q == i)) [
  | inl same ↦ rw same refl
  | inr other ↦
      has-there q i (counted (i + 1) rounds)
        (has-counted (i + 1) rounds q (ground arith) (omega arith))
]

counted-length : (i rounds : ℕ) → length (counted i rounds) ≡ rounds
counted-length i zero = refl
counted-length i (suc rounds) = let rest = counted-length (i + 1) rounds in omega arith

module _ (refuses : ℕ → Call → Bool)
    (allowed : (stage : ℕ) (call : Call) → refuses stage call ≡ false) where
  send_from-eq :
      (full : Bool) (rounds i max : ℕ)
      → i + rounds ≡ max + 1
      → max < int_max
      → send_from refuses full (suc rounds) i max
        ≡ some (record { stream = counted i rounds; result = true })
  unfolding send_from
  send_from-eq full zero i max end small =
      let past : ltb max i ≡ true = ground arith in rw (past) refl
  send_from-eq full (suc rounds) i max end small =
      let on : ltb max i ≡ false = ground arith in
      let fits : (i == int_max) ≡ false = ground arith in
      rw (on, allowed 0 (write i), fits, send_from-eq full rounds (i + 1) max (omega arith) small)
        refl

  absolute-eq :
      (full : Bool) (max : ℕ)
      → 2 ≤ max
      → max < int_max
      → handle_myself_as_absolute_parent refuses full max
        ≡ some (record { stream = counted 2 (max - 1); result = true })
  unfolding handle_myself_as_absolute_parent
  absolute-eq full zero enough small = absurd (omega arith)
  absolute-eq full (suc n) enough small =
      let rounds : suc n - 1 ≡ n = omega arith in
      rw (rounds) (send_from-eq full n 2 (suc n) (omega arith) small)

  forward_from-eq :
      (full : Bool) (stage k p : ℕ) (ns : List ℕ)
      → forward_from refuses full stage k p ns ≡ record { stream = keep p ns; result = true }
  unfolding forward_from
  forward_from-eq full stage k p [] = rw (allowed stage (read k)) refl
  forward_from-eq full stage k p (n ∷ ns) = elim (Bool-cases (n % p == 0)) [
    | inl divides ↦
        rw (allowed stage (read k), divides, forward_from-eq full stage (k + 1) p ns) refl
    | inr other ↦
        rw
          (
            allowed stage (read k),
            other,
            allowed stage (write k),
            forward_from-eq full stage (k + 1) p ns,
          )
          refl
  ]

  child-eq :
      (fuel stage : ℕ) (ns : List ℕ)
      → length ns < fuel
      → handle_myself_as_relative_child refuses false fuel stage [] ns
        ≡ some (record { result = true; printed = firsts fuel ns })
  unfolding handle_myself_as_relative_child handle_myself_as_relative_parent
  child-eq zero stage ns enough = absurd (omega arith)
  child-eq (suc fuel) stage [] enough = rw (allowed stage (read 0)) refl
  child-eq (suc fuel) stage (p ∷ ns) enough =
      let short = keep-length p ns in
      let rest = child-eq fuel (stage + 1) (keep p ns) (omega arith) in
      rw
        (
          allowed stage (read 0),
          allowed stage pipe,
          allowed stage fork,
          forward_from-eq false stage 1 p ns,
          rest,
          allowed stage wait,
        )
        (rw (forward_from-eq false stage 1 p ns, append-nil) refl)

  -- Where no call fails, stdout is a terminal, and the number is at least 2 and below INT_MAX: with a stage of fuel for each
  -- number, primes.c ends with OK_ID, and prints in ascending order the primes up to the number and no other.
  pub main-Primes :
      (fuel max : ℕ)
      → 2 ≤ max
      → max < int_max
      → max ≤ fuel
      → (run : Run) × (main refuses false fuel max ≡ some run)
        × (run.result ≡ true)
        × Ascending 2 run.printed
        × ((q : ℕ) → (has q run.printed ≡ true) ↔ ((q ≤ max) × IsPrime q))
  unfolding main
  main-Primes fuel max enough below room =
      let ns = counted 2 (max - 1) in
      let many = counted-length 2 (max - 1) in
      let child = child-eq fuel 1 ns (omega arith) in
      let same : max % 2 ^ 32 ≡ max = omega arith in
      let large : (ltb max 2 || ltb int_max max) ≡ false = ground arith in
      (
        record { result = true; printed = firsts fuel ns },
        rw
            (
              same,
              large,
              allowed 0 pipe,
              allowed 0 fork,
              absolute-eq false max enough below,
              child,
              allowed 0 wait,
            )
            refl,
        refl,
        firsts-Ascending fuel 2 ns (counted-Ascending 2 (max - 1)),
        λ q. (
          λ printed.
              let (there, prime) =
                firsts_sound fuel 2 q ns (counted-Ascending 2 (max - 1)) printed in
              let (low, high) = counted-has 2 (max - 1) q there in
              (
                omega arith,
                (low, λ d two below. prime d (has-counted 2 (max - 1) d two (omega arith)) below),
              ),
          λ (small, (two, prime)).
              firsts_complete fuel 2 q ns (omega arith) (counted-Ascending 2 (max - 1))
                (has-counted 2 (max - 1) q two (omega arith))
                (λ d there below. prime d (counted-has 2 (max - 1) d there).0 below),
        ),
      )
