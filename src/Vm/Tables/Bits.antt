-- ===== src/Vm/Tables/Bits.antt =====
-- The bits of a page table entry: `|` by digits and by blocks of digits.
use Prim.Native.Nat.{max, bit_or, digits, bit_or-bitwise}
use sistemas_operativos.Base.{ℕ, zero, suc, ◌+◌, ◌*◌, ◌/◌, ◌%◌, ◌≤◌, ◌≡◌, ◌≢◌, refl, ap, ◌∙◌, arith}
use sistemas_operativos.Vm.State.{pte_page, make_pte}

-- The digits of `a | b`, with rounds left.
abbrev or_digits : (n a b : ℕ) → ℕ
or_digits n a b = digits (λ y. y) max n a b

or_digits-rounds : (n m a b : ℕ) → a ≤ n → a ≤ m → or_digits n a b ≡ or_digits m a b
or_digits-rounds zero zero a b p q = refl
or_digits-rounds zero (suc m) zero b p q = refl
or_digits-rounds zero (suc m) (suc a) b p q = absurd (omega arith)
or_digits-rounds (suc n) zero zero b p q = refl
or_digits-rounds (suc n) zero (suc a) b p q = absurd (omega arith)
or_digits-rounds (suc n) (suc m) zero b p q = refl
or_digits-rounds (suc n) (suc m) (suc a) b p q =
    omega (arith, or_digits-rounds n m (suc a / 2) (b / 2) (omega arith) (omega arith))

zero-bit_or : (b : ℕ) → bit_or 0 b ≡ b
zero-bit_or b = bit_or-bitwise 0 b

pub bit_or_step : (a b : ℕ) → bit_or a b ≡ bit_or (a / 2) (b / 2) * 2 + max (a % 2) (b % 2)
bit_or_step zero b = omega (arith, zero-bit_or b, zero-bit_or (b / 2))
bit_or_step (suc a) b = omega (
  arith,
  bit_or-bitwise (suc a) b,
  bit_or-bitwise (suc a / 2) (b / 2),
  or_digits-rounds a (suc a / 2) (suc a / 2) (b / 2) (omega arith) (omega arith),
)

bit_or-zero_below : (n a : ℕ) → a ≤ n → bit_or a 0 ≡ a
bit_or-zero_below n zero h = refl
bit_or-zero_below zero (suc a) h = absurd (omega arith)
bit_or-zero_below (suc n) (suc a) h =
    omega (arith, bit_or_step (suc a) 0, bit_or-zero_below n (suc a / 2) (omega arith))

pub bit_or-zero : (a : ℕ) → bit_or a 0 ≡ a
bit_or-zero a = bit_or-zero_below a a (omega arith)

-- The digits above the lowest.
half : (a b : ℕ) → bit_or a b / 2 ≡ bit_or (a / 2) (b / 2)
half a b = omega (arith, bit_or_step a b)

-- The lowest digit.
pub odd-bit_or : (a b : ℕ) → b % 2 ≡ 1 → bit_or a b % 2 ≡ 1
odd-bit_or a b h = omega (arith, bit_or_step a b)

-- To shift twice is to shift both sides twice.
shift_twice :
    (p q : ℕ)
    → ((a b : ℕ) → bit_or a b / p ≡ bit_or (a / p) (b / p))
    → ((a b : ℕ) → bit_or a b / q ≡ bit_or (a / q) (b / q))
    → (a b : ℕ) → bit_or a b / p / q ≡ bit_or (a / p / q) (b / p / q)
shift_twice p q f g a b = ap (λ (t : ℕ). t / q) (f a b) ∙ g (a / p) (b / p)

quarter : (a b : ℕ) → bit_or a b / 4 ≡ bit_or (a / 4) (b / 4)
quarter a b =
    omega arith ∙ (shift_twice 2 2 half half a b ∙ (λ t. bit_or (two_halves a t) (two_halves b t)))
  where
    two_halves : (n : ℕ) → n / 2 / 2 ≡ n / 4
    two_halves n = omega arith

sixteenth : (a b : ℕ) → bit_or a b / 16 ≡ bit_or (a / 16) (b / 16)
sixteenth a b =
    omega arith
    ∙ (shift_twice 4 4 quarter quarter a b ∙ (λ t. bit_or (two_quarters a t) (two_quarters b t)))
  where
    two_quarters : (n : ℕ) → n / 4 / 4 ≡ n / 16
    two_quarters n = omega arith

-- `|` above the offset in a page.
pub bit_or-div-page : (a b : ℕ) → bit_or a b / 4096 ≡ bit_or (a / 4096) (b / 4096)
bit_or-div-page a b =
    omega arith
    ∙ (shift_twice 256 16
          (λ c d.
            omega arith
            ∙ (shift_twice 16 16 sixteenth sixteenth c d ∙ (λ t. bit_or (byte c t) (byte d t))))
          sixteenth a b
        ∙ (λ t. bit_or (page a t) (page b t)))
  where
    byte : (n : ℕ) → n / 16 / 16 ≡ n / 256
    byte n = omega arith

    page : (n : ℕ) → n / 256 / 16 ≡ n / 4096
    page n = omega arith

-- The page of a new entry: what the bits of `perm` above the twelfth leave of it.
pub pte_page-make_pte : (page perm : ℕ) → pte_page (make_pte page perm) ≡ bit_or page (perm / 4096)
pte_page-make_pte page perm =
    bit_or-div-page (bit_or (page * 4096) perm) 1
    ∙ (bit_or-zero (bit_or (page * 4096) perm / 4096)
        ∙ (bit_or-div-page (page * 4096) perm
            ∙ ap (λ (q : ℕ). bit_or q (perm / 4096)) (omega arith)))

pub make_pte-present : (page perm : ℕ) → make_pte page perm ≢ 0
make_pte-present page perm e = omega (arith, odd-bit_or (bit_or (page * 4096) perm) 1 refl)
