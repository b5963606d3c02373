-- ===== src/Strings/Memory/IsString.antt =====
-- Strings in memory: `strlen`, `strcpy` and `strcmp` of lib/string.c on them.
use mathlib.Core.Path.{fun_ext}
use sistemas_operativos.Base.{
  ℕ, zero, suc, ◌+◌, ◌≤◌, ◌<◌, ◌≡◌, refl, sym, ap, ◌∙◌, ◌⊎◌, arith, false, some, List, [], ◌∷◌,
  ◌==◌, length,
}
use sistemas_operativos.Strings.Memory.{Memory, poke, strlen_from, strlen, strcpy}
use sistemas_operativos.Strings.Bytes.{rep_movsb_up, memmove}
use sistemas_operativos.Strings.Bytes.Moved.{rep_movsb_up-copied, memmove-copied}

-- The bytes of `cs`, none of which is NUL, and then a NUL, stand at `s`.
abbrev pub IsString : List ℕ → (s : ℕ) → Memory → Type 0
IsString [] s mem = mem s ≡ 0
IsString (c ∷ cs) s mem = (mem s ≡ c) × (0 < c) × IsString cs (s + 1) mem

strlen_from-length :
    (cs : List ℕ) (fuel n s total : ℕ) (mem : Memory)
    → fuel ≡ length cs + 1
    → n + length cs ≡ total
    → IsString cs s mem
    → strlen_from fuel n s mem ≡ some total
unfolding strlen_from
strlen_from-length cs zero n s total mem e t h = absurd (omega arith)
strlen_from-length [] (suc fuel) n s total mem e t h = ground (arith, h)
strlen_from-length (c ∷ cs) (suc fuel) n s total mem e t (same, pos, h) =
    let more : (mem s == 0) ≡ false = ground (arith, same) in
    rw (more) (strlen_from-length cs fuel (n + 1) (s + 1) total mem (omega arith) (omega arith) h)

IsString-poke :
    (cs : List ℕ) (s a c : ℕ) (mem : Memory)
    → (a < s) ⊎ (s + length cs < a)
    → IsString cs s mem
    → IsString cs s (poke a c mem)
IsString-poke [] s a c mem apart h = ground (arith, h)
IsString-poke (x ∷ xs) s a c mem apart (e, pos, h) =
    (ground (arith, e), pos, IsString-poke xs (s + 1) a c mem (ground arith) h)

strcpy-rep_movsb_up :
    (cs : List ℕ) (fuel dst src : ℕ) (mem : Memory)
    → fuel ≡ length cs + 1
    → IsString cs src mem
    → (dst + length cs < src) ⊎ (src + length cs < dst)
    → strcpy fuel dst src mem ≡ some (rep_movsb_up fuel dst src mem)
unfolding strcpy rep_movsb_up
strcpy-rep_movsb_up [] zero dst src mem e h apart = absurd (omega arith)
strcpy-rep_movsb_up [] (suc zero) dst src mem e h apart = rw (h) refl
strcpy-rep_movsb_up [] (suc (suc n)) dst src mem e h apart = absurd (omega arith)
strcpy-rep_movsb_up (c ∷ cs) zero dst src mem e h apart = absurd (omega arith)
strcpy-rep_movsb_up (c ∷ cs) (suc fuel) dst src mem e (same, pos, h) apart =
    let more : (mem src == 0) ≡ false = ground (arith, same) in
    rw (more) (
      strcpy-rep_movsb_up cs fuel (dst + 1) (src + 1) (poke dst (mem src) mem) (omega arith)
        (IsString-poke cs (src + 1) dst (mem src) mem (ground arith) h) (ground arith))

-- A string is one wherever its bytes are.
IsString-moved :
    (cs : List ℕ) (s d : ℕ) (mem mem' : Memory)
    → ((k : ℕ) → k ≤ length cs → mem' (d + k) ≡ mem (s + k))
    → IsString cs s mem
    → IsString cs d mem'
IsString-moved [] s d mem mem' same h = ground (arith, h, same 0 (omega arith))
IsString-moved (c ∷ cs) s d mem mem' same (e, pos, h) = (
  ground (arith, e, same 0 (omega arith)),
  pos,
  IsString-moved cs (s + 1) (d + 1) mem mem' (λ k below. ground (arith, same (k + 1) (omega arith)))
      h,
)

rep_movsb_up-memmove :
    (dst src n : ℕ) (mem : Memory)
    → (dst + n ≤ src) ⊎ (src + n ≤ dst)
    → memmove dst src n mem ≡ rep_movsb_up n dst src mem
rep_movsb_up-memmove dst src n mem apart =
    fun_ext
      λ a. memmove-copied dst src n a mem ∙ sym (rep_movsb_up-copied n dst src a mem (ground arith))

-- `strcpy` of a string to a place that it does not overlap ends and is `memmove` of its bytes and its
-- NUL; `strlen` then finds the same length at the destination.
strcpy-memmove :
    (cs : List ℕ) (dst src : ℕ) (mem : Memory)
    → IsString cs src mem
    → (dst + length cs < src) ⊎ (src + length cs < dst)
    → (strcpy (length cs + 1) dst src mem ≡ some (memmove dst src (length cs + 1) mem))
      × (strlen (length cs + 1) dst (memmove dst src (length cs + 1) mem) ≡ some (length cs))
unfolding strlen
strcpy-memmove cs dst src mem h apart = (
  strcpy-rep_movsb_up cs (length cs + 1) dst src mem refl h apart
      ∙ ap (λ (m : Memory). some m)
          (sym (rep_movsb_up-memmove dst src (length cs + 1) mem (ground arith))),
  strlen_from-length cs (length cs + 1) 0 dst (length cs) _ refl (omega arith) (
      IsString-moved cs src dst mem _
        (λ k below. memmove-copied dst src (length cs + 1) (dst + k) mem ∙ ground arith) h),
)
