-- ===== src/Strings/Bytes/Moved.antt =====
-- `memmove` of lib/string.c copies, however the blocks overlap.
use mathlib.Core.Path.{fun_ext}
use sistemas_operativos.Base.{
  ℕ, zero, suc, ◌+◌, ◌-◌, ◌*◌, ◌/◌, ◌%◌, ◌≤◌, ◌<◌, ◌≡◌, ◌⊎◌, inl, inr, arith, ap, ◌&&◌, ltb, leb,
  if◌then◌else◌, Bool-cases, ◌∙◌,
}
use sistemas_operativos.Strings.Memory.{Memory, poke}
use sistemas_operativos.Strings.Bytes.{
  move_word, rep_movsb_up, rep_movsl_up, rep_movsb_down, rep_movsl_down, by_words, move_backward,
  move_forward, memmove,
}

-- The memory with the `n` bytes from `s` on at `d`.
abbrev pub copied : (n d s : ℕ) → Memory → Memory
copied n d s mem a = if leb d a && ltb a (d + n) then mem (s + (a - d)) else mem a

move_word-copied : (d s : ℕ) (mem : Memory) → move_word d s mem ≡ copied 4 d s mem
move_word-copied d s mem = fun_ext λ a. ground arith

-- A copy after that of the first word, and before that of the last.
first_word :
    (n d s a : ℕ) (mem : Memory)
    → (d ≤ s) ⊎ (s + 4 * suc n ≤ d)
    → copied (4 * n) (d + 4) (s + 4) (copied 4 d s mem) a ≡ copied (4 * suc n) d s mem a
first_word n d s a mem apart = ground arith

last_word :
    (n d s a : ℕ) (mem : Memory)
    → s < d
    → copied (4 * n) d s (copied 4 (d + 4 * n) (s + 4 * n) mem) a ≡ copied (4 * suc n) d s mem a
last_word n d s a mem above = ground arith

pub rep_movsb_up-copied :
    (n d s a : ℕ) (mem : Memory)
    → (d ≤ s) ⊎ (s + n ≤ d)
    → rep_movsb_up n d s mem a ≡ copied n d s mem a
unfolding rep_movsb_up
rep_movsb_up-copied zero d s a mem apart = ground arith
rep_movsb_up-copied (suc n) d s a mem apart =
    rep_movsb_up-copied n (d + 1) (s + 1) a (poke d (mem s) mem) (ground arith) ∙ ground arith

rep_movsl_up-copied :
    (n d s a : ℕ) (mem : Memory)
    → (d ≤ s) ⊎ (s + 4 * n ≤ d)
    → rep_movsl_up n d s mem a ≡ copied (4 * n) d s mem a
unfolding rep_movsl_up
rep_movsl_up-copied zero d s a mem apart = ground arith
rep_movsl_up-copied (suc n) d s a mem apart =
    rep_movsl_up-copied n (d + 4) (s + 4) a (move_word d s mem) (ground arith)
    ∙ (ap (λ m. copied (4 * n) (d + 4) (s + 4) m a) (move_word-copied d s mem)
        ∙ first_word n d s a mem apart)

-- `d` and `s` are where the blocks start.
rep_movsb_down-copied :
    (n d s a : ℕ) (mem : Memory)
    → s < d
    → rep_movsb_down n (d + n - 1) (s + n - 1) mem a ≡ copied n d s mem a
unfolding rep_movsb_down
rep_movsb_down-copied zero d s a mem above = ground arith
rep_movsb_down-copied (suc n) d s a mem above =
    (λ i. rep_movsb_down n (to i - 1) (from i - 1) (poke (to i) (mem (from i)) mem) a)
    ∙ (rep_movsb_down-copied n d s a (poke (d + n) (mem (s + n)) mem) above ∙ ground arith)
  where
    to : d + suc n - 1 ≡ d + n
    to = omega arith

    from : s + suc n - 1 ≡ s + n
    from = omega arith

rep_movsl_down-copied :
    (n d s a : ℕ) (mem : Memory)
    → s < d
    → rep_movsl_down n (d + 4 * n - 4) (s + 4 * n - 4) mem a ≡ copied (4 * n) d s mem a
unfolding rep_movsl_down
rep_movsl_down-copied zero d s a mem above = ground arith
rep_movsl_down-copied (suc n) d s a mem above =
    (λ i. rep_movsl_down n (to i - 4) (from i - 4) (move_word (to i) (from i) mem) a)
    ∙ (rep_movsl_down-copied n d s a (move_word (d + 4 * n) (s + 4 * n) mem) above
        ∙ (ap (λ m. copied (4 * n) d s m a) (move_word-copied (d + 4 * n) (s + 4 * n) mem)
            ∙ last_word n d s a mem above))
  where
    to : d + 4 * suc n - 4 ≡ d + 4 * n
    to = omega arith

    from : s + 4 * suc n - 4 ≡ s + 4 * n
    from = omega arith

module _ (d s n a : ℕ) (mem : Memory) where
  whole_words : n % 4 ≡ 0 → 4 * (n / 4) ≡ n
  whole_words e = omega arith

  move_backward-copied : s < d → move_backward d s n mem a ≡ copied n d s mem a
  unfolding move_backward
  move_backward-copied above = elim (Bool-cases (by_words (d + n) (s + n) n)) [
    | inl words ↦
        let whole : 4 * (n / 4) ≡ n = whole_words (ground arith) in
        let down = rep_movsl_down-copied (n / 4) d s a mem above in rw (words) (rw (whole) at down)
    | inr bytes ↦ rw (bytes) (rep_movsb_down-copied n d s a mem above)
  ]

  move_forward-copied : (d ≤ s) ⊎ (s + n ≤ d) → move_forward d s n mem a ≡ copied n d s mem a
  unfolding move_forward
  move_forward-copied apart = elim (Bool-cases (by_words d s n)) [
    | inl words ↦
        let whole : 4 * (n / 4) ≡ n = whole_words (ground arith) in
        let up = rep_movsl_up-copied (n / 4) d s a mem (rw (whole) apart) in
        rw (words) (rw (whole) at up)
    | inr bytes ↦ rw (bytes) (rep_movsb_up-copied n d s a mem apart)
  ]

-- `memmove` leaves the memory with the source's bytes, as they were, at the destination, and no other
-- byte changes.
pub memmove-copied :
    (dst src n a : ℕ) (mem : Memory) → memmove dst src n mem a ≡ copied n dst src mem a
unfolding memmove
memmove-copied dst src n a mem = elim (Bool-cases (ltb src dst && ltb dst (src + n))) [
  | inl overlaps ↦ rw (overlaps) (move_backward-copied dst src n a mem (ground arith))
  | inr clear ↦ rw (clear) (move_forward-copied dst src n a mem (ground arith))
]
