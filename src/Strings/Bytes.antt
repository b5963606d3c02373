-- ===== src/Strings/Bytes.antt =====
-- The routines of lib/string.c on blocks of bytes, as built with ASM. A string instruction is a loop on the
-- addresses in EDI and ESI. A block does not pass the end of the addresses.
pub mod Moved
use sistemas_operativos.Base.{
  ℕ, zero, suc, ◌+◌, ◌-◌, ◌*◌, ◌/◌, ◌%◌, ◌^◌, Bool, ◌&&◌, ◌==◌, ltb, if◌then◌else◌,
}
use sistemas_operativos.Strings.Memory.{Memory, poke, difference}

-- `rep stosb` and `rep stosl` with the direction flag clear.
unfoldable pub rep_stosb : (n d al : ℕ) → Memory → Memory
rep_stosb zero d al mem = mem
rep_stosb (suc n) d al mem = rep_stosb n (d + 1) al (poke d al mem)

abbrev pub poke_word : (d w : ℕ) → Memory → Memory
poke_word d w mem =
    poke (d + 3) (w / 2 ^ 24 % 256)
      (poke (d + 2) (w / 2 ^ 16 % 256) (poke (d + 1) (w / 2 ^ 8 % 256) (poke d (w % 256) mem)))

unfoldable pub rep_stosl : (n d eax : ℕ) → Memory → Memory
rep_stosl zero d eax mem = mem
rep_stosl (suc n) d eax mem = rep_stosl n (d + 4) eax (poke_word d eax mem)

-- `(c<<24)|(c<<16)|(c<<8)|c`
abbrev pub four_times : ℕ → ℕ
four_times c = c * 2 ^ 24 + c * 2 ^ 16 + c * 2 ^ 8 + c

unfoldable pub memset : (v c n : ℕ) → Memory → Memory
unfolding rep_stosb rep_stosl
memset v c n mem =
    if n == 0
    then mem
    else if (v % 4 == 0) && (n % 4 == 0)
    then rep_stosl (n / 4) v (four_times (c % 256)) mem
    else rep_stosb n v (c % 256) mem

-- One move of a word: the four bytes are read before they are written.
abbrev pub move_word : (d s : ℕ) → Memory → Memory
move_word d s mem =
    poke (d + 3) (mem (s + 3))
      (poke (d + 2) (mem (s + 2)) (poke (d + 1) (mem (s + 1)) (poke d (mem s) mem)))

-- `cld; rep movsb` and `cld; rep movsl`
unfoldable pub rep_movsb_up : (n d s : ℕ) → Memory → Memory
rep_movsb_up zero d s mem = mem
rep_movsb_up (suc n) d s mem = rep_movsb_up n (d + 1) (s + 1) (poke d (mem s) mem)

unfoldable pub rep_movsl_up : (n d s : ℕ) → Memory → Memory
rep_movsl_up zero d s mem = mem
rep_movsl_up (suc n) d s mem = rep_movsl_up n (d + 4) (s + 4) (move_word d s mem)

-- `std; rep movsb` and `std; rep movsl`; an address below 0 is not used again.
unfoldable pub rep_movsb_down : (n d s : ℕ) → Memory → Memory
rep_movsb_down zero d s mem = mem
rep_movsb_down (suc n) d s mem = rep_movsb_down n (d - 1) (s - 1) (poke d (mem s) mem)

unfoldable pub rep_movsl_down : (n d s : ℕ) → Memory → Memory
rep_movsl_down zero d s mem = mem
rep_movsl_down (suc n) d s mem = rep_movsl_down n (d - 4) (s - 4) (move_word d s mem)

abbrev pub by_words : (d s n : ℕ) → Bool
by_words d s n = (s % 4 == 0) && ((d % 4 == 0) && (n % 4 == 0))

-- The two branches of `memmove`.
unfoldable pub move_backward : (d s n : ℕ) → Memory → Memory
unfolding rep_movsb_down rep_movsl_down
move_backward d s n mem =
    let s' = s + n in
    let d' = d + n in
    if by_words d' s' n
    then rep_movsl_down (n / 4) (d' - 4) (s' - 4) mem
    else rep_movsb_down n (d' - 1) (s' - 1) mem

unfoldable pub move_forward : (d s n : ℕ) → Memory → Memory
unfolding rep_movsb_up rep_movsl_up
move_forward d s n mem =
    if by_words d s n then rep_movsl_up (n / 4) d s mem else rep_movsb_up n d s mem

unfoldable pub memmove : (dst src n : ℕ) → Memory → Memory
unfolding move_backward move_forward
memmove dst src n mem =
    if ltb src dst && ltb dst (src + n)
    then move_backward dst src n mem
    else move_forward dst src n mem

unfoldable pub memcpy : (dst src n : ℕ) → Memory → Memory
unfolding memmove
memcpy dst src n mem = memmove dst src n mem

unfoldable pub memcmp : (n v1 v2 : ℕ) → Memory → ℕ
memcmp zero v1 v2 mem = 0
memcmp (suc n) v1 v2 mem =
    let rest = memcmp n (v1 + 1) (v2 + 1) mem in
    if mem v1 == mem v2 then rest else difference (mem v1) (mem v2)

unfoldable pub memfind : (n s c : ℕ) → Memory → ℕ
memfind zero s c mem = s
memfind (suc n) s c mem = let rest = memfind n (s + 1) c mem in if mem s == c % 256 then s else rest
