-- ===== src/Strings/Memory.antt =====
-- The string routines of lib/string.c, on a memory of bytes by address. `none` is the end of the fuel:
-- no NUL was met in as many rounds.
pub mod IsString
use sistemas_operativos.Base.{
  ℕ, zero, suc, ◌+◌, ◌-◌, ◌%◌, ◌^◌, Bool, not, ◌&&◌, ◌||◌, Option, none, some, ◌==◌, ltb, leb,
  if◌then◌else◌,
}
use sistemas_operativos.Base.Returns.{◌>>=◌}

abbrev pub Memory : Type 0
Memory = ℕ → ℕ

abbrev pub poke : (a c : ℕ) → Memory → Memory
poke a c mem b = if b == a then c else mem b

-- The loop of `strlen`, which has counted `n`.
pub strlen_from : (fuel n s : ℕ) → Memory → Option ℕ
strlen_from zero n s mem = none
strlen_from (suc fuel) n s mem =
    let rest = strlen_from fuel (n + 1) (s + 1) mem in if mem s == 0 then some n else rest

unfoldable pub strlen : (fuel s : ℕ) → Memory → Option ℕ
unfolding strlen_from
strlen fuel s mem = strlen_from fuel 0 s mem

-- The loop of `strnlen`, with `size` left.
unfoldable pub strnlen_from : (size n s : ℕ) → Memory → ℕ
strnlen_from zero n s mem = n
strnlen_from (suc size) n s mem =
    let rest = strnlen_from size (n + 1) (s + 1) mem in if mem s == 0 then n else rest

unfoldable pub strnlen : (s size : ℕ) → Memory → ℕ
unfolding strnlen_from
strnlen s size mem = strnlen_from size 0 s mem

unfoldable pub strcpy : (fuel dst src : ℕ) → Memory → Option Memory
strcpy zero dst src mem = none
strcpy (suc fuel) dst src mem =
    let mem₁ = poke dst (mem src) mem in
    let rest = strcpy fuel (dst + 1) (src + 1) mem₁ in if mem src == 0 then some mem₁ else rest

unfoldable pub strcat : (fuel dst src : ℕ) → Memory → Option Memory
unfolding strlen strcpy
strcat fuel dst src mem = do len ← strlen fuel dst mem; strcpy fuel (dst + len) src mem

-- The loop of `strncpy`.
unfoldable pub strncpy : (size dst src : ℕ) → Memory → Memory
strncpy zero dst src mem = mem
strncpy (suc size) dst src mem =
    let c = mem src in
    let mem₁ = poke dst c mem in
    strncpy size (dst + 1) (if mem₁ src == 0 then src else src + 1) mem₁

-- The loop of `strlcpy`; the result is the pointer and the memory.
unfoldable pub strlcpy_from : (size dst src : ℕ) → Memory → ℕ × Memory
strlcpy_from zero dst src mem = (dst, mem)
strlcpy_from (suc size) dst src mem =
    let rest = strlcpy_from size (dst + 1) (src + 1) (poke dst (mem src) mem) in
    if mem src == 0 then (dst, mem) else rest

unfoldable pub strlcpy : (dst src size : ℕ) → Memory → ℕ × Memory
unfolding strlcpy_from
strlcpy dst src zero mem = (0, mem)
strlcpy dst src (suc size) mem =
    let r = strlcpy_from size dst src mem in (r.0 - dst, poke r.0 0 r.1)

-- The difference of two bytes as an `int`.
abbrev pub difference : (x y : ℕ) → ℕ
difference x y = (x + 2 ^ 32 - y) % 2 ^ 32

unfoldable pub strcmp : (fuel p q : ℕ) → Memory → Option ℕ
strcmp zero p q mem = none
strcmp (suc fuel) p q mem =
    let rest = strcmp fuel (p + 1) (q + 1) mem in
    if not (mem p == 0) && (mem p == mem q) then rest else some (difference (mem p) (mem q))

unfoldable pub strncmp : (n p q : ℕ) → Memory → ℕ
strncmp zero p q mem = 0
strncmp (suc n) p q mem =
    let rest = strncmp n (p + 1) (q + 1) mem in
    if not (mem p == 0) && (mem p == mem q) then rest else difference (mem p) (mem q)

-- `none` inside is the null pointer.
unfoldable pub strchr : (fuel s c : ℕ) → Memory → Option (Option ℕ)
strchr zero s c mem = none
strchr (suc fuel) s c mem =
    let rest = strchr fuel (s + 1) c mem in
    if mem s == 0 then some none else if mem s == c then some (some s) else rest

unfoldable pub strfind : (fuel s c : ℕ) → Memory → Option ℕ
strfind zero s c mem = none
strfind (suc fuel) s c mem =
    let rest = strfind fuel (s + 1) c mem in
    if mem s == 0 then some s else if mem s == c then some s else rest
