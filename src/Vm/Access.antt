-- ===== src/Vm/Access.antt =====
-- `user_mem_check` of kern/pmap.c.
pub mod Checked
use Prim.Native.Nat.{bit_or, bit_and}
use sistemas_operativos.Base.{
  ℕ, zero, suc, ◌+◌, ◌-◌, ◌*◌, ◌/◌, ◌%◌, ◌^◌, Bool, true, false, not, ◌&&◌, Option, none, some,
  ◌==◌, ltb, leb, if◌then◌else◌,
}
use sistemas_operativos.Vm.State.{
  Vm, Run, ok, panics, M, ◌>>=◌, ◌>>◌, return, get, put, panic, pgsize, pte_p, utop, round_down,
  round_up,
}
use sistemas_operativos.Vm.Tables.{Pte, load_pte, pgdir_walk}

-- `none` is 0; `some a` is -E_FAULT with `a` in `user_mem_check_addr`.
unfoldable pub check_pages : (n : ℕ) → (pgdir va_lo va_act perm : ℕ) → M (Option ℕ)
check_pages zero pgdir va_lo va_act perm = return none
check_pages (suc n) pgdir va_lo va_act perm = do
  found ← pgdir_walk pgdir va_act false
  s ← get
  let need = bit_or perm pte_p
  let bad = some (if ltb va_lo va_act then va_act else va_lo)
  elim found as (λ _. M (Option ℕ)) [
    | none ↦ return bad
    | some pte ↦
        if bit_and (load_pte pte s) need == need
        then check_pages n pgdir va_lo (va_act + pgsize) perm
        else return bad
  ]

-- The number of pages between the rounded ends, which is how often the loop runs.
unfoldable pub user_mem_check : (pgdir va len perm : ℕ) → M (Option ℕ)
unfolding check_pages
user_mem_check pgdir va len perm =
    let va_hi = round_up ((va + len) % 2 ^ 32) in
    if ltb utop va_hi
    then return (some va)
    else check_pages ((va_hi - round_down va) / 4096) pgdir va (round_down va) perm
