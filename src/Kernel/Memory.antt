-- ===== src/Kernel/Memory.antt =====
-- The memory of an environment: `region_alloc` of kern/env.c, `user_mem_assert` of kern/pmap.c, and
-- the helpers at the start of kern/syscall.c.
use Prim.Native.Nat.{bit_or, bit_and}
use sistemas_operativos.Base.{
  ℕ, zero, suc, ◌+◌, ◌-◌, ◌/◌, ◌%◌, ◌^◌, Bool, true, false, not, ◌&&◌, ◌||◌, Option, none, some,
  ◌==◌, ltb, if◌then◌else◌,
}
use sistemas_operativos.Sched.State.{Ptr}
use sistemas_operativos.Vm.State.{round_down, round_up, utop, pgsize}
use sistemas_operativos.Vm.Pages.{page_alloc}
use sistemas_operativos.Vm.Tables.{load_pte, page_lookup, page_insert}
use sistemas_operativos.Vm.Access.{user_mem_check}
use sistemas_operativos.Kernel.State.{
  e_inval, e_no_mem, faults, K, ◌>>=◌, ◌>>◌, return, fail, fault, get, on_vm,
}
use sistemas_operativos.Kernel.Envs.{env_destroy}

-- The loop of `region_alloc` over `n` pages.
pub region_pages : (n pgdir va : ℕ) → K (Unit {0})
region_pages zero pgdir va = return tt
region_pages (suc n) pgdir va = do
  found ← on_vm (page_alloc false)
  done ← elim found as (λ _. K Bool) [ none ↦ fault | some p ↦ on_vm (page_insert pgdir p va 6) ]
  if done then return tt else fault
  region_pages n pgdir (va + pgsize)

unfoldable pub region_alloc : Ptr → (va len : ℕ) → K (Unit {0})
unfolding region_pages
region_alloc e va len k =
    let va_hi = round_up ((va + len) % 2 ^ 32) in
    if ltb utop va_hi
    then faults
    else region_pages ((va_hi - round_down va) / 4096) (k.rest e).env_pgdir (round_down va) k

unfoldable pub user_mem_assert : (cpu : ℕ) → Ptr → (va len perm : ℕ) → K (Unit {0})
unfolding env_destroy
user_mem_assert cpu e va len perm = do
  k ← get
  bad ← on_vm (user_mem_check (k.rest e).env_pgdir va len (bit_or perm 4))
  elim bad as (λ _. K (Unit {0})) [ none ↦ return tt | some a ↦ env_destroy cpu e ]

-- Whether an entry or a permission has PTE_P, PTE_W and PTE_U.
abbrev pub has_p : ℕ → Bool
has_p x = x % 2 == 1

abbrev pub has_w : ℕ → Bool
has_w x = x / 2 % 2 == 1

abbrev pub has_u : ℕ → Bool
has_u x = x / 4 % 2 == 1

-- `perm & ~PTE_SYSCALL` is 0.
abbrev pub only_syscall_bits : ℕ → Bool
only_syscall_bits perm = bit_and perm (2 ^ 32 - 1 - 0xe07) == 0

-- `pte` is what the pointer points to, if it is not NULL; `false` is -E_INVAL.
unfoldable pub check_perm : (perm : ℕ) → (pte : Option ℕ) → Bool
check_perm perm pte =
    if not (only_syscall_bits perm)
    then false
    else if not (has_p perm) || not (has_u perm)
    then false
    else elim pte [
      | none ↦ true
      | some e ↦ not (not (e == 0) && not (has_p e)) && not (has_w perm && not (has_w e))
    ]

-- A full `page_insert` gives -E_NO_MEM.
abbrev pub insert : (pgdir page va perm : ℕ) → K (Unit {0})
insert pgdir page va perm = do
  done ← on_vm (page_insert pgdir page va perm)
  if done then return tt else fail e_no_mem

unfoldable pub env_page_alloc : Ptr → (va perm : ℕ) → K (Unit {0})
unfolding check_perm
env_page_alloc e va perm = do
  if check_perm perm none then return tt else fail e_inval
  found ← on_vm (page_alloc true)
  k ← get
  elim found as (λ _. K (Unit {0})) [
    | none ↦ fail e_no_mem
    | some p ↦ insert (k.rest e).env_pgdir p va perm
  ]

-- `(perm & PTE_W) & ~(PTE_W & *srcpte)` is that a read-only page would become writable.
unfoldable pub env_page_map :
    (srcenv : Ptr) → (srcva : ℕ) → (dstenv : Ptr) → (dstva perm : ℕ) → K (Unit {0})
env_page_map srcenv srcva dstenv dstva perm = do
  k ← get
  found ← on_vm (page_lookup (k.rest srcenv).env_pgdir srcva)
  elim found as (λ _. K (Unit {0})) [
    | none ↦ fail e_inval
    | some (page, pte) ↦
        if has_w perm && not (has_w (load_pte pte k.vm))
        then fail e_inval
        else insert (k.rest dstenv).env_pgdir page dstva perm
  ]
