-- ===== src/Kernel/Syscalls/Map.antt =====
-- `sys_page_map` of kern/syscall.c: the page that it maps.
use mathlib.Core.Path.{subst}
use Prim.Native.Nat.{bit_or}
use sistemas_operativos.Base.{
  ℕ, ◌+◌, ◌/◌, ◌^◌, ◌<◌, true, false, not, ◌&&◌, ◌||◌, ◌≡◌, ◌≢◌, ◌∙◌, arith, some,
}
use sistemas_operativos.Sched.State.{Ptr}
use sistemas_operativos.Vm.State.{Vm, ok, pte_page}
use sistemas_operativos.Vm.Pages.{incref}
use sistemas_operativos.Vm.Tables.{Pte, load_pte, pgdir_walk, page_lookup, page_insert}
use sistemas_operativos.Vm.Tables.Bits.{bit_or-zero, bit_or-div-page}
use sistemas_operativos.Vm.Tables.Remove.{place, Held}
use sistemas_operativos.Vm.Tables.Insert.{insert-lookup_other}
use sistemas_operativos.Kernel.State.{Kernel, returns}
use sistemas_operativos.Kernel.Envs.{envid2env}
use sistemas_operativos.Kernel.Memory.{has_w, env_page_map}
use sistemas_operativos.Kernel.Syscalls.{bad_va, sys_page_map}

-- `PTE_P | PTE_U` has no bits above the twelfth.
high_bits : (perm : ℕ) → bit_or perm 5 / 4096 ≡ perm / 4096
high_bits perm = bit_or-div-page perm 5 ∙ bit_or-zero (perm / 4096)

module _ (srcenvid srcva dstenvid dstva perm page : ℕ) (pte : Pte) (src dst : Ptr) (k : Kernel)
    (from : envid2env srcenvid true k ≡ returns src k)
    (to : envid2env dstenvid true k ≡ returns dst k)
    (aligned : (bad_va srcva || bad_va dstva) ≡ false)
    (mapped : page_lookup (k.rest src).env_pgdir srcva k.vm ≡ ok (some (page, pte)) k.vm)
    (allowed : (has_w (bit_or perm 5) && not (has_w (load_pte pte k.vm))) ≡ false) where
  map_inserts :
      (s : Vm)
      → page_insert (k.rest dst).env_pgdir page dstva (bit_or perm 5) k.vm ≡ ok true s
      → sys_page_map srcenvid srcva dstenvid dstva perm k ≡ returns tt (record k { vm = s })
  unfolding sys_page_map env_page_map
  map_inserts s done = ground (arith, from, to, aligned, mapped, allowed, done)

  -- Where the caller may use both environments, both addresses are aligned and below UTOP, a page is mapped
  -- at the source, not read-only where `perm` asks to write, the number of the page with the bits of `perm`
  -- from the twelfth on is below `npages`, the page has fewer than 65535 references, and the destination has
  -- or gets a page table, apart from its directory, in which the old page, if any, can lose a reference, `sys_page_map` succeeds, and the page found at `dstva` is the number of the source's page with
  -- the bits of `perm` from the twelfth on, which nothing checks.
  pub sys_page_map-page :
      (s₁ : Vm)
      → pgdir_walk (k.rest dst).env_pgdir dstva true k.vm
        ≡ ok (some (place (k.rest dst).env_pgdir dstva s₁)) s₁
      → bit_or page (perm / 4096) < s₁.npages
      → (place (k.rest dst).env_pgdir dstva s₁).0 ≢ (k.rest dst).env_pgdir
      → (s₁.pages page).pp_ref + 1 < 2 ^ 16
      → (load_pte (place (k.rest dst).env_pgdir dstva s₁) s₁ ≢ 0
          → Held (pte_page (load_pte (place (k.rest dst).env_pgdir dstva s₁) s₁)) (incref page s₁))
      → (k' : Kernel) × (sys_page_map srcenvid srcva dstenvid dstva perm k ≡ returns tt k')
        × (page_lookup (k.rest dst).env_pgdir dstva k'.vm
            ≡ ok (some (bit_or page (perm / 4096), place (k.rest dst).env_pgdir dstva s₁)) k'.vm)
  sys_page_map-page s₁ walk below apart fits held =
      let (s', done, found) =
        insert-lookup_other (k.rest dst).env_pgdir page dstva (bit_or perm 5) k.vm s₁ walk
          (rw (high_bits perm) below) apart fits held in
      (
        record k { vm = s' },
        map_inserts s' done,
        subst
            (λ (q : ℕ).
              page_lookup (k.rest dst).env_pgdir dstva s'
              ≡ ok (some (bit_or page q, place (k.rest dst).env_pgdir dstva s₁)) s')
            (high_bits perm) found,
      )
