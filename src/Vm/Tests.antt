-- ===== src/Vm/Tests.antt =====
-- The theorems on kern/pmap.c at the memory of `Demo`.
use sistemas_operativos.Base.{
  ℕ, ◌+◌, ◌*◌, ◌==◌, ◌≡◌, ◌<◌, refl, true, none, some, [], ◌∷◌, arith, if◌then◌else◌,
}
use sistemas_operativos.Vm.State.{Vm, ok, round_down, utop}
use sistemas_operativos.Vm.Pages.{page_init, page_alloc, page_free, incref}
use sistemas_operativos.Vm.Pages.FreeList.{Chain, page_init-Chain, page_alloc-Chain}
use sistemas_operativos.Vm.Tables.{make_table, find_pte, pgdir_walk, page_lookup, page_insert}
use sistemas_operativos.Vm.Tables.Remove.{place, Held, uses}
use sistemas_operativos.Vm.Tables.Insert.{page_insert-page_lookup}
use sistemas_operativos.Vm.Access.{check_pages, user_mem_check}
use sistemas_operativos.Vm.Access.Checked.{Allowed, user_mem_check-Allowed}
use sistemas_operativos.Vm.Demo.{demo_vm}

abbrev unlisted : Vm
unlisted = record demo_vm { page_free_list = none; npages = 10 }

page_init-Chain_example :
    Chain
      (page_init 300 unlisted).page_free_list
      (9 ∷ 8 ∷ 6 ∷ 5 ∷ 4 ∷ 3 ∷ 2 ∷ 1 ∷ [])
      (page_init 300 unlisted).pages
page_init-Chain_example = page_init-Chain 300 unlisted refl

page_alloc-Chain_example :
    (s₁ s₂ : Vm) × (page_alloc true demo_vm ≡ ok (some 10) s₁)
    × Chain s₁.page_free_list (11 ∷ []) s₁.pages
    × ((s₁.pages 10).pp_link ≡ none)
    × (page_free 10 s₁ ≡ ok tt s₂)
    × Chain s₂.page_free_list (10 ∷ 11 ∷ []) s₂.pages
page_alloc-Chain_example =
    page_alloc-Chain true 10 (11 ∷ []) demo_vm (refl, (refl, refl)) (refl, (refl, tt)) refl

walk : pgdir_walk 2 0x1000 true demo_vm ≡ ok (some (place 2 0x1000 demo_vm)) demo_vm
unfolding pgdir_walk make_table find_pte
walk = refl

twenty : Held 20 (incref 20 demo_vm)
twenty = record { below = refl; used = omega arith; fits = omega arith; unlinked = refl }

-- Page 20 is inserted where it is already mapped, and keeps its one reference.
page_insert-page_lookup_example :
    (s' : Vm) × (page_insert 2 20 0x1000 7 demo_vm ≡ ok true s')
    × (page_lookup 2 0x1000 s' ≡ ok (some (20, place 2 0x1000 demo_vm)) s')
    × ((p : ℕ)
        → (s'.pages p).pp_ref + uses (20 * 4096 + 7) p
          ≡ (demo_vm.pages p).pp_ref + (if 20 == p then 1 else 0))
page_insert-page_lookup_example =
    page_insert-page_lookup 2 20 0x1000 7 demo_vm demo_vm walk (omega arith) (omega arith)
      (λ e. omega arith) (omega arith) (λ ne. twenty)

checked : user_mem_check 2 0x1004 8 4 demo_vm ≡ ok none demo_vm
unfolding user_mem_check check_pages pgdir_walk make_table find_pte
checked = refl

user_mem_check-Allowed_example : ◌<◌ 0x1006 utop × Allowed 2 (round_down 0x1006) 4 demo_vm
user_mem_check-Allowed_example =
    user_mem_check-Allowed 2 0x1004 8 4 demo_vm demo_vm (omega arith) checked 0x1006 (omega arith)
      (omega arith)
