-- ===== src/Vm/Store.antt =====
-- The stores of the kernel at addresses of the current environment, as the processor does them.
use sistemas_operativos.Base.{
  ℕ, ◌+◌, ◌-◌, ◌*◌, ◌/◌, ◌%◌, ◌^◌, ◌&&◌, List, [], ◌∷◌, ◌==◌, if◌then◌else◌,
}
use sistemas_operativos.Vm.State.{Vm, ok, panics, M, ◌>>◌, pdx, ptx, pte_page, put_word}

-- Byte `i` of page `p`.
abbrev pub set_byte : (p i b : ℕ) → Vm → Vm
set_byte p i b s =
    let unit = 256 ^ (i % 4) in
    let w = s.words p (i / 4) in put_word p (i / 4) (w - w / unit % 256 * unit + b % 256 * unit) s

-- A store of the kernel at an address of the user: it faults where the page is not there or is
-- read-only, since CR0_WP is set.
unfoldable pub store_byte : (pgdir va b : ℕ) → M (Unit {0})
store_byte pgdir va b s =
    let table = s.words pgdir (pdx va) in
    let entry = s.words (pte_page table) (ptx va) in
    if (table % 4 == 3) && (entry % 4 == 3)
    then ok tt (set_byte (pte_page entry) (va % 4096) b s)
    else panics

unfoldable pub store_words : (pgdir va : ℕ) → List ℕ → M (Unit {0})
unfolding store_byte
store_words pgdir va [] = ok tt
store_words pgdir va (w ∷ ws) = do
  store_byte pgdir va w
  store_byte pgdir (va + 1) (w / 2 ^ 8)
  store_byte pgdir (va + 2) (w / 2 ^ 16)
  store_byte pgdir (va + 3) (w / 2 ^ 24)
  store_words pgdir (va + 4) ws
