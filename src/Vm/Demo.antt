-- ===== src/Vm/Demo.antt =====
-- A memory of 64 pages. Page 2 is a page directory with the page table 3, which maps page 20 at 0x1000;
-- page 4 is one with the page table 5, which maps nothing. Pages 10 and 11 are free.
use sistemas_operativos.Base.{ℕ, ◌+◌, ◌*◌, ◌==◌, ◌&&◌, none, some, if◌then◌else◌}
use sistemas_operativos.Vm.State.{PageInfo, Vm}

abbrev pub demo_page : ℕ → PageInfo
demo_page p = record {
  pp_link = if p == 10 then some 11 else none;
  pp_ref = if (p == 10) then 0 else if p == 11 then 0 else 1;
}

abbrev pub demo_word : (page place : ℕ) → ℕ
demo_word p k =
    if (p == 2) && (k == 0)
    then 3 * 4096 + 7
    else if (p == 3) && (k == 1)
    then 20 * 4096 + 7
    else if (p == 4) && (k == 0)
    then 5 * 4096 + 7
    else 0

abbrev pub demo_vm : Vm
demo_vm = record { pages = demo_page; page_free_list = some 10; npages = 64; words = demo_word }
