-- ===== src/Vm/State.antt =====
-- The data of kern/pmap.c. A pointer to an element of `pages` is its number, which is below `npages`
-- (so that `page2kva` of it cannot panic), and a page directory or a page table is the number of the
-- page that holds it. A page is seen as 1024 words of 32 bits.
use Prim.Native.Nat.{bit_or}
use sistemas_operativos.Base.{ℕ, ◌+◌, ◌*◌, ◌/◌, ◌%◌, ◌^◌, Option, ◌==◌, if◌then◌else◌}

pub record PageInfo : Type 0 where
  pub pp_link : Option ℕ
  pub pp_ref : ℕ

-- `words p k` is the word at place `k` of page `p`.
pub record Vm : Type 0 where
  pub pages : ℕ → PageInfo
  pub page_free_list : Option ℕ
  pub npages : ℕ
  pub words : ℕ → ℕ → ℕ

-- How a call ends: it returns, or the kernel panics.
pub data Run {ℓ} (S : Type ℓ) (A : Type 0) : Type ℓ where
  ok : A → S → Run S A
  panics : Run S A

-- A function of the kernel on the state of the pages.
abbrev pub M : Type 0 → Type 0
M A = Vm → Run Vm A

infixl 5 ◌>>=◌ ◌>>◌
abbrev pub ◌>>=◌ : {A B : Type 0} → M A → (A → M B) → M B
◌>>=◌ m f s = elim (m s) [ ok a s' ↦ f a s' | panics ↦ panics ]

abbrev pub ◌>>◌ : {A B : Type 0} → M A → M B → M B
m >> k = m >>= λ _. k

abbrev pub return : {A : Type 0} → A → M A
return a s = ok a s

abbrev pub get : M Vm
get s = ok s s

abbrev pub put : Vm → M (Unit {0})
put s' s = ok tt s'

abbrev pub panic : {A : Type 0} → M A
panic s = panics

-- PGSIZE, UTOP and the bits PTE_P, PTE_W and PTE_U.
abbrev pub pgsize : ℕ
pgsize = 4096

abbrev pub utop : ℕ
utop = 0xeec00000

abbrev pub pte_p : ℕ
pte_p = 1

abbrev pub pte_w : ℕ
pte_w = 2

abbrev pub pte_u : ℕ
pte_u = 4

-- PTE_PWT | PTE_PCD
abbrev pub pte_uncached : ℕ
pte_uncached = 24

-- PDX, PTX and the page of PTE_ADDR.
abbrev pub pdx : ℕ → ℕ
pdx va = va / 2 ^ 22 % 1024

abbrev pub ptx : ℕ → ℕ
ptx va = va / 4096 % 1024

abbrev pub pte_page : ℕ → ℕ
pte_page e = e / 4096

-- `page2pa(pp) | perm | PTE_P`
abbrev pub make_pte : (page perm : ℕ) → ℕ
make_pte page perm = bit_or (bit_or (page * 4096) perm) pte_p

-- ROUNDDOWN and ROUNDUP to PGSIZE, in 32 bits.
abbrev pub round_down : ℕ → ℕ
round_down a = a / 4096 * 4096

abbrev pub round_up : ℕ → ℕ
round_up a = (a + 4095) % 2 ^ 32 / 4096 * 4096

abbrev pub update {ℓ} : {A : Type ℓ} → (ℕ → A) → ℕ → A → ℕ → A
update f p v q = if q == p then v else f q

abbrev pub put_page : ℕ → PageInfo → Vm → Vm
put_page p v s = record s { pages = update s.pages p v }

abbrev pub put_word : (page place value : ℕ) → Vm → Vm
put_word p k v s = record s { words = update s.words p (update (s.words p) k v) }
