-- ===== src/Fs/Io/Within.antt =====
-- Reads and writes of fs.c that stay within one block.
use sistemas_operativos.Base.{
  ℕ, zero, suc, ◌+◌, ◌-◌, ◌*◌, ◌/◌, ◌%◌, ◌≤◌, ◌<◌, ◌≡◌, refl, ap, ◌∙◌, ◌⊎◌, inl, inr, false, Option,
  some, List, [], ◌∷◌, arith, ◌==◌, ltb, leb, Bool-cases, ==_refl,
}
use sistemas_operativos.Fs.State.{block_size, max_block_count, Fs, put_byte}
use sistemas_operativos.Fs.Inodes.{
  get_inode_block, get_inode_indirect_block_n, notify_access, notify_modif,
}
use sistemas_operativos.Fs.Io.{calc_last_block_idx, write_loop, start_block, end_write, fiuba_write}

-- The `n` values of `f` from `a` on.
abbrev pub span : (f : ℕ → ℕ) → (a n : ℕ) → List ℕ
span f a zero = []
span f a (suc n) = f a ∷ span f (a + 1) n

-- What the loop of `fiuba_write` does within a block.
pub record Written (fs fs' : Fs) (buffer : ℕ → ℕ) (from a n : ℕ) : Type 0 where
  pub rest : fs' ≡ record fs { bytes = fs'.bytes }
  pub inside : (k : ℕ) → k < n → fs'.bytes (a + k) ≡ buffer (from + k)
  pub outside : (c : ℕ) → (c < a) ⊎ (a + n ≤ c) → fs'.bytes c ≡ fs.bytes c

write_loop-step :
    (n i : ℕ) (buffer : ℕ → ℕ) (from pos b : ℕ) (fs : Fs)
    → leb block_size (pos + 1) ≡ false
    → write_loop (suc n) i buffer from pos (some b) fs
      ≡ write_loop n i buffer
          (from + 1)
          (pos + 1)
          (some b)
          (put_byte (block_size * b + pos) (buffer from) fs)
unfolding write_loop
write_loop-step n i buffer from pos b fs e = rw e refl

pub write_loop-Written :
    (n i : ℕ) (buffer : ℕ → ℕ) (from pos b : ℕ) (fs : Fs)
    → pos + n < block_size
    → ((write_loop n i buffer from pos (some b) fs).0 ≡ some b)
      × Written fs
          (write_loop n i buffer from pos (some b) fs).1
          buffer
          from
          (block_size * b + pos)
          n
unfolding write_loop
write_loop-Written zero i buffer from pos b fs room =
    (refl, record { rest = refl; inside = λ k l. absurd (omega arith); outside = λ c o. refl })
write_loop-Written (suc n) i buffer from pos b fs room =
    let fs₁ = put_byte (block_size * b + pos) (buffer from) fs in
    let go = write_loop-Written n i buffer (from + 1) (pos + 1) b fs₁ (omega arith) in
    let w = go.1 in
    rw (write_loop-step n i buffer from pos b fs (ground arith)) (
      go.0,
      record {
        rest = w.rest;
        inside = λ k l. elim (Bool-cases (k == 0)) [
          | inl first ↦
              let here = w.outside (block_size * b + pos) (inl (omega arith)) in
              ground (arith, here, first)
          | inr later ↦ let there = w.inside (k - 1) (ground arith) in ground (arith, there, later)
        ];
        outside = λ c o. let same = w.outside c (ground arith) in ground (arith, same);
      },
    )

pub end_write-keeps :
    (i size offset b k : ℕ) (fs : Fs)
    → let s = (end_write i size offset (some b, fs)).1 in
      ((s.inodes i).size ≡ offset + size)
      × ((c : ℕ) → s.bytes c ≡ fs.bytes c)
      × (get_inode_block (s.inodes i) k s ≡ get_inode_block (fs.inodes i) k fs)
unfolding notify_access notify_modif get_inode_block get_inode_indirect_block_n
end_write-keeps i size offset b k fs =
    (ground (arith, ==_refl i), λ c. refl, ground (arith, ==_refl i))

pub get_inode_block-bytes :
    (i k : ℕ) (bytes : ℕ → ℕ) (fs : Fs)
    → let s = record fs { bytes = bytes } in
      get_inode_block (s.inodes i) k s ≡ get_inode_block (fs.inodes i) k fs
unfolding get_inode_block get_inode_indirect_block_n
get_inode_block-bytes i k bytes fs = refl

start_block-old :
    (i k b : ℕ) (fs : Fs)
    → get_inode_block (fs.inodes i) k fs ≡ some b
    → start_block i k fs ≡ (some b, fs)
unfolding start_block
start_block-old i k b fs at = rw (start_block, at) refl

calc_last_block_idx-within :
    (idx pos size : ℕ)
    → idx < max_block_count
    → pos + size < block_size
    → leb max_block_count (calc_last_block_idx idx pos size) ≡ false
unfolding calc_last_block_idx
calc_last_block_idx-within idx pos size small one_block =
    let whole : size / block_size ≡ 0 = omega arith in
    let part : size % block_size ≡ size = omega arith in
    let last : leb block_size (size % block_size + pos) ≡ false = ground (arith, part) in
    rw last (ground (arith, whole))

pub fiuba_write-within :
    (i size offset b : ℕ) (buffer : ℕ → ℕ) (fs : Fs)
    → offset ≤ (fs.inodes i).size
    → offset / block_size < max_block_count
    → offset % block_size + size < block_size
    → get_inode_block (fs.inodes i) (offset / block_size) fs ≡ some b
    → fiuba_write i buffer size offset fs
      ≡ end_write i size offset
          (some b, (write_loop size i buffer 0 (offset % block_size) (some b) fs).1)
unfolding fiuba_write
fiuba_write-within i size offset b buffer fs inside small one_block at =
    let early : ltb (fs.inodes i).size offset ≡ false = ground arith in
    let room =
      calc_last_block_idx-within (offset / block_size) (offset % block_size) size small one_block in
    let w = (write_loop-Written size i buffer 0 (offset % block_size) b fs one_block).0 in
    let start = start_block-old i (offset / block_size) b fs at in
    rw (early, room, start)
      (ap
          (λ (r : Option ℕ × Fs).
            end_write i size offset (write_loop size i buffer 0 (offset % block_size) (some b) r.1))
          start
        ∙ (λ t.
            end_write i size offset
              (w t, (write_loop size i buffer 0 (offset % block_size) (some b) fs).1)))
