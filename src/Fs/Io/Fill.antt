-- ===== src/Fs/Io/Fill.antt =====
-- Growth of a file by truncation in fs.c, where it stays within a block.
use sistemas_operativos.Base.{
  ℕ, suc, ◌+◌, ◌-◌, ◌*◌, ◌/◌, ◌%◌, ◌≤◌, ◌<◌, ◌≡◌, refl, ap, ◌∙◌, false, some, arith, ◌==◌, ltb,
  if◌then◌else◌,
}
use sistemas_operativos.Fs.State.{block_size, max_block_count, kib, Fs, Ret, ok}
use sistemas_operativos.Fs.Inodes.{get_inode_block}
use sistemas_operativos.Fs.Io.{
  null_buffer, fiuba_write, write_loop, fill_loop, fill_with_null_bytes,
}
use sistemas_operativos.Fs.Io.Within.{
  write_loop-Written, end_write-keeps, get_inode_block-bytes, fiuba_write-within,
}

-- The size and the blocks after a write at the end that stays within the last block.
record Grown (i n : ℕ) (fs : Fs) (r : Ret × Fs) : Type 0 where
  done : r.0 ≡ ok n
  size : (r.1.inodes i).size ≡ (fs.inodes i).size + n
  blocks : (k : ℕ) → get_inode_block (r.1.inodes i) k r.1 ≡ get_inode_block (fs.inodes i) k fs

fiuba_write-Grown :
    (i n b : ℕ) (buffer : ℕ → ℕ) (fs : Fs)
    → let s = (fs.inodes i).size in
      s / block_size < max_block_count
      → s % block_size + n < block_size
      → get_inode_block (fs.inodes i) (s / block_size) fs ≡ some b
      → Grown i n fs (fiuba_write i buffer n s fs)
fiuba_write-Grown i n b buffer fs small room at =
    let s = (fs.inodes i).size in
    let w = (write_loop-Written n i buffer 0 (s % block_size) b fs room).1 in
    let wl = (write_loop n i buffer 0 (s % block_size) (some b) fs).1 in
    rw (fiuba_write-within i n s b buffer fs (omega arith) small room at) record {
      done = refl;
      size = (end_write-keeps i n s b 0 wl).0;
      blocks = λ k.
          (end_write-keeps i n s b k wl).2
          ∙ (ap (λ (f : Fs). get_inode_block (f.inodes i) k f) w.rest
              ∙ get_inode_block-bytes i k wl.bytes fs);
    }

fill_loop-step :
    (behind : ℕ → ℕ) (fuel i offset chunk n : ℕ) (fs : Fs)
    → (offset == 0) ≡ false
    → let w = fiuba_write i (null_buffer behind) offset (fs.inodes i).size fs in
      let left = offset - chunk in
      w.0 ≡ ok n
      → fill_loop behind (suc fuel) i offset chunk fs
        ≡ fill_loop behind fuel i left (if ltb left chunk then left else chunk) w.1
unfolding fill_loop
fill_loop-step behind fuel i offset chunk n fs more done = rw (more, done) refl

fill_loop-end :
    (behind : ℕ → ℕ) (fuel i chunk : ℕ) (fs : Fs)
    → fill_loop behind (suc fuel) i 0 chunk fs ≡ (ok 0, fs)
unfolding fill_loop
fill_loop-end behind fuel i chunk fs = refl

-- Two turns of the loop: the first writes all and counts off 1 KiB, the second writes the rest again.
two_turns :
    (behind : ℕ → ℕ) (m i n b : ℕ) (fs : Fs)
    → let s = (fs.inodes i).size in
      kib < n
      → n ≤ 2 * kib
      → s / block_size < max_block_count
      → s % block_size + 2 * n < block_size
      → get_inode_block (fs.inodes i) (s / block_size) fs ≡ some b
      → let r = fill_loop behind (suc (suc (suc m))) i n kib fs in
        (r.0 ≡ ok 0) × ((r.1.inodes i).size ≡ s + n + (n - kib))
two_turns behind m i n b fs more most small room at =
    let s = (fs.inodes i).size in
    let one = (fiuba_write i (null_buffer behind) n s fs).1 in
    let g = fiuba_write-Grown i n b (null_buffer behind) fs small (omega arith) at in
    let same_block : (one.inodes i).size / block_size ≡ s / block_size = omega (arith, g.size) in
    let at' : get_inode_block (one.inodes i) ((one.inodes i).size / block_size) one ≡ some b =
      ap (λ (k : ℕ). get_inode_block (one.inodes i) k one) same_block
      ∙ (g.blocks (s / block_size) ∙ at) in
    let g' =
      fiuba_write-Grown i (n - kib) b (null_buffer behind) one (omega (arith, same_block))
        (omega (arith, g.size)) at' in
    let chunk : (if ltb (n - kib) kib then n - kib else kib) ≡ n - kib = ground arith in
    let rest : n - kib - (n - kib) ≡ 0 = omega arith in
    rw
      (
        fill_loop-step behind (suc (suc m)) i n kib n fs (ground arith) g.done,
        chunk,
        fill_loop-step behind (suc m) i (n - kib) (n - kib) (n - kib) one (ground arith) g'.done,
        rest,
        fill_loop-end,
      )
      (refl, omega (arith, g.size, g'.size))

fill_with_null_bytes-loop :
    (behind : ℕ → ℕ) (i n : ℕ) (fs : Fs)
    → kib < n
    → fill_with_null_bytes behind i ((fs.inodes i).size + n) fs
      ≡ fill_loop behind (suc (suc (suc (n - 2)))) i n kib fs
unfolding fill_with_null_bytes
fill_with_null_bytes-loop behind i n fs more =
    let offset : (fs.inodes i).size + n - (fs.inodes i).size ≡ n = omega arith in
    let chunk : (if ltb n kib then n else kib) ≡ kib = ground arith in
    let rounds : n + 1 ≡ suc (suc (suc (n - 2))) = omega arith in
    rw (offset, chunk) (ap (λ (k : ℕ). fill_loop behind k i n kib fs) rounds)

-- `fill_with_null_bytes` by more than 1 KiB and at most 2 KiB, within a block, reports success and
-- leaves the file longer than was asked, by what is over 1 KiB.
fill_with_null_bytes-overshoots :
    (behind : ℕ → ℕ) (i n b : ℕ) (fs : Fs)
    → let s = (fs.inodes i).size in
      kib < n
      → n ≤ 2 * kib
      → s / block_size < max_block_count
      → s % block_size + 2 * n < block_size
      → get_inode_block (fs.inodes i) (s / block_size) fs ≡ some b
      → let r = fill_with_null_bytes behind i (s + n) fs in
        (r.0 ≡ ok 0) × ((r.1.inodes i).size ≡ s + n + (n - kib))
fill_with_null_bytes-overshoots behind i n b fs more most small room at =
    rw (fill_with_null_bytes-loop behind i n fs more)
      (two_turns behind (n - 2) i n b fs more most small room at)
