-- ===== src/Fs/Io/Truncate.antt =====
-- Truncation to a smaller size in fs.c.
use sistemas_operativos.Base.{
  ℕ, ◌+◌, ◌-◌, ◌/◌, ◌%◌, ◌≤◌, ◌≡◌, refl, false, arith, ◌==◌, ltb, if◌then◌else◌, ==_refl,
}
use sistemas_operativos.Fs.State.{block_size, Fs, ok, put_inode}
use sistemas_operativos.Fs.Inodes.{deallocate_blocks_from_inode}
use sistemas_operativos.Fs.Inodes.Release.{Released, deallocate_blocks_from_inode-Released}
use sistemas_operativos.Fs.Io.{truncate_inode}

-- The least number of blocks for a size.
abbrev pub blocks_for : ℕ → ℕ
blocks_for size = (size + block_size - 1) / block_size

truncate_inode-equation :
    (behind : ℕ → ℕ) (i size : ℕ) (fs : Fs)
    → size ≤ (fs.inodes i).size
    → truncate_inode behind i size fs ≡ (
        let fs₁ = deallocate_blocks_from_inode i (blocks_for size) fs in
        (ok 0, put_inode i (record (fs₁.inodes i) { size = size }) fs₁))
unfolding truncate_inode
truncate_inode-equation behind i size fs smaller =
    let early : ltb (fs.inodes i).size size ≡ false = ground arith in
    let amount : (if size % block_size == 0 then size / block_size else size / block_size + 1)
        ≡ blocks_for size =
      ground arith in
    rw (early, amount) refl

Released-size :
    (i m size : ℕ) (fs fs₁ : Fs)
    → Released i m fs fs₁
    → Released i m fs (put_inode i (record (fs₁.inodes i) { size = size }) fs₁)
Released-size i m size fs fs₁ r = record {
  amount = ground (arith, ==_refl i, r.amount);
  freed = r.freed;
  kept = r.kept;
  still_free = r.still_free;
}

-- `truncate_inode` to a size that is not greater ends with success and that size, keeps the least
-- number of blocks that hold it and frees the others of the inode, and no more.
pub truncate_inode-shrinks :
    (behind : ℕ → ℕ) (i size : ℕ) (fs : Fs)
    → size ≤ (fs.inodes i).size
    → blocks_for size ≤ (fs.inodes i).block_amount
    → let r = truncate_inode behind i size fs in
      (r.0 ≡ ok 0) × ((r.1.inodes i).size ≡ size) × Released i (blocks_for size) fs r.1
truncate_inode-shrinks behind i size fs smaller enough =
    let d = deallocate_blocks_from_inode-Released i (blocks_for size) fs enough in
    rw (truncate_inode-equation behind i size fs smaller)
      (refl, ground (arith, ==_refl i), Released-size i (blocks_for size) size fs _ d)
