-- ===== src/Fs/Inodes/Release.antt =====
-- What `deallocate_blocks_from_inode` of fs.c frees, and what it leaves.
use sistemas_operativos.Base.{
  ℕ, zero, suc, ◌+◌, ◌-◌, ◌≤◌, ◌<◌, ◌≡◌, ◌≢◌, refl, sym, ◌∙◌, false, some, arith, ◌==◌, leb,
  if◌then◌else◌, Bool-cases, inl, inr, ==_refl, ==→eq, ne→==,
}
use sistemas_operativos.Fs.State.{inode_indirect_block_idx, Inode, Fs}
use sistemas_operativos.Fs.Inodes.{
  get_inode_block, get_inode_indirect_block_n, drop_last_block, drop_blocks,
  deallocate_blocks_from_inode,
}

-- The block of an inode at a place below its count.
abbrev pub block_no : Inode → ℕ → Fs → ℕ
block_no inode k fs =
    if leb inode_indirect_block_idx k
    then fs.pointers (inode.blocks inode_indirect_block_idx) (k - inode_indirect_block_idx)
    else inode.blocks k

-- The blocks from `m` on are free, the count is `m`, and no other block changes its mark.
pub record Released (i m : ℕ) (fs fs' : Fs) : Type 0 where
  pub amount : (fs'.inodes i).block_amount ≡ m
  pub freed :
      (k : ℕ)
      → m ≤ k
      → k < (fs.inodes i).block_amount
      → fs'.data_bitmap (block_no (fs.inodes i) k fs) ≡ false
  pub kept :
      (n : ℕ)
      → ((k : ℕ) → m ≤ k → k < (fs.inodes i).block_amount → block_no (fs.inodes i) k fs ≢ n)
      → fs'.data_bitmap n ≡ fs.data_bitmap n
  pub still_free : (n : ℕ) → fs.data_bitmap n ≡ false → fs'.data_bitmap n ≡ false

-- One turn frees the last block and keeps the places of the others.
record Dropped (i : ℕ) (fs fs' : Fs) : Type 0 where
  count : (fs'.inodes i).block_amount ≡ (fs.inodes i).block_amount - 1
  places : (k : ℕ) → block_no (fs'.inodes i) k fs' ≡ block_no (fs.inodes i) k fs
  mark :
      (n : ℕ)
      → fs'.data_bitmap n ≡ (
          if n == block_no (fs.inodes i) ((fs.inodes i).block_amount - 1) fs
          then false
          else fs.data_bitmap n)

last_block :
    (i : ℕ) (fs : Fs)
    → 0 < (fs.inodes i).block_amount
    → get_inode_block (fs.inodes i) ((fs.inodes i).block_amount - 1) fs
      ≡ some (block_no (fs.inodes i) ((fs.inodes i).block_amount - 1) fs)
unfolding get_inode_block get_inode_indirect_block_n
last_block i fs pos = ground arith

drop_last_block-Dropped :
    (i : ℕ) (fs : Fs) → 0 < (fs.inodes i).block_amount → Dropped i fs (drop_last_block i fs)
unfolding drop_last_block
drop_last_block-Dropped i fs pos =
    rw (drop_last_block, last_block i fs pos)
      record {
        count = ground (arith, ==_refl i);
        places = λ k. ground (arith, ==_refl i);
        mark = λ n. refl;
      }

drop_blocks-Released :
    (n i m : ℕ) (fs : Fs)
    → (fs.inodes i).block_amount ≡ m + n
    → Released i m fs (drop_blocks n i fs)
unfolding drop_blocks
drop_blocks-Released zero i m fs count = record {
  amount = omega (arith, count);
  freed = λ k l r. absurd (omega (arith, count));
  kept = λ n o. refl;
  still_free = λ n f. f;
}
drop_blocks-Released (suc n) i m fs count =
    let d = drop_last_block-Dropped i fs (omega (arith, count)) in
    let rest = drop_blocks-Released n i m (drop_last_block i fs) (omega (arith, d.count, count)) in
    record {
      amount = rest.amount;
      freed = λ k l r. elim (Bool-cases (k == (fs.inodes i).block_amount - 1)) [
        | inl last ↦ rw (==→eq k ((fs.inodes i).block_amount - 1) last) (
            rest.still_free (block_no (fs.inodes i) ((fs.inodes i).block_amount - 1) fs) (
              d.mark (block_no (fs.inodes i) ((fs.inodes i).block_amount - 1) fs)
              ∙ (rw (==_refl (block_no (fs.inodes i) ((fs.inodes i).block_amount - 1) fs)) refl)))
        | inr before ↦ rw (d.places k) at (rest.freed k l (ground (arith, d.count)))
      ];
      kept = λ b o.
          let other =
            o ((fs.inodes i).block_amount - 1) (omega (arith, count)) (omega (arith, count)) in
          let far : (b == block_no (fs.inodes i) ((fs.inodes i).block_amount - 1) fs) ≡ false =
            ne→== _ _ (λ e. other (sym e)) in
          rest.kept b (λ k l r. rw (d.places k) (o k l (omega (arith, d.count))))
          ∙ (d.mark b ∙ (rw far refl));
      still_free = λ b f. rest.still_free b (let m = d.mark b in ground (arith, m, f));
    }

-- `deallocate_blocks_from_inode` to a count that is not greater frees the blocks of the inode from
-- that place on and no other: the indirect block, which is none of them, stays in use.
pub deallocate_blocks_from_inode-Released :
    (i m : ℕ) (fs : Fs)
    → m ≤ (fs.inodes i).block_amount
    → Released i m fs (deallocate_blocks_from_inode i m fs)
unfolding deallocate_blocks_from_inode
deallocate_blocks_from_inode-Released i m fs le =
    drop_blocks-Released ((fs.inodes i).block_amount - m) i m fs (omega arith)
