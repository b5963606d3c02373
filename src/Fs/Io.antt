-- ===== src/Fs/Io.antt =====
-- Reading, writing and truncating an inode in fs.c, and the check of access.
pub mod Within
pub mod Truncate
pub mod Fill
pub mod Access
use sistemas_operativos.Base.{
  ℕ, zero, suc, ◌+◌, ◌-◌, ◌*◌, ◌/◌, ◌%◌, Bool, true, false, not, ◌&&◌, ◌||◌, Option, none, some,
  List, [], ◌∷◌, ◌==◌, ltb, leb, if◌then◌else◌, length,
}
use sistemas_operativos.Fs.State.{
  block_size, max_block_count, kib, Inode, Fs, Errno, einval, enospc, enomem, failure, Ret, ok, err,
  faults, faults, out_of_fuel, put_inode, put_byte, has_bit,
}
use sistemas_operativos.Fs.Inodes.{
  get_inode_block, allocate_new_block, deallocate_blocks_from_inode, notify_access, notify_modif,
}

-- The loop of `fiuba_read` for at most `n` bytes: `block` is the block and `pos` the offset in it,
-- `left` what the file has after the offset. The result is what the buffer gets.
pub read_loop : (n : ℕ) → (inode : Inode) → (left idx pos : ℕ) → (block : Option ℕ) → Fs → List ℕ
read_loop zero inode left idx pos block fs = []
read_loop (suc n) inode left idx pos block fs = elim block [
  | none ↦ []
  | some b ↦
      let turn = ltb block_size (pos + 1) in
      let rest =
        read_loop n inode (left - 1) (if turn then idx + 1 else idx) (if turn then 0 else pos + 1)
          (if turn then get_inode_block inode (idx + 1) fs else some b) fs in
      if left == 0 then [] else fs.bytes (block_size * b + pos) ∷ rest
]

-- The bytes read, with the count.
unfoldable pub fiuba_read : ℕ → (size offset : ℕ) → Fs → (Ret × List ℕ) × Fs
unfolding read_loop
fiuba_read i size offset fs =
    let inode = fs.inodes i in
    if ltb inode.size offset
    then ((err einval, []), fs)
    else (let out =
          read_loop size inode (inode.size - offset) (offset / block_size) (offset % block_size)
            (get_inode_block inode (offset / block_size) fs) fs in
        ((ok (length out), out), notify_access i fs))

unfoldable pub calc_last_block_idx : (inode_block_idx block_offset size : ℕ) → ℕ
calc_last_block_idx idx pos size =
    if leb block_size (size % block_size + pos)
    then idx + size / block_size + 1
    else idx + size / block_size

-- The loop of `fiuba_write` for `n` bytes, the first one `buffer written`.
pub write_loop :
    (n : ℕ) → ℕ → (buffer : ℕ → ℕ) → (written pos : ℕ) → (block : Option ℕ) → Fs → Option ℕ × Fs
write_loop zero i buffer written pos block fs = (block, fs)
write_loop (suc n) i buffer written pos block fs = elim block [
  | none ↦ (none, fs)
  | some b ↦
      let fs₁ = put_byte (block_size * b + pos) (buffer written) fs in
      let next = if leb block_size (pos + 1) then allocate_new_block i fs₁ else (some b, fs₁) in
      write_loop n i buffer (written + 1) (if leb block_size (pos + 1) then 0 else pos + 1) next.0
        next.1
]

-- The block where a write starts: that of the offset, or a new one.
pub start_block : ℕ → (idx : ℕ) → Fs → Option ℕ × Fs
start_block i idx fs = elim (get_inode_block (fs.inodes i) idx fs) [
  | none ↦ allocate_new_block i fs
  | some b ↦ (some b, fs)
]

-- The end of `fiuba_write`.
abbrev pub end_write : ℕ → (size offset : ℕ) → Option ℕ × Fs → Ret × Fs
end_write i size offset (none, fs) = (err enospc, fs)
end_write i size offset (some b, fs) = (
  ok size,
  notify_modif i (notify_access i (put_inode i (record (fs.inodes i) { size = offset + size }) fs)),
)

unfoldable pub fiuba_write : ℕ → (buffer : ℕ → ℕ) → (size offset : ℕ) → Fs → Ret × Fs
unfolding write_loop start_block calc_last_block_idx
fiuba_write i buffer size offset fs =
    if ltb (fs.inodes i).size offset
    then (err einval, fs)
    else if leb max_block_count
        (calc_last_block_idx (offset / block_size) (offset % block_size) size)
    then (err enomem, fs)
    else (let (found, fs₁) = start_block i (offset / block_size) fs in
        elim found [
          | none ↦ (err enospc, fs₁)
          | some b ↦
              end_write i size offset
                (write_loop size i buffer 0 (offset % block_size) (some b) fs₁)
        ])

-- The buffer of `fill_with_null_bytes`: 1024 zeros, and what stands behind them in memory.
abbrev pub null_buffer : (behind : ℕ → ℕ) → ℕ → ℕ
null_buffer behind k = if ltb k kib then 0 else behind k

-- The loop of `fill_with_null_bytes`: `offset` is what is left, and `chunk` what it counts off. Each
-- turn with a positive rest counts off at least one.
pub fill_loop : (behind : ℕ → ℕ) → (fuel : ℕ) → ℕ → (offset chunk : ℕ) → Fs → Ret × Fs
unfolding fiuba_write
fill_loop behind zero i offset chunk fs = (out_of_fuel, fs)
fill_loop behind (suc fuel) i offset chunk fs =
    let w = fiuba_write i (null_buffer behind) offset (fs.inodes i).size fs in
    let left = offset - chunk in
    let rest = fill_loop behind fuel i left (if ltb left chunk then left else chunk) w.1 in
    if offset == 0
    then (ok 0, fs)
    else elim w.0 [ ok n ↦ rest | err e ↦ (err e, w.1) | faults ↦ w | out_of_fuel ↦ w ]

unfoldable pub fill_with_null_bytes : (behind : ℕ → ℕ) → ℕ → (size : ℕ) → Fs → Ret × Fs
unfolding fill_loop
fill_with_null_bytes behind i size fs =
    let offset = size - (fs.inodes i).size in
    fill_loop behind (offset + 1) i offset (if ltb offset kib then offset else kib) fs

unfoldable pub truncate_inode : (behind : ℕ → ℕ) → ℕ → (size : ℕ) → Fs → Ret × Fs
unfolding fill_with_null_bytes
truncate_inode behind i size fs =
    if ltb (fs.inodes i).size size
    then fill_with_null_bytes behind i size fs
    else (let amount =
          if size % block_size == 0 then size / block_size else size / block_size + 1 in
        let fs₁ = deallocate_blocks_from_inode i amount fs in
        (ok 0, put_inode i (record (fs₁.inodes i) { size = size }) fs₁))

-- A bit of the mask asks for the bits of the owner and the group.
abbrev pub refused : (mode mask bit user group : ℕ) → Bool
refused mode mask bit user group = has_bit mask bit && not (has_bit mode user && has_bit mode group)

unfoldable pub fiuba_access : ℕ → (mask : ℕ) → Fs → Ret
fiuba_access i mask fs =
    let mode = (fs.inodes i).type_mode in
    if refused mode mask 4 256 32
    then err failure
    else if refused mode mask 2 128 16
    then err failure
    else if refused mode mask 1 64 8
    then err failure
    else ok 0
