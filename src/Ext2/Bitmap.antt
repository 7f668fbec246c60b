-- ===== src/Ext2/Bitmap.antt =====
-- src/ext2.c: the bitmaps. ext2_alloc_block, ext2_alloc_inode, ext2_free_block, ext2_free_inode.
pub mod Words
pub mod Groups
pub mod Alloc
pub mod Free
pub mod Numbers
use lesch_os.Base.{
  ℕ, zero, suc, ◌+◌, ◌-◌, ◌*◌, ◌/◌, ◌%◌, ◌^◌, Option, none, some, ◌==◌, if◌then◌else◌, add32, sub32,
  bit_and, bit_or,
}
use lesch_os.Ext2.{
  Buffer, Fs, fresh, get16, get32, put16, put32, mul32, sizeof_bgd, ext2_read_block,
  ext2_write_block, rewrite_bgds,
}

-- The loop over `n`.
unfoldable pub find_bit : (left n sub_bitmap : ℕ) → Option ℕ
find_bit zero n sub_bitmap = none
find_bit (suc left) n sub_bitmap =
    let rest = find_bit left (n + 1) sub_bitmap in
    if bit_and (sub_bitmap / 2 ^ n) 1 == 0 then some n else rest

-- The loop over `j`.
unfoldable pub find_free : (left j : ℕ) → Buffer → Option (ℕ × ℕ)
find_free zero j buf = none
find_free (suc left) j buf =
    let rest = find_free left (j + 1) buf in
    let sub_bitmap = get32 buf (4 * j) in
    if sub_bitmap == 0xffffffff
    then rest
    else elim (find_bit 32 0 sub_bitmap) [ some n ↦ some (j, n) | none ↦ rest ]

-- A field of 16 bits of the group's descriptor changes by `d`.
unfoldable pub add_count : (at d : ℕ) → Fs → Fs
add_count at d fs = record fs { bgds = put16 at ((get16 fs.bgds at + d) % 2 ^ 16) fs.bgds }

-- A word of the bitmap changes, in `buf` and on the disk, and the count of the group by `d`.
unfoldable pub set_word : (count_at d block j w : ℕ) → Buffer → Fs → Fs
set_word count_at d block j w buf fs =
    rewrite_bgds (add_count count_at d (ext2_write_block fs block (put32 (4 * j) w buf)))

-- The loop over the groups. The two functions differ in the fields of the descriptor, given by their
-- offsets, and in the size of a group.
unfoldable pub alloc_groups : (count map per : ℕ) → (left i : ℕ) → Fs → ℕ × Fs
alloc_groups count map per zero i fs = (0xffffffff, fs)
alloc_groups count map per (suc left) i fs =
    let rest = alloc_groups count map per left (i + 1) fs in
    if get16 fs.bgds (i * sizeof_bgd + count) == 0
    then rest
    else (let block = get32 fs.bgds (i * sizeof_bgd + map) in
        let buf = ext2_read_block fs block fresh in
        elim (find_free (fs.block_size / 4) 0 buf) [
          | some (j, n) ↦ (
            add32 (add32 (mul32 i per) (j * 32)) n,
            set_word (i * sizeof_bgd + count) 0xffff block j (bit_or (get32 buf (4 * j)) (2 ^ n))
                buf fs,
          )
          | none ↦ rest
        ])

unfoldable pub ext2_alloc_block : Fs → ℕ × Fs
ext2_alloc_block fs = alloc_groups 12 0 fs.blocks_per_group fs.total_groups 0 fs

unfoldable pub ext2_alloc_inode : Fs → ℕ × Fs
ext2_alloc_inode fs = alloc_groups 14 4 fs.inodes_per_group fs.total_groups 0 fs

-- `ext2_free_block` and `ext2_free_inode`, with the same difference.
unfoldable pub free_in : (count map per : ℕ) → Fs → (idx : ℕ) → Fs
free_in count map per fs idx =
    let group : ℕ = idx / per in
    let in_group = sub32 idx (mul32 per group) in
    let sub_bitmap : ℕ = in_group / 4 in
    let bit : ℕ = in_group % 4 in
    let block = get32 fs.bgds (group * sizeof_bgd + map) in
    let buf = ext2_read_block fs block fresh in
    let word = bit_and (get32 buf (4 * sub_bitmap)) (2 ^ 32 - 1 - 2 ^ bit) in
    set_word (group * sizeof_bgd + count) 1 block sub_bitmap word buf fs

unfoldable pub ext2_free_block : Fs → (block : ℕ) → Fs
ext2_free_block fs block = free_in 12 0 fs.blocks_per_group fs block

unfoldable pub ext2_free_inode : Fs → (inode : ℕ) → Fs
ext2_free_inode fs inode = free_in 14 4 fs.inodes_per_group fs inode
