-- ===== src/Ext2.antt =====
-- src/ext2.c, with the structures of src/ext2.h: the volume, its blocks, the map from the blocks of
-- a file to the blocks of the disk, the bitmaps, and the inodes. The structures are packed, so each is
-- the bytes that the program copies, and a field is read at its offset.
pub mod Blocks
pub mod Chain
pub mod Bitmap
pub mod Inode
pub mod Assign
pub mod Data
mod Tests
use lesch_os.Base.{
  ℕ, zero, suc, ◌+◌, ◌-◌, ◌*◌, ◌/◌, ◌%◌, ◌^◌, Bool, true, false, ◌&&◌, not, Option, none, some, ltb,
  leb, ◌==◌, if◌then◌else◌, add32, sub32, bit_and, bit_or,
}

-- The bytes from the address that a pointer holds on.
abbrev pub Buffer : Type 0
Buffer = ℕ → ℕ

-- What `kmalloc` gives before it is written.
abbrev pub fresh : Buffer
fresh i = 0

unfoldable pub get16 : Buffer → ℕ → ℕ
get16 b o = b o + 256 * b (o + 1)

unfoldable pub get32 : Buffer → ℕ → ℕ
get32 b o = b o + 256 * b (o + 1) + 65536 * b (o + 2) + 16777216 * b (o + 3)

unfoldable pub put16 : ℕ → ℕ → Buffer → Buffer
put16 o w b i = if i == o then w % 256 else if i == o + 1 then w / 256 % 256 else b i

unfoldable pub put32 : ℕ → ℕ → Buffer → Buffer
put32 o w b i =
    if i == o
    then w % 256
    else if i == o + 1
    then w / 256 % 256
    else if i == o + 2
    then w / 65536 % 256
    else if i == o + 3
    then w / 16777216 % 256
    else b i

-- `memcpy(to + at, from + start, size)` between two pieces of memory.
unfoldable pub copy : (at start size : ℕ) → (from to : Buffer) → Buffer
copy at start size from to i =
    if leb at i && ltb i (at + size) then from (start + (i - at)) else to i

unfoldable pub mul32 : ℕ → ℕ → ℕ
mul32 a b = a * b % 2 ^ 32

-- A signed int is its word of 32 bits.
unfoldable pub is_neg : ℕ → Bool
is_neg a = leb (2 ^ 31) a

-- `disk` is what `vfs_read` and `vfs_write` of `disk_dev` reach.
pub record Fs : Type 0 where
  pub disk : Buffer
  pub sb : Buffer
  pub bgds : Buffer
  pub block_size : ℕ
  pub blocks_per_group : ℕ
  pub inodes_per_group : ℕ
  pub total_groups : ℕ
  pub bgd_blocks : ℕ

unfoldable pub ext2_read_block : Fs → (block : ℕ) → Buffer → Buffer
ext2_read_block fs block buff i =
    if ltb i fs.block_size then fs.disk (mul32 fs.block_size block + i) else buff i

unfoldable pub ext2_write_block : Fs → (block : ℕ) → Buffer → Fs
ext2_write_block fs block buff = record fs {
  disk = copy (mul32 fs.block_size block) 0 fs.block_size buff fs.disk;
}

-- The size of `ext2_bgd_s` as declared, which is packed.
abbrev pub sizeof_bgd : ℕ
sizeof_bgd = 30

unfoldable pub write_bgds : (left i : ℕ) → Fs → Fs
write_bgds zero i fs = fs
write_bgds (suc left) i fs =
    write_bgds left (i + 1) (ext2_write_block fs (2 + i) (λ k. fs.bgds (i * fs.block_size + k)))

unfoldable pub rewrite_bgds : Fs → Fs
rewrite_bgds fs = write_bgds fs.bgd_blocks 0 fs

-- `ext2_inode_s` is its bytes.
abbrev pub Inode : Type 0
Inode = Buffer

unfoldable pub inode_size : Fs → ℕ
inode_size fs = get16 fs.sb 88

-- Where the inode stands: its block, and its offset there.
unfoldable pub inode_block : Fs → (ino_idx : ℕ) → ℕ × ℕ
inode_block fs ino_idx =
    let group : ℕ = ino_idx / fs.inodes_per_group in
    let idx_in_group = sub32 ino_idx (mul32 group fs.inodes_per_group) in
    let block_offset = mul32 (sub32 idx_in_group 1) (inode_size fs) / fs.block_size in
    let offset_in_block =
      sub32 (sub32 idx_in_group 1) (mul32 block_offset (fs.block_size / inode_size fs)) in
    (
      add32 (get32 fs.bgds (group * sizeof_bgd + 8)) block_offset,
      mul32 offset_in_block (inode_size fs),
    )

unfoldable pub ext2_read_inode_metadata : Fs → Inode → (ino_idx : ℕ) → Inode
ext2_read_inode_metadata fs inode ino_idx =
    let (block, at) = inode_block fs ino_idx in
    copy 0 at (inode_size fs) (ext2_read_block fs block fresh) inode

unfoldable pub ext2_write_inode_metadata : Fs → Inode → (ino_idx : ℕ) → Fs
ext2_write_inode_metadata fs inode ino_idx =
    let (block, at) = inode_block fs ino_idx in
    ext2_write_block fs block (copy at 0 (inode_size fs) inode (ext2_read_block fs block fresh))

-- `inode->blocks[k]`
unfoldable pub block_ptr : ℕ → ℕ
block_ptr k = 40 + 4 * k

-- `none` where the code returns a variable that it has not set.
unfoldable pub get_disk_block_number : Fs → Inode → (inode_block : ℕ) → Option ℕ
get_disk_block_number fs inode iblock =
    let p : ℕ = fs.block_size / 4 in
    let a = sub32 iblock 12 in
    let b = sub32 a p in
    let c = sub32 b (mul32 p p) in
    let d = sub32 c (mul32 (mul32 p p) p) in
    if is_neg a
    then some (get32 inode (block_ptr iblock))
    else if is_neg b
    then some (get32 (ext2_read_block fs (get32 inode (block_ptr 12)) fresh) (4 * a))
    else if is_neg c
    then (let c : ℕ = b / p in
        let d = sub32 b (mul32 c p) in
        let tmp = ext2_read_block fs (get32 inode (block_ptr 13)) fresh in
        let tmp = ext2_read_block fs (get32 tmp (4 * c)) tmp in some (get32 tmp (4 * d)))
    else if is_neg d
    then (let e : ℕ = c / mul32 p p in
        let f : ℕ = sub32 c (mul32 (mul32 e p) p) / p in
        let g = sub32 (sub32 c (mul32 (mul32 e p) p)) (mul32 f p) in
        let tmp = ext2_read_block fs (get32 inode (block_ptr 14)) fresh in
        let tmp = ext2_read_block fs (get32 tmp (4 * e)) tmp in
        let tmp = ext2_read_block fs (get32 tmp (4 * f)) tmp in some (get32 tmp (4 * g)))
    else none
