-- ===== src/Ext2/Data.antt =====
-- src/ext2.c: ext2_read_inode_filedata and ext2_write_inode_filedata, with ext2_read and ext2_write.
pub mod Span
pub mod Read
pub mod Files
pub mod Write
pub mod Grow
pub mod RoundTrip
mod Tests
use lesch_os.Base.{
  ℕ, zero, suc, ◌+◌, ◌-◌, ◌*◌, ◌/◌, ◌%◌, Option, none, some, ◌==◌, if◌then◌else◌, ltb, leb, sub32,
  add32, ◌>>=◌,
}
use lesch_os.Ext2.{
  Buffer, Fs, Inode, fresh, get32, put32, mul32, copy, ext2_read_block, ext2_write_block,
  ext2_read_inode_metadata, ext2_write_inode_metadata, get_disk_block_number,
}
use lesch_os.Ext2.Assign.{alloc_inode_block}

unfoldable pub ext2_read_inode_block : Fs → Inode → (inode_block : ℕ) → Option Buffer
ext2_read_inode_block fs inode inode_block = elim (get_disk_block_number fs inode inode_block) [
  | none ↦ none
  | some block ↦ some (ext2_read_block fs block fresh)
]

unfoldable pub ext2_write_inode_block : Fs → Inode → (inode_block : ℕ) → Buffer → Option Fs
ext2_write_inode_block fs inode inode_block buff =
    elim (get_disk_block_number fs inode inode_block) [
      | none ↦ none
      | some block ↦ some (ext2_write_block fs block buff)
    ]

-- `inode->size`
unfoldable pub size : Inode → ℕ
size inode = get32 inode 4

-- What the loops compute before they start.
pub record Range : Type 0 where
  pub start_block : ℕ
  pub start_offset : ℕ
  pub end_block : ℕ
  pub end_offset : ℕ

unfoldable pub end_bytes : Inode → (offset count : ℕ) → ℕ
end_bytes inode offset count =
    if leb (add32 offset count) (size inode) then add32 offset count else size inode

unfoldable pub range : Fs → (offset end_bytes : ℕ) → Range
range fs offset end_bytes = record {
  start_block = offset / fs.block_size;
  start_offset = offset % fs.block_size;
  end_block = end_bytes / fs.block_size;
  end_offset = sub32 end_bytes (mul32 (end_bytes / fs.block_size) fs.block_size);
}

-- `left` and the bytes to copy, in block `i`.
unfoldable pub left_of : Range → (i : ℕ) → ℕ
left_of r i = if i == r.start_block then r.start_offset else 0

unfoldable pub right_of : Fs → Range → (i : ℕ) → ℕ
right_of fs r i = if i == r.end_block then sub32 r.end_offset 1 else sub32 fs.block_size 1

unfoldable pub bytes_of : Fs → Range → (i : ℕ) → ℕ
bytes_of fs r i = add32 (sub32 (right_of fs r i) (left_of r i)) 1

-- `rounds` is how many blocks are left up to `end_block`.
unfoldable pub read_loop :
    (rounds i curr_off : ℕ) → Fs → Inode → Range → (buff : Buffer) → Option Buffer
read_loop zero i curr_off fs inode r buff = some buff
read_loop (suc rounds) i curr_off fs inode r buff = elim (ext2_read_inode_block fs inode i) [
  | none ↦ none
  | some buf_block ↦
      read_loop rounds (i + 1) (add32 curr_off (bytes_of fs r i)) fs inode r
        (copy curr_off (left_of r i) (bytes_of fs r i) buf_block buff)
]

unfoldable pub ext2_read_inode_filedata :
    Fs → Inode → (offset count : ℕ) → (buff : Buffer) → Option (ℕ × Buffer)
ext2_read_inode_filedata fs inode offset count buff =
    let last = end_bytes inode offset count in
    let r = range fs offset last in
    elim (read_loop (r.end_block + 1 - r.start_block) r.start_block 0 fs inode r buff) [
      | none ↦ none
      | some buff ↦ some (sub32 last offset, buff)
    ]

-- The blocks that are missing are allocated.
unfoldable pub have_block : Fs → Inode → (ino_idx i : ℕ) → Option (Fs × Inode)
have_block fs inode ino_idx i = elim (get_disk_block_number fs inode i) [
  | none ↦ none
  | some block ↦ some (if block == 0 then alloc_inode_block fs inode ino_idx i else (fs, inode))
]

unfoldable pub write_loop :
    (rounds i curr_off : ℕ)
    → Fs
    → Inode
    → (ino_idx : ℕ) → Range
    → (buff : Buffer) → Option (Fs × Inode)
write_loop zero i curr_off fs inode ino_idx r buff = some (fs, inode)
write_loop (suc rounds) i curr_off fs inode ino_idx r buff =
    have_block fs inode ino_idx i >>= λ state.
    (ext2_read_inode_block (state.0) (state.1) i >>= λ buf_block.
    (ext2_write_inode_block (state.0) (state.1) i
        (copy (left_of r i) curr_off (bytes_of (state.0) r i) buff buf_block)
      >>= λ fs.
          write_loop rounds (i + 1) (add32 curr_off (bytes_of (state.0) r i)) fs (state.1) ino_idx r
            buff))

-- The file grows where the data ends behind it.
unfoldable pub grow : Fs → Inode → (ino_idx offset count : ℕ) → Fs × Inode
grow fs inode ino_idx offset count =
    if ltb (size inode) (add32 offset count)
    then (
      ext2_write_inode_metadata fs (put32 4 (add32 offset count) inode) ino_idx,
      put32 4 (add32 offset count) inode,
    )
    else (fs, inode)

unfoldable pub ext2_write_inode_filedata :
    Fs → Inode → (ino_idx offset count : ℕ) → (buff : Buffer) → Option (Fs × Inode)
ext2_write_inode_filedata fs inode ino_idx offset count buff =
    let (fs, inode) = grow fs inode ino_idx offset count in
    let r = range fs offset (end_bytes inode offset count) in
    write_loop (r.end_block + 1 - r.start_block) r.start_block 0 fs inode ino_idx r buff

-- `ext2_read` and `ext2_write` of the file with the inode.
unfoldable pub ext2_read : Fs → (inode_num offset count : ℕ) → (buff : Buffer) → Option (ℕ × Buffer)
ext2_read fs inode_num offset count buff =
    ext2_read_inode_filedata fs (ext2_read_inode_metadata fs fresh inode_num) offset count buff
    >>= λ done. some (count, done.1)

unfoldable pub ext2_write : Fs → (inode_num offset count : ℕ) → (buff : Buffer) → Option (ℕ × Fs)
ext2_write fs inode_num offset count buff =
    ext2_write_inode_filedata fs (ext2_read_inode_metadata fs fresh inode_num) inode_num offset
      count buff
    >>= λ done. some (count, done.0)
