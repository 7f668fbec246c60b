-- ===== src/Ext2/Assign.antt =====
-- src/ext2.c: set_disk_block_number and alloc_inode_metadata_block, with alloc_inode_block and
-- free_inode_block.
pub mod Stored
pub mod Present
pub mod RoundTrip
mod Tests
use lesch_os.Base.{ℕ, ◌+◌, ◌*◌, ◌/◌, Option, none, some, ◌==◌, if◌then◌else◌, sub32, add32}
use lesch_os.Ext2.{
  Buffer, Fs, Inode, fresh, get32, put32, mul32, is_neg, block_ptr, ext2_read_block,
  ext2_write_block, ext2_write_inode_metadata, get_disk_block_number,
}
use lesch_os.Ext2.Bitmap.{ext2_alloc_block, ext2_free_block}

-- `alloc_inode_metadata_block` for a pointer in the inode, where `buff` is NULL.
unfoldable pub alloc_in_inode : (at : ℕ) → Fs → Inode → (ino_idx : ℕ) → Fs × Inode
alloc_in_inode at fs inode ino_idx =
    if get32 inode at == 0
    then (let (found, fs) = ext2_alloc_block fs in
        if found == 0
        then (fs, inode)
        else (ext2_write_inode_metadata fs (put32 at found inode) ino_idx, put32 at found inode))
    else (fs, inode)

-- The same for a pointer in a block that was read into `buff`.
unfoldable pub alloc_in_block : (at : ℕ) → Fs → (buff : Buffer) → (block_overw : ℕ) → Fs × Buffer
alloc_in_block at fs buff block_overw =
    if get32 buff at == 0
    then (let (found, fs) = ext2_alloc_block fs in
        if found == 0
        then (fs, buff)
        else (ext2_write_block fs block_overw (put32 at found buff), put32 at found buff))
    else (fs, buff)

-- The last word of a path: it is put in its block.
unfoldable pub put_word : Fs → (block j disk_block : ℕ) → Buffer → Fs
put_word fs block j disk_block ret =
    ext2_write_block fs block (put32 (4 * j) disk_block (ext2_read_block fs block ret))

unfoldable pub set_disk_block_number :
    Fs → Inode → (ino_idx inode_block disk_block : ℕ) → Fs × Inode
set_disk_block_number fs inode ino_idx iblock disk_block =
    let p : ℕ = fs.block_size / 4 in
    let a = sub32 iblock 12 in
    let b = sub32 a p in
    let c = sub32 b (mul32 p p) in
    let d = sub32 c (mul32 (mul32 p p) p) in
    if is_neg a
    then (let inode = put32 (block_ptr iblock) disk_block inode in
        (ext2_write_inode_metadata fs inode ino_idx, inode))
    else if is_neg b
    then (let (fs, inode) = alloc_in_inode (block_ptr 12) fs inode ino_idx in
        let fs = put_word fs (get32 inode (block_ptr 12)) a disk_block fresh in
        (ext2_write_inode_metadata fs inode ino_idx, inode))
    else if is_neg c
    then (let c : ℕ = b / p in
        let d = sub32 b (mul32 c p) in
        let (fs, inode) = alloc_in_inode (block_ptr 13) fs inode ino_idx in
        let ret = ext2_read_block fs (get32 inode (block_ptr 13)) fresh in
        let (fs, ret) = alloc_in_block (4 * c) fs ret (get32 inode (block_ptr 13)) in
        let fs = put_word fs (get32 ret (4 * c)) d disk_block ret in
        (ext2_write_inode_metadata fs inode ino_idx, inode))
    else if is_neg d
    then (let e : ℕ = c / mul32 p p in
        let f : ℕ = sub32 c (mul32 (mul32 e p) p) / p in
        let g = sub32 (sub32 c (mul32 (mul32 e p) p)) (mul32 f p) in
        let (fs, inode) = alloc_in_inode (block_ptr 14) fs inode ino_idx in
        let ret = ext2_read_block fs (get32 inode (block_ptr 14)) fresh in
        let (fs, ret) = alloc_in_block (4 * e) fs ret (get32 inode (block_ptr 14)) in
        let tmp = get32 ret (4 * e) in
        let ret = ext2_read_block fs tmp ret in
        let (fs, ret) = alloc_in_block (4 * f) fs ret tmp in
        let fs = put_word fs (get32 ret (4 * f)) g disk_block ret in
        (ext2_write_inode_metadata fs inode ino_idx, inode))
    else (ext2_write_inode_metadata fs inode ino_idx, inode)

unfoldable pub alloc_inode_block : Fs → Inode → (ino_idx ino_block : ℕ) → Fs × Inode
alloc_inode_block fs inode ino_idx ino_block =
    let (ret, fs) = ext2_alloc_block fs in
    let (fs, inode) = set_disk_block_number fs inode ino_idx ino_block ret in
    let sectors = add32 (get32 inode 28) (mul32 (ino_block + 1) (fs.block_size / 512)) in
    let inode = put32 28 sectors inode in (ext2_write_inode_metadata fs inode ino_idx, inode)

-- `none` where the number of the block is not set.
unfoldable pub free_inode_block : Fs → Inode → (ino_idx ino_block : ℕ) → Option (Fs × Inode)
free_inode_block fs inode ino_idx ino_block = elim (get_disk_block_number fs inode ino_block) [
  | none ↦ none
  | some ret ↦
      let (fs, inode) = set_disk_block_number (ext2_free_block fs ret) inode ino_idx ret 0 in
      some (ext2_write_inode_metadata fs inode ino_idx, inode)
]
