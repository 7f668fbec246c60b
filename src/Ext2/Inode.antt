-- ===== src/Ext2/Inode.antt =====
-- src/ext2.c: where an inode stands in the table of its group, and the calls on a file that read its
-- inode, change a field and write it back.
pub mod Place
use lesch_os.Base.{
  ℕ, zero, suc, ◌+◌, ◌-◌, ◌*◌, ◌/◌, ◌%◌, ◌^◌, ◌≤◌, ◌<◌, ◌≡◌, ◌≢◌, ◌⊎◌, inl, inr, refl, ap, ◌∙◌,
  arith, true, false, ◌&&◌, ◌==◌, if◌then◌else◌, ltb, leb, Bool-cases, ltb→lt, not-ltb→le, ==→eq,
  ==→ne, sym, ne→==, sub32, bit_and, bit_or, add32, add32_exact,
}
use lesch_os.Ext2.{
  Buffer, Fs, Inode, fresh, get16, put16, get32, put32, mul32, copy, inode_size, inode_block,
  ext2_read_block, ext2_write_block, ext2_read_inode_metadata, ext2_write_inode_metadata,
}
use lesch_os.Ext2.Blocks.{
  OnDisk, read-write_same, get32-put32, get16-put16, get16_bound, read_bytes,
}
use lesch_os.Base.Bits.{and_shifted, and_low, or_sum}
use mathlib.Core.Path.{fun_ext}

unfoldable pub ext2_file_size : Fs → (inode_num : ℕ) → ℕ
ext2_file_size fs inode_num = get32 (ext2_read_inode_metadata fs fresh inode_num) 4

-- `O_TRUNC`
abbrev pub trunc : ℕ
trunc = 0x0400

unfoldable pub ext2_open : Fs → (inode_num flags : ℕ) → Fs
ext2_open fs inode_num flags =
    if bit_and flags trunc == 0
    then fs
    else ext2_write_inode_metadata fs (put32 4 0 (ext2_read_inode_metadata fs fresh inode_num))
        inode_num

unfoldable pub ext2_chmod : Fs → (inode_num mode : ℕ) → Fs
ext2_chmod fs inode_num mode =
    let inode = ext2_read_inode_metadata fs fresh inode_num in
    let permission = bit_or (bit_and (get16 inode 0) 0xfffff000) mode in
    ext2_write_inode_metadata fs (put16 0 permission inode) inode_num

-- The inode lies in one block, on the disk.
pub record InTable (fs : Fs) (ino_idx : ℕ) : Type 0 where
  pub block_OnDisk : OnDisk fs ((inode_block fs ino_idx).0)
  pub fits : (inode_block fs ino_idx).1 + inode_size fs ≤ fs.block_size

-- The first `n` bytes of one, then the other.
unfoldable pub first_bytes : ℕ → Buffer → Buffer → Buffer
first_bytes n b rest i = if ltb i n then b i else rest i

inode_block-write :
    (fs : Fs) (b : ℕ) (buff : Buffer) (ino_idx : ℕ)
    → inode_block (ext2_write_block fs b buff) ino_idx ≡ inode_block fs ino_idx
unfolding inode_block ext2_write_block inode_size
inode_block-write fs b buff ino_idx = refl

inode_size-write :
    (fs : Fs) (b : ℕ) (buff : Buffer) → inode_size (ext2_write_block fs b buff) ≡ inode_size fs
unfolding ext2_write_block inode_size
inode_size-write fs b buff = refl

copied_back :
    (at n s : ℕ) (inode table old : Buffer)
    → at + n ≤ s
    → copy 0 at n (λ i. if ltb i s then copy at 0 n inode table i else 0) old
      ≡ first_bytes n inode old
unfolding copy first_bytes
copied_back at n s inode table old h = fun_ext λ i. ground arith

-- Where an inode lies in one block on the disk, reading it after it was written gives its bytes.
pub read-write_metadata :
    (fs : Fs) (inode old : Inode) (ino_idx : ℕ)
    → InTable fs ino_idx
    → ext2_read_inode_metadata (ext2_write_inode_metadata fs inode ino_idx) old ino_idx
      ≡ first_bytes (inode_size fs) inode old
unfolding ext2_read_inode_metadata ext2_write_inode_metadata
read-write_metadata fs inode old ino_idx t =
    let b : ℕ = (inode_block fs ino_idx).0 in
    let at : ℕ = (inode_block fs ino_idx).1 in
    let table = ext2_read_block fs b fresh in
    let buff = copy at 0 (inode_size fs) inode table in
    rw
      (
        inode_block-write fs b buff ino_idx,
        inode_size-write fs b buff,
        read-write_same fs b buff fresh t.block_OnDisk,
      )
      (copied_back at (inode_size fs) fs.block_size inode table old t.fits)

metadata_bytes :
    (fs : Fs) (ino_idx : ℕ)
    → ((a : ℕ) → fs.disk a < 256)
    → (i : ℕ) → ext2_read_inode_metadata fs fresh ino_idx i < 256
unfolding ext2_read_inode_metadata copy
metadata_bytes fs ino_idx bytes i =
    ground (
      arith,
      read_bytes fs ((inode_block fs ino_idx).0) bytes ((inode_block fs ino_idx).1 + (i - 0)),
    )

-- The kept bits and the new ones of a permission.
mode_lem :
    (permission mode : ℕ)
    → permission < 2 ^ 16
    → mode < 2 ^ 12
    → bit_or (bit_and permission 0xfffff000) mode ≡ permission / 2 ^ 12 * 2 ^ 12 + mode
mode_lem permission mode hp hm =
    ap (λ t. bit_or t mode)
      (and_shifted 12 0xfffff permission
        ∙ ap (λ t. t * 2 ^ 12) (and_low 20 (permission / 2 ^ 12) ∙ omega arith))
    ∙ or_sum 12 (permission / 2 ^ 12) mode hm

get32_first : (n o : ℕ) (b rest : Buffer) → o + 4 ≤ n → get32 (first_bytes n b rest) o ≡ get32 b o
unfolding get32 first_bytes
get32_first n o b rest h = ground arith

get16_first : (n o : ℕ) (b rest : Buffer) → o + 2 ≤ n → get16 (first_bytes n b rest) o ≡ get16 b o
unfolding get16 first_bytes
get16_first n o b rest h = ground arith

-- Where an inode of eight bytes or more lies in one block on the disk: after `ext2_open` with O_TRUNC
-- the size of the file is 0, and without O_TRUNC the volume is as before.
pub ext2_file_size-ext2_open :
    (fs : Fs) (inode_num flags : ℕ)
    → InTable fs inode_num
    → 8 ≤ inode_size fs
    → ((bit_and flags trunc ≢ 0) → ext2_file_size (ext2_open fs inode_num flags) inode_num ≡ 0)
      × ((bit_and flags trunc ≡ 0) → ext2_open fs inode_num flags ≡ fs)
unfolding ext2_file_size ext2_open
ext2_file_size-ext2_open fs inode_num flags t h =
    let inode = ext2_read_inode_metadata fs fresh inode_num in
    (
      λ set. rw (ne→== _ _ set) (
          ap (λ b. get32 b 4) (read-write_metadata fs (put32 4 0 inode) fresh inode_num t)
          ∙ (get32_first (inode_size fs) 4 (put32 4 0 inode) fresh h
              ∙ get32-put32 inode 1 0 (omega arith))),
      λ clear. rw clear refl,
    )

-- Where an inode of two bytes or more lies in one block on the disk, of bytes below 256, and the mode
-- has twelve bits: `ext2_chmod` leaves the type of the file, the bits from the twelfth on, and puts the
-- mode in the others.
pub ext2_chmod_lem :
    (fs : Fs) (inode_num mode : ℕ)
    → InTable fs inode_num
    → 2 ≤ inode_size fs
    → ((a : ℕ) → fs.disk a < 256)
    → mode < 2 ^ 12
    → get16 (ext2_read_inode_metadata (ext2_chmod fs inode_num mode) fresh inode_num) 0
      ≡ get16 (ext2_read_inode_metadata fs fresh inode_num) 0 / 2 ^ 12 * 2 ^ 12 + mode
unfolding ext2_chmod
ext2_chmod_lem fs inode_num mode t h bytes hm =
    let inode = ext2_read_inode_metadata fs fresh inode_num in
    let permission = bit_or (bit_and (get16 inode 0) 0xfffff000) mode in
    let bound = get16_bound inode 0 (metadata_bytes fs inode_num bytes) in
    let value = mode_lem (get16 inode 0) mode bound hm in
    ap (λ b. get16 b 0) (read-write_metadata fs (put16 0 permission inode) fresh inode_num t)
    ∙ (get16_first (inode_size fs) 0 (put16 0 permission inode) fresh h
        ∙ (get16-put16 inode 0 permission (omega (arith, value, bound)) ∙ value))
