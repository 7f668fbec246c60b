-- ===== src/Ext2/Data/Tests.antt =====
-- A file of two blocks of 8 bytes, the blocks 20 and 21, with its inode in block 7.
use lesch_os.Base.{
  ℕ, zero, suc, ◌+◌, ◌-◌, ◌%◌, ◌≤◌, ◌≡◌, refl, arith, ◌==◌, if◌then◌else◌, some, add32, sub32,
}
use lesch_os.Ext2.{
  Buffer, Fs, Inode, fresh, get16, get32, mul32, block_ptr, inode_size, inode_block,
}
use lesch_os.Ext2.Blocks.{OnDisk}
use lesch_os.Ext2.Chain.{Route, direct, Within, index, follow, Sized}
use lesch_os.Ext2.Data.{size, end_bytes, ext2_read_inode_filedata, ext2_write_inode_filedata}
use lesch_os.Ext2.Data.Span.{filled}
use lesch_os.Ext2.Data.Read.{file_byte, ext2_read_inode_filedata_lem}
use lesch_os.Ext2.Data.Files.{File, Clear, number_lem}
use lesch_os.Ext2.Data.Write.{Written}
use lesch_os.Ext2.Data.Grow.{Aside, grown}
use lesch_os.Ext2.Data.RoundTrip.{ext2_write_inode_filedata_lem, read-write_filedata}

abbrev small : Fs
small = record {
  disk = λ a. a % 256;
  sb = λ a. if a == 88 then 8 else 0;
  bgds = λ a. if a == 8 then 7 else 0;
  block_size = 8;
  blocks_per_group = 64;
  inodes_per_group = 64;
  total_groups = 1;
  bgd_blocks = 1;
}

abbrev inode : Inode
inode a = if a == 40 then 20 else if a == 44 then 21 else if a == 4 then 9 else 0

abbrev blk : ℕ → ℕ
blk i = 20 + i

abbrev path : ℕ → Route
path i = direct i

both : (P : ℕ → Type 0) → P 0 → P 1 → (i : ℕ) → i ≤ 1 → P i
both P p q zero h = p
both P p q (suc zero) h = q
both P p q (suc (suc i)) h = absurd (omega arith)

small_Sized : Sized small 2
small_Sized = record { size = refl; some_words = omega arith; few_words = omega arith }

file : File 2 1 blk path small inode
unfolding Within index follow Clear OnDisk get32 block_ptr
file = record {
  sized = small_Sized;
  numbered = λ i h. refl;
  within = λ i h. omega arith;
  followed = both (λ i. get32 inode (block_ptr i) ≡ blk i) refl refl;
  there = λ i h. omega arith;
  blk_OnDisk = λ i h. omega arith;
  apart = λ i j hi hj ne. omega (arith, ne);
  clear = λ i j hi hj. tt;
}

aside : Aside 1 blk path small inode ((inode_block small 1).0)
unfolding inode_block inode_size get32 get16 sub32 mul32 add32 OnDisk Clear
aside = record { b_OnDisk = omega arith; no_data = λ i h. omega arith; no_pointers = λ i h. tt }

size_lem : size inode ≡ 9
unfolding size get32
size_lem = refl

-- Data of five bytes from offset 6 on: they cross into the second block and grow the file.
abbrev text : Buffer
text k = 65 + k

ext2_write_inode_filedata_lem_example :
    (fs' : Fs) × (ext2_write_inode_filedata small inode 1 6 5 text ≡ some (fs', grown inode 11))
    × Written 2 1 blk path (grown inode 11) 6 11 6 text small fs'
ext2_write_inode_filedata_lem_example =
    ext2_write_inode_filedata_lem 2 1 blk path small inode 1 6 5 text (omega arith) file aside
      (omega arith)

read-write_filedata_example :
    (fs' : Fs) × (inode' : Inode) × (ext2_write_inode_filedata small inode 1 6 5 text
      ≡ some (fs', inode'))
    × (ext2_read_inode_filedata fs' inode' 6 5 fresh ≡ some (5, filled 5 text fresh))
read-write_filedata_example =
    read-write_filedata 2 1 blk path small inode 1 6 5 text fresh (omega arith)
      (omega (arith, size_lem)) file aside (omega arith)

ends : end_bytes inode 6 100 ≡ 9
unfolding end_bytes size get32 add32
ends = refl

ext2_read_inode_filedata_lem_example :
    ext2_read_inode_filedata small inode 6 100 fresh
    ≡ some (
      end_bytes inode 6 100 - 6,
      filled (end_bytes inode 6 100 - 6) (λ k. file_byte small blk (6 + k)) fresh,
    )
ext2_read_inode_filedata_lem_example =
    ext2_read_inode_filedata_lem small inode 6 100 fresh blk (omega arith) (omega arith)
      (omega (arith, size_lem)) (omega (arith, size_lem)) (omega arith)
      (λ i h. number_lem 2 1 blk path small inode file i (omega (arith, h, ends)))
