-- ===== src/Ext2/Tests.antt =====
-- Concrete volumes.
use lesch_os.Base.{
  ℕ, zero, suc, ◌+◌, ◌-◌, ◌*◌, ◌/◌, ◌%◌, ◌≤◌, ◌<◌, ◌≡◌, ◌⊎◌, inl, inr, refl, arith, ◌==◌,
  if◌then◌else◌, add32, sub32,
}
use lesch_os.Ext2.{Buffer, Fs, get16, get32, mul32, inode_size, inode_block, ext2_read_block}
use lesch_os.Ext2.Blocks.{OnDisk}
use lesch_os.Ext2.Bitmap.{
  alloc_groups, find_free, find_bit, ext2_alloc_block, ext2_alloc_inode, ext2_free_block,
}
use lesch_os.Ext2.Bitmap.Groups.{Layout, map_block, used, bits}
use lesch_os.Ext2.Bitmap.Alloc.{Outcome, ext2_alloc_block_lem}
use lesch_os.Ext2.Bitmap.Free.{Freed, ext2_free_block_lem}
use lesch_os.Ext2.Bitmap.Numbers.{Padded, used-ext2_alloc_inode}
use lesch_os.Ext2.Inode.Place.{inode_block_lem}
use lesch_os.Ext2.Inode.{InTable}

-- A volume of blocks of 8 bytes. The bitmap of blocks is in block 5, that of inodes in block 6, the
-- table of inodes of 8 bytes from block 7 on, and the table of the one group in blocks 2 and 3. Bits 0
-- to 9 are set in both.
abbrev bytes_of_disk : Buffer
bytes_of_disk a =
    if a == 40
    then 0xff
    else if a == 41
    then 3
    else if a == 48
    then 0xff
    else if a == 49
    then 3
    else 0

abbrev bytes_of_bgds : Buffer
bytes_of_bgds a =
    if a == 0
    then 5
    else if a == 4
    then 6
    else if a == 8
    then 7
    else if a == 12
    then 4
    else if a == 14
    then 4
    else 0

abbrev bytes_of_sb : Buffer
bytes_of_sb a = if a == 88 then 8 else 0

abbrev volume : Fs
volume = record {
  disk = bytes_of_disk;
  sb = bytes_of_sb;
  bgds = bytes_of_bgds;
  block_size = 8;
  blocks_per_group = 64;
  inodes_per_group = 64;
  total_groups = 1;
  bgd_blocks = 2;
}

only_group : (P : ℕ → Type 0) → P 0 → (g : ℕ) → g < 1 → P g
only_group P p zero h = p
only_group P p (suc g) h = absurd (omega arith)

volume-Layout :
    (count map : ℕ)
    → (map + 4 ≤ count) × (count + 2 ≤ 30)
    → ((map_block map volume 0 ≡ 5) ⊎ (map_block map volume 0 ≡ 6))
    → Layout count map volume
unfolding OnDisk
volume-Layout count map fields at = record {
  fields = fields;
  map_OnDisk = only_group (λ g. OnDisk volume (map_block map volume g)) (ground (arith, at));
  apart = λ g h hg hh ne. absurd (ne (omega arith));
  outside =
      only_group (λ g. (map_block map volume g < 2) ⊎ (4 ≤ map_block map volume g))
        (ground (arith, at));
  disk_bytes = λ a. ground arith;
  bgds_bytes = λ a. ground arith;
  table_OnDisk = omega arith;
}

blocks_Layout : Layout 12 0 volume
unfolding map_block get32
blocks_Layout = volume-Layout 12 0 (omega arith, omega arith) (inl refl)

inodes_Layout : Layout 14 4 volume
unfolding map_block get32
inodes_Layout = volume-Layout 14 4 (omega arith, omega arith) (inr refl)

volume_size : 8 ≡ 1 * inode_size volume
unfolding inode_size get16
volume_size = refl

one_byte : 1 ≤ inode_size volume
one_byte = omega (arith, volume_size)

volume-Padded : Padded volume
unfolding Padded bits
volume-Padded g k hg low high = absurd (omega arith)

ext2_alloc_block_lem_example : Outcome 12 0 64 volume 0 (ext2_alloc_block volume)
ext2_alloc_block_lem_example = ext2_alloc_block_lem volume blocks_Layout

alloc_test : ((ext2_alloc_block volume).0 ≡ 10) × ((ext2_alloc_inode volume).0 ≡ 10)
unfolding ext2_alloc_block ext2_alloc_inode alloc_groups find_free find_bit get32 get16
    ext2_read_block mul32 add32
alloc_test = (refl, refl)

used-ext2_alloc_inode_example :
    used 4 volume ((ext2_alloc_inode volume).0 / 64) ((ext2_alloc_inode volume).0 % 64 - 1) ≡ 1
used-ext2_alloc_inode_example =
    used-ext2_alloc_inode volume inodes_Layout volume-Padded (omega arith)
      (λ e. absurd (omega (arith, e, alloc_test.1))) (omega (arith, alloc_test.1))

ext2_free_block_lem_example : Freed 12 0 volume (ext2_free_block volume 6) 0 6
ext2_free_block_lem_example =
    ext2_free_block_lem volume 6 blocks_Layout (omega arith) (omega arith) (omega arith)

inode_block_lem_example :
    (off at : ℕ) × (inode_block volume 3 ≡ (add32 (get32 bytes_of_bgds 8) off, at))
    × (off * 8 + at ≡ 2 * inode_size volume)
    × (at + inode_size volume ≤ 8)
inode_block_lem_example =
    inode_block_lem volume 1 3 volume_size one_byte (omega arith) (omega arith)
      (omega (arith, volume_size)) (omega arith)

third_InTable : InTable volume 3
unfolding inode_block inode_size get32 get16 sub32 mul32 add32 OnDisk
third_InTable = record { block_OnDisk = omega arith; fits = omega arith }
