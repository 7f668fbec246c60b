-- ===== src/Ext2/Assign/Tests.antt =====
-- A volume of blocks of two words, with an inode whose single and double blocks of pointers are there.
use lesch_os.Base.{◌≡◌, refl, arith, ◌==◌, if◌then◌else◌, some, add32, sub32}
use lesch_os.Ext2.{
  Fs, Inode, get16, get32, mul32, block_ptr, inode_size, inode_block, ext2_read_block,
  get_disk_block_number,
}
use lesch_os.Ext2.Blocks.{OnDisk}
use lesch_os.Ext2.Chain.{double, Within, index, follow, word, Sized, get_disk_block_number_lem}
use lesch_os.Ext2.Inode.{InTable}
use lesch_os.Ext2.Assign.{set_disk_block_number}
use lesch_os.Ext2.Assign.Present.{Mapped}
use lesch_os.Ext2.Assign.RoundTrip.{get-set_disk_block_number}

-- The double block is block 20, and its word 1 names block 21.
abbrev tree : Fs
tree = record {
  disk = λ a. if a == 164 then 21 else 0;
  sb = λ a. if a == 88 then 8 else 0;
  bgds = λ a. if a == 8 then 7 else 0;
  block_size = 8;
  blocks_per_group = 64;
  inodes_per_group = 64;
  total_groups = 1;
  bgd_blocks = 1;
}

abbrev file : Inode
file a = if a == 92 then 20 else 0

tree-Sized : Sized tree 2
tree-Sized = record { size = refl; some_words = omega arith; few_words = omega arith }

in_double : Within 2 (double 1 0)
unfolding Within
in_double = (omega arith, omega arith)

get_disk_block_number_lem_example :
    get_disk_block_number tree file (index 2 (double 1 0)) ≡ some (follow tree file (double 1 0))
get_disk_block_number_lem_example =
    get_disk_block_number_lem tree 2 file (double 1 0) tree-Sized in_double

file_Mapped : Mapped tree file 1 (double 1 0)
unfolding Mapped inode_block inode_size get32 get16 sub32 mul32 add32 OnDisk block_ptr word
    ext2_read_block
file_Mapped = (
  record { there = omega arith; block_OnDisk = omega arith; apart = omega arith },
  record { there = omega arith; block_OnDisk = omega arith; apart = omega arith },
  omega arith,
)

tree-InTable : InTable tree 1
unfolding inode_block inode_size get32 get16 sub32 mul32 add32 OnDisk
tree-InTable = record { block_OnDisk = omega arith; fits = omega arith }

get-set_disk_block_number_example :
    get_disk_block_number
      ((set_disk_block_number tree file 1 (index 2 (double 1 0)) 77).0)
      ((set_disk_block_number tree file 1 (index 2 (double 1 0)) 77).1)
      (index 2 (double 1 0))
    ≡ some 77
get-set_disk_block_number_example =
    get-set_disk_block_number tree 2 file 1 77 (double 1 0) tree-Sized (omega arith) tree-InTable
      in_double file_Mapped
