-- ===== src/Ext2/Bitmap/Free.antt =====
-- src/ext2.c: ext2_free_block and ext2_free_inode against the bitmaps of all groups.
use mathlib.Core.Path.{subst}
use lesch_os.Base.{
  ℕ, ◌+◌, ◌-◌, ◌*◌, ◌/◌, ◌%◌, ◌^◌, ◌≤◌, ◌<◌, ◌≡◌, refl, ap, ◌∙◌, arith, ◌&&◌, ◌==◌, if◌then◌else◌,
  sym, sub32, bit_and,
}
use lesch_os.Base.BitAt.{bit_at, clear_bit, and_bound}
use lesch_os.Ext2.{Fs, get32, mul32}
use lesch_os.Ext2.Blocks.{get32_bound, read_bytes}
use lesch_os.Ext2.Bitmap.{free_in, ext2_free_block, ext2_free_inode}
use lesch_os.Ext2.Bitmap.Words.{bit_of}
use lesch_os.Ext2.Bitmap.Groups.{
  map_block, bitmap, used, free_count, bits, Layout, after, after-used, after-free_count,
}
use native.Mathlib.Omega.{div_any}

-- What freeing number `i` of group `g` leaves: the code takes its word and bit by 4.
pub record Freed (count map : ℕ) (fs fs' : Fs) (g i : ℕ) : Type 0 where
  pub bit :
      (h k : ℕ)
      → h < fs.total_groups
      → k < bits fs
      → used map fs' h k ≡ (if (h == g) && (k == i / 4 * 32 + i % 4) then 0 else used map fs h k)
  pub own_bit_stays : 4 ≤ i → i < bits fs → used map fs' g i ≡ used map fs g i
  pub counted :
      (h : ℕ)
      → free_count count fs' h
        ≡ (if h == g then (free_count count fs h + 1) % 2 ^ 16 else free_count count fs h)

module _ (count map per : ℕ) (fs : Fs) (l : Layout count map fs) (b : ℕ) (hb : b < 2 ^ 32)
    (hg : b / per < fs.total_groups) where
  i : ℕ
  i = b % per

  word : ℕ
  word = get32 (bitmap map fs (b / per)) (4 * (i / 4))

  freed : Fs
  freed = after count map fs l (b / per) hg 1 (i / 4) (bit_and word (2 ^ 32 - 1 - 2 ^ (i % 4)))

  in_group : sub32 b (mul32 per (b / per)) ≡ i
  unfolding i sub32 mul32
  in_group = omega (arith, div_any b per)

  free_in-freed : free_in count map per fs b ≡ freed
  unfolding free_in freed word bitmap map_block after
  free_in-freed = rw in_group refl

  word_bound : word < 2 ^ 32
  unfolding word bitmap
  word_bound = get32_bound _ (4 * (i / 4)) (read_bytes fs (map_block map fs (b / per)) l.disk_bytes)

  used_word : (k : ℕ) → k / 32 ≡ i / 4 → used map fs (b / per) k ≡ bit_at word (k % 32)
  unfolding used bit_of word
  used_word k e = ap (λ j. bit_at (get32 (bitmap map fs (b / per)) (4 * j)) (k % 32)) e

  freed_bit :
      (h k : ℕ)
      → i / 4 < fs.block_size / 4
      → h < fs.total_groups
      → k < bits fs
      → used map freed h k
        ≡ (if (h == b / per) && (k == i / 4 * 32 + i % 4) then 0 else used map fs h k)
  unfolding freed
  freed_bit h k hi hh hk =
      let w = bit_and word (2 ^ 32 - 1 - 2 ^ (i % 4)) in
      after-used count map fs l (b / per) hg 1 (i / 4) w h k hh hk hi
        (and_bound 32 word (2 ^ 32 - 1 - 2 ^ (i % 4)) word_bound)
      ∙ ground (arith, used_word k, clear_bit word (i % 4) (k % 32) (omega arith))

  free_in_lem :
      i / 4 < fs.block_size / 4 → Freed count map fs (free_in count map per fs b) (b / per) i
  unfolding freed after
  free_in_lem hi =
      subst (λ fs'. Freed count map fs fs' (b / per) i) (sym free_in-freed)
        (record {
          bit = λ h k. freed_bit h k hi;
          own_bit_stays = λ far hk. freed_bit (b / per) i hi hg hk ∙ ground (arith, far);
          counted = λ h.
              after-free_count count map fs l (b / per) hg 1 (i / 4)
                (bit_and word (2 ^ 32 - 1 - 2 ^ (i % 4))) h
              ∙ ground arith;
        })

-- On a volume whose bitmaps lie on the disk, each in a block of its own outside of the table of the
-- groups, with bytes below 256, and for a block of a group whose number `i` in it is below the bytes
-- of the bitmap's whole words: `ext2_free_block` clears the bit `i / 4 * 32 + i % 4` of the group's
-- bitmap and no other, and counts one free block more. So the bit of the block itself stays as it was
-- where `i` is 4 or more.
pub ext2_free_block_lem :
    (fs : Fs) (block : ℕ)
    → Layout 12 0 fs
    → block < 2 ^ 32
    → block / fs.blocks_per_group < fs.total_groups
    → block % fs.blocks_per_group / 4 < fs.block_size / 4
    → Freed 12 0 fs
        (ext2_free_block fs block)
        (block / fs.blocks_per_group)
        (block % fs.blocks_per_group)
unfolding ext2_free_block i
ext2_free_block_lem fs block l hb hg hi = free_in_lem 12 0 fs.blocks_per_group fs l block hb hg hi

pub ext2_free_inode_lem :
    (fs : Fs) (inode : ℕ)
    → Layout 14 4 fs
    → inode < 2 ^ 32
    → inode / fs.inodes_per_group < fs.total_groups
    → inode % fs.inodes_per_group / 4 < fs.block_size / 4
    → Freed 14 4 fs
        (ext2_free_inode fs inode)
        (inode / fs.inodes_per_group)
        (inode % fs.inodes_per_group)
unfolding ext2_free_inode i
ext2_free_inode_lem fs inode l hb hg hi = free_in_lem 14 4 fs.inodes_per_group fs l inode hb hg hi
