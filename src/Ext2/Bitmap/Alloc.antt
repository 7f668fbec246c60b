-- ===== src/Ext2/Bitmap/Alloc.antt =====
-- src/ext2.c: ext2_alloc_block and ext2_alloc_inode against the bitmaps of all groups.
use mathlib.Core.Path.{subst}
use lesch_os.Base.{
  ℕ, zero, suc, ◌+◌, ◌-◌, ◌*◌, ◌/◌, ◌%◌, ◌^◌, ◌≤◌, ◌<◌, ◌≡◌, ◌≢◌, ◌⊎◌, inl, inr, refl, ap, ◌∙◌,
  arith, ◌&&◌, ◌==◌, if◌then◌else◌, Bool-cases, ==→eq, ==→ne, sym, add32, ne→==, bit_or, some, none,
}
use lesch_os.Base.BitAt.{bit_at, set_bit, or_bound, pow_below}
use lesch_os.Ext2.{Fs, get16, get32, mul32}
use lesch_os.Ext2.Blocks.{get32_bound, get16_bound, read_bytes}
use lesch_os.Ext2.Bitmap.{alloc_groups, find_free, ext2_alloc_block, ext2_alloc_inode}
use lesch_os.Ext2.Bitmap.Words.{bit_of, AllSet, FirstFree, find_free_lem}
use lesch_os.Ext2.Bitmap.Groups.{
  map_block, bitmap, used, free_count, bits, Layout, after, after-used, after-free_count,
}

-- The bit `k` of group `g` was the first free one of the group, and its taking changed nothing else of
-- the bitmaps and counts.
pub record Taken (count map : ℕ) (fs fs' : Fs) (g k : ℕ) : Type 0 where
  pub in_group : (g < fs.total_groups) × (k < bits fs)
  pub was_free : used map fs g k ≡ 0
  pub below : AllSet (used map fs g) 0 k
  pub bit :
      (h i : ℕ)
      → h < fs.total_groups
      → i < bits fs
      → used map fs' h i ≡ (if (h == g) && (i == k) then 1 else used map fs h i)
  pub counted :
      (h : ℕ)
      → free_count count fs' h
        ≡ (if h == g then free_count count fs h - 1 else free_count count fs h)

module _ (count map : ℕ) (fs : Fs) (l : Layout count map fs) (g : ℕ)
    (hg : g < fs.total_groups) where
  word : ℕ → ℕ
  word j = get32 (bitmap map fs g) (4 * j)

  word_bound : (j : ℕ) → word j < 2 ^ 32
  unfolding word bitmap
  word_bound j =
      get32_bound (bitmap map fs g) (4 * j) (read_bytes fs (map_block map fs g) l.disk_bytes)

  taken : (j n : ℕ) → Fs
  taken j n = after count map fs l g hg 0xffff j (bit_or (word j) (2 ^ n))

  used_word : (j i : ℕ) → i / 32 ≡ j → used map fs g i ≡ bit_at (word j) (i % 32)
  unfolding used bit_of word
  used_word j i e = ap (λ k. bit_at (get32 (bitmap map fs g) (4 * k)) (i % 32)) e

  take_bit :
      (j n : ℕ)
      → free_count count fs g ≢ 0
      → j < fs.block_size / 4
      → n < 32
      → bit_at (word j) n ≡ 0
      → AllSet (used map fs g) 0 (j * 32 + n)
      → Taken count map fs (taken j n) g (j * 32 + n)
  unfolding taken bits free_count
  take_bit j n some_left hj hn clear all =
      let w = bit_or (word j) (2 ^ n) in
      let power : 2 ^ n < 2 ^ 32 = pow_below n hn in
      record {
        in_group = (hg, omega arith);
        was_free =
            used_word j (j * 32 + n) (omega arith) ∙ ap (bit_at (word j)) (omega arith) ∙ clear;
        below = all;
        bit = λ h i hh hi.
            after-used count map fs l g hg 0xffff j w h i hh hi hj
              (or_bound 32 (word j) (2 ^ n) (word_bound j) power)
            ∙ ground (arith, used_word j i, set_bit (word j) n (i % 32) hn);
        counted = λ h.
            after-free_count count map fs l g hg 0xffff j w h
            ∙ ground (arith, some_left, get16_bound fs.bgds (g * 30 + count) l.bgds_bytes);
      }

-- The group counts no free bit, or has none.
unfoldable pub NoFree : (count map : ℕ) → Fs → (g : ℕ) → Type 0
NoFree count map fs g = (free_count count fs g ≡ 0) ⊎ AllSet (used map fs g) 0 (bits fs)

-- What the loop gives from group `i` on.
unfoldable pub Outcome : (count map per : ℕ) → Fs → (i : ℕ) → ℕ × Fs → Type 0
Outcome count map per fs i (n, fs') =
    ((g k : ℕ) × (n ≡ (g * per + k) % 2 ^ 32)
      × Taken count map fs fs' g k
      × ((h : ℕ) → i ≤ h → h < g → NoFree count map fs h))
    ⊎ ((n ≡ 0xffffffff)
        × (fs' ≡ fs)
        × ((h : ℕ) → i ≤ h → h < fs.total_groups → NoFree count map fs h))

-- A group without a free bit is passed over.
skip :
    (count map per : ℕ) (fs : Fs) (i : ℕ) (r : ℕ × Fs)
    → NoFree count map fs i
    → Outcome count map per fs (i + 1) r
    → Outcome count map per fs i r
unfolding Outcome
skip count map per fs i (n, fs') here (inl (g, k, e, t, before)) =
    inl (g, k, e, t, λ h low high. pass h low high before)
  where
    pass :
        (h : ℕ)
        → i ≤ h
        → h < g
        → ((h : ℕ) → i + 1 ≤ h → h < g → NoFree count map fs h)
        → NoFree count map fs h
    pass h low high before = elim (Bool-cases (h == i)) [
      | inl t ↦ subst (NoFree count map fs) (sym (==→eq _ _ t)) here
      | inr f ↦ before h (omega (arith, ==→ne _ _ f)) high
    ]
skip count map per fs i (n, fs') here (inr (e, same, all)) = inr (
  e,
  same,
  λ h low high. elim (Bool-cases (h == i)) [
    | inl t ↦ subst (NoFree count map fs) (sym (==→eq _ _ t)) here
    | inr f ↦ all h (omega (arith, ==→ne _ _ f)) high
  ],
)

bits_lem : (fs : Fs) → bits fs ≤ (0 + fs.block_size / 4) * 32
unfolding bits
bits_lem fs = omega arith

from_words :
    (map : ℕ) (fs : Fs) (g n m m' : ℕ)
    → AllSet (bit_of (bitmap map fs g)) n m
    → n ≤ 0
    → m' ≤ m
    → AllSet (used map fs g) 0 m'
unfolding AllSet used
from_words map fs g n m m' all hn hm i low high = all i (omega arith) (omega arith)

-- One round of the loop.
module _ (count map per left i : ℕ) (fs : Fs) where
  round_counted :
      free_count count fs i ≡ 0
      → alloc_groups count map per (suc left) i fs ≡ alloc_groups count map per left (i + 1) fs
  unfolding alloc_groups free_count
  round_counted e = rw e refl

  round_full :
      find_free (fs.block_size / 4) 0 (bitmap map fs i) ≡ none
      → alloc_groups count map per (suc left) i fs ≡ alloc_groups count map per left (i + 1) fs
  unfolding alloc_groups bitmap map_block
  round_full e = elim (Bool-cases (get16 fs.bgds (i * 30 + count) == 0)) [
    | inl t ↦ rw t refl
    | inr f ↦ rw (f, e) refl
  ]

  round_take :
      (l : Layout count map fs) (hi : i < fs.total_groups) (j n : ℕ)
      → free_count count fs i ≢ 0
      → find_free (fs.block_size / 4) 0 (bitmap map fs i) ≡ some (j, n)
      → alloc_groups count map per (suc left) i fs
        ≡ (add32 (add32 (mul32 i per) (j * 32)) n, taken count map fs l i hi j n)
  unfolding alloc_groups bitmap map_block free_count taken word after
  round_take l hi j n ne e = rw (ne→== _ _ ne, e) refl

number_lem :
    (i per j n : ℕ) → add32 (add32 (mul32 i per) (j * 32)) n ≡ (i * per + (j * 32 + n)) % 2 ^ 32
unfolding add32 mul32
number_lem i per j n = omega arith

alloc_groups_lem :
    (count map per left i : ℕ) (fs : Fs)
    → Layout count map fs
    → i + left ≡ fs.total_groups
    → Outcome count map per fs i (alloc_groups count map per left i fs)
unfolding Outcome alloc_groups FirstFree NoFree word
alloc_groups_lem count map per zero i fs l e = inr (refl, refl, λ h low high. absurd (omega arith))
alloc_groups_lem count map per (suc left) i fs l e =
    let rest = alloc_groups_lem count map per left (i + 1) fs l (omega arith) in
    elim (Bool-cases (free_count count fs i == 0)) [
      | inl t ↦ pass (round_counted count map per left i fs (==→eq _ _ t)) (inl (==→eq _ _ t)) rest
      | inr f ↦ found (==→ne _ _ f) rest (find_free_lem (fs.block_size / 4) 0 (bitmap map fs i))
    ]
  where
    pass :
        alloc_groups count map per (suc left) i fs ≡ alloc_groups count map per left (i + 1) fs
        → NoFree count map fs i
        → Outcome count map per fs (i + 1) (alloc_groups count map per left (i + 1) fs)
        → Outcome count map per fs i (alloc_groups count map per (suc left) i fs)
    pass e' none_free rest =
        subst (Outcome count map per fs i) (sym e') (skip count map per fs i _ none_free rest)

    found :
        free_count count fs i ≢ 0
        → Outcome count map per fs (i + 1) (alloc_groups count map per left (i + 1) fs)
        → FirstFree (fs.block_size / 4) 0 (bitmap map fs i)
        → Outcome count map per fs i (alloc_groups count map per (suc left) i fs)
    found ne rest (inl (e', all)) =
        pass (round_full count map per left i fs e')
          (inr (from_words map fs i _ _ _ all (omega arith) (bits_lem fs))) rest
    found ne rest (inr (j, n, e', hj, hn, clear, below)) =
        let hi : i < fs.total_groups = omega arith in
        subst (Outcome count map per fs i) (sym (round_take count map per left i fs l hi j n ne e'))
          (inl (
            i,
            j * 32 + n,
            number_lem i per j n,
            take_bit count map fs l i hi j n ne (omega arith) hn clear
                (from_words map fs i _ _ _ below (omega arith) (omega arith)),
            λ h low high. absurd (omega arith),
          ))

-- On a volume whose bitmaps lie on the disk, each in a block of its own outside of the table of the
-- groups, with bytes below 256: `ext2_alloc_block` returns the number of the first free bit of the
-- first group that counts a free block and has a free bit. That bit is then set in the bitmap on the
-- disk, every other bit of every bitmap is as before, and one free block is counted off the group.
-- Where there is no such group it returns 0xffffffff and changes nothing.
pub ext2_alloc_block_lem :
    (fs : Fs) → Layout 12 0 fs → Outcome 12 0 fs.blocks_per_group fs 0 (ext2_alloc_block fs)
unfolding ext2_alloc_block
ext2_alloc_block_lem fs l =
    alloc_groups_lem 12 0 fs.blocks_per_group fs.total_groups 0 fs l (omega arith)

-- The same of `ext2_alloc_inode`, the other bitmaps and the count of free inodes.
pub ext2_alloc_inode_lem :
    (fs : Fs) → Layout 14 4 fs → Outcome 14 4 fs.inodes_per_group fs 0 (ext2_alloc_inode fs)
unfolding ext2_alloc_inode
ext2_alloc_inode_lem fs l =
    alloc_groups_lem 14 4 fs.inodes_per_group fs.total_groups 0 fs l (omega arith)
