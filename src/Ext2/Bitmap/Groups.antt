-- ===== src/Ext2/Bitmap/Groups.antt =====
-- The bitmaps of all groups, and what a change of one word leaves of them.
use lesch_os.Base.{
  ℕ, zero, suc, ◌+◌, ◌*◌, ◌/◌, ◌%◌, ◌^◌, ◌≤◌, ◌<◌, ◌≡◌, ◌≢◌, ◌⊎◌, inl, inr, refl, ap, ◌∙◌, arith,
  ◌&&◌, ◌==◌, if◌then◌else◌, ltb, Bool-cases, ltb→lt, not-ltb→le, ==→eq, ==→ne, sym,
}
use lesch_os.Base.BitAt.{bit_at}
use lesch_os.Ext2.{
  Buffer, Fs, fresh, get16, get32, put16, put32, ext2_read_block, ext2_write_block, write_bgds,
  rewrite_bgds,
}
use lesch_os.Ext2.Blocks.{
  OnDisk, read-write_same, read-write_other, get32-put16_other, get16-put16, get16-put16_other,
}
use native.Mathlib.Nat.{mul-le-mul_left, zero-add}
use lesch_os.Ext2.Bitmap.{add_count, set_word}
use lesch_os.Ext2.Bitmap.Words.{bit_of, bit_of-put32}

-- The block of the bitmap of group `g`, and its bit `k`.
unfoldable pub map_block : (map : ℕ) → Fs → (g : ℕ) → ℕ
map_block map fs g = get32 fs.bgds (g * 30 + map)

unfoldable pub bitmap : (map : ℕ) → Fs → (g : ℕ) → Buffer
bitmap map fs g = ext2_read_block fs (map_block map fs g) fresh

unfoldable pub used : (map : ℕ) → Fs → (g k : ℕ) → ℕ
used map fs g k = bit_of (bitmap map fs g) k

unfoldable pub free_count : (count : ℕ) → Fs → (g : ℕ) → ℕ
free_count count fs g = get16 fs.bgds (g * 30 + count)

-- How many bits of a bitmap the code reads.
unfoldable pub bits : Fs → ℕ
bits fs = fs.block_size / 4 * 32

-- The bitmaps lie in blocks of their own, behind or before the table of the groups.
pub record Layout (count map : ℕ) (fs : Fs) : Type 0 where
  pub fields : (map + 4 ≤ count) × (count + 2 ≤ 30)
  pub map_OnDisk : (g : ℕ) → g < fs.total_groups → OnDisk fs (map_block map fs g)
  pub apart :
      (g h : ℕ)
      → g < fs.total_groups
      → h < fs.total_groups
      → g ≢ h
      → map_block map fs g ≢ map_block map fs h
  pub outside :
      (g : ℕ)
      → g < fs.total_groups
      → (map_block map fs g < 2) ⊎ (2 + fs.bgd_blocks ≤ map_block map fs g)
  pub disk_bytes : (a : ℕ) → fs.disk a < 256
  pub bgds_bytes : (a : ℕ) → fs.bgds a < 256
  pub table_OnDisk : OnDisk fs (2 + fs.bgd_blocks)

OnDisk-below : (fs : Fs) (b c : ℕ) → b ≤ c → OnDisk fs c → OnDisk fs b
unfolding OnDisk
OnDisk-below fs b c h hc = omega (arith, mul-le-mul_left {m = b} {n = c} fs.block_size h)

write_bgds-read :
    (left i : ℕ) (fs : Fs) (b : ℕ) (old : Buffer)
    → OnDisk fs (2 + (i + left))
    → OnDisk fs b
    → (b < 2) ⊎ (2 + (i + left) ≤ b)
    → ext2_read_block (write_bgds left i fs) b old ≡ ext2_read_block fs b old
unfolding write_bgds ext2_write_block OnDisk
write_bgds-read zero i fs b old ht hb out = refl
write_bgds-read (suc left) i fs b old ht hb out =
    let table : Buffer = λ k. fs.bgds (i * fs.block_size + k) in
    let same : i + 1 + left ≡ i + suc left = omega arith in
    write_bgds-read left (i + 1) (ext2_write_block fs (2 + i) table) b old
      (omega (arith, ap (λ t. fs.block_size * (2 + t)) same, ht)) hb (ground (arith, out))
    ∙ read-write_other fs (2 + i) b table old
        (OnDisk-below fs (2 + i) (2 + (i + suc left)) (omega arith) ht) hb (ground (arith, out))

-- Nothing but the disk changes.
record SameFs (fs fs' : Fs) : Type 0 where
  pub sb : fs'.sb ≡ fs.sb
  pub bgds : fs'.bgds ≡ fs.bgds
  pub block_size : fs'.block_size ≡ fs.block_size
  pub bgd_blocks : fs'.bgd_blocks ≡ fs.bgd_blocks
  pub total_groups : fs'.total_groups ≡ fs.total_groups
  pub blocks_per_group : fs'.blocks_per_group ≡ fs.blocks_per_group
  pub inodes_per_group : fs'.inodes_per_group ≡ fs.inodes_per_group

write_bgds_same : (left i : ℕ) (fs : Fs) → SameFs fs (write_bgds left i fs)
unfolding write_bgds ext2_write_block
write_bgds_same zero i fs = record {
  sb = refl;
  bgds = refl;
  block_size = refl;
  bgd_blocks = refl;
  total_groups = refl;
  blocks_per_group = refl;
  inodes_per_group = refl;
}
write_bgds_same (suc left) i fs =
    let table : Buffer = λ k. fs.bgds (i * fs.block_size + k) in
    let rest = write_bgds_same left (i + 1) (ext2_write_block fs (2 + i) table) in
    record {
      sb = rest.sb;
      bgds = rest.bgds;
      block_size = rest.block_size;
      bgd_blocks = rest.bgd_blocks;
      total_groups = rest.total_groups;
      blocks_per_group = rest.blocks_per_group;
      inodes_per_group = rest.inodes_per_group;
    }

bit_of_cut :
    (s : ℕ) (b : Buffer) (k : ℕ)
    → 4 * (k / 32) + 4 ≤ s
    → bit_of (λ i. if ltb i s then b i else fresh i) k ≡ bit_of b k
unfolding bit_of get32
bit_of_cut s b k h = ap (λ t. bit_at t (k % 32)) (ground arith)

-- After the change of word `j` of the bitmap of group `g`.
module _ (count map : ℕ) (fs : Fs) (l : Layout count map fs) (g : ℕ) (hg : g < fs.total_groups)
    (d j w : ℕ) where
  unfoldable pub after : Fs
  after = set_word (g * 30 + count) d (map_block map fs g) j w (bitmap map fs g) fs

  written : Fs
  written =
      add_count (g * 30 + count) d
        (ext2_write_block fs (map_block map fs g) (put32 (4 * j) w (bitmap map fs g)))

  after_same : SameFs written after
  unfolding after written set_word rewrite_bgds add_count ext2_write_block
  after_same = write_bgds_same fs.bgd_blocks 0 written

  after-map_block : (h : ℕ) → map_block map after h ≡ map_block map fs h
  unfolding map_block written add_count ext2_write_block
  after-map_block h =
      ap (λ b. get32 b (h * 30 + map)) after_same.bgds
      ∙ get32-put16_other fs.bgds (g * 30 + count) (h * 30 + map) _
          (ground (arith, l.fields, Bool-cases (ltb g h), ltb→lt g h, not-ltb→le g h))

  pub after-free_count :
      (h : ℕ)
      → free_count count after h
        ≡ (if h == g then (free_count count fs g + d) % 2 ^ 16 else free_count count fs h)
  unfolding free_count written add_count ext2_write_block
  after-free_count h =
      ap (λ b. get16 b (h * 30 + count)) after_same.bgds ∙ elim (Bool-cases (h == g)) [
        | inl t ↦ rw (t, ==→eq _ _ t) (get16-put16 fs.bgds (g * 30 + count) _ (omega arith))
        | inr f ↦ rw f (
            get16-put16_other fs.bgds (g * 30 + count) (h * 30 + count) _
              (ground (arith, l.fields, ==→ne _ _ f)))
      ]

  after_read :
      (h : ℕ)
      → h < fs.total_groups
      → bitmap map after h
        ≡ ext2_read_block
            (ext2_write_block fs (map_block map fs g) (put32 (4 * j) w (bitmap map fs g)))
            (map_block map fs h)
            fresh
  unfolding bitmap after written set_word rewrite_bgds add_count ext2_write_block ext2_read_block
      OnDisk put16
  after_read h hh =
      ap (λ b. ext2_read_block after b fresh) (after-map_block h)
      ∙ write_bgds-read fs.bgd_blocks 0 written (map_block map fs h) fresh
          (omega
            (arith, l.table_OnDisk, ap (λ t. fs.block_size * (2 + t)) (zero-add fs.bgd_blocks)))
          (l.map_OnDisk h hh) (ground (arith, l.outside h hh))

  -- Bit `k` of the bitmap of group `h`.
  pub after-used :
      (h k : ℕ)
      → h < fs.total_groups
      → k < bits fs
      → j < fs.block_size / 4
      → w < 2 ^ 32
      → used map after h k
        ≡ (if (h == g) && (k / 32 == j) then bit_at w (k % 32) else used map fs h k)
  unfolding used bits bitmap
  after-used h k hh hk hj hw = elim (Bool-cases (h == g)) [
    | inl t ↦
        let e : h ≡ g = ==→eq _ _ t in
        let here = map_block map fs g in
        let buf = put32 (4 * j) w (bitmap map fs g) in
        rw (t, e)
          (ap (λ b. bit_of b k)
              (ap (bitmap map after) (sym e)
                ∙ after_read h hh
                ∙ ap
                    (λ b. ext2_read_block (ext2_write_block fs here buf) (map_block map fs b) fresh)
                    e
                ∙ read-write_same fs here buf fresh (l.map_OnDisk g hg))
            ∙ bit_of_cut fs.block_size buf k (omega arith)
            ∙ bit_of-put32 (bitmap map fs g) j w k hw)
    | inr f ↦ rw f (
        ap (λ b. bit_of b k)
          (after_read h hh
            ∙ read-write_other fs (map_block map fs g) (map_block map fs h) _ fresh
                (l.map_OnDisk g hg) (l.map_OnDisk h hh)
                (l.apart g h hg hh (λ e. ==→ne _ _ f (sym e)))))
  ]
