-- ===== src/Ext2/Inode/Place.antt =====
-- src/ext2.c: the place of an inode in the table of its group.
use lesch_os.Base.{
  ℕ, suc, ◌+◌, ◌-◌, ◌*◌, ◌/◌, ◌%◌, ◌^◌, ◌≤◌, ◌<◌, ◌≡◌, refl, ap, ◌∙◌, arith, sym, sub32, add32,
}
use lesch_os.Ext2.{Fs, get32, mul32, inode_size, inode_block}
use native.Mathlib.Omega.{div_any}
use native.Mathlib.Nat.{
  mul-div-mul_right, mul-div_cancel, mul-le-mul_right, mod-le, mod-lt, mul_assoc, mul_comm, add-mul,
  suc-mul,
}

rest_of : (a b : ℕ) → a < 2 ^ 32 → sub32 a (mul32 (a / b) b) ≡ a % b
unfolding sub32 mul32
rest_of a b h = omega (arith, div_any a b, mul_comm b (a / b))

one_less : (a : ℕ) → 1 ≤ a → a < 2 ^ 32 → sub32 a 1 ≡ a - 1
unfolding sub32
one_less a h h' = omega arith

product : (a b : ℕ) → a * b < 2 ^ 32 → mul32 a b ≡ a * b
unfolding mul32
product a b h = omega arith

-- The place of an inode in the table of its group, in bytes from the table's first block.
module _ (fs : Fs) (q ino_idx : ℕ) (hq : fs.block_size ≡ q * inode_size fs)
    (some_size : 1 ≤ inode_size fs) (some_inodes : 1 ≤ q) (word : ino_idx < 2 ^ 32)
    (table_words : ino_idx % fs.inodes_per_group * inode_size fs < 2 ^ 32)
    (not_first : 1 ≤ ino_idx % fs.inodes_per_group) where
  idx : ℕ
  idx = ino_idx % fs.inodes_per_group - 1

  table : ℕ
  table = get32 fs.bgds (ino_idx / fs.inodes_per_group * 30 + 8)

  inode_block_eq : inode_block fs ino_idx ≡ (add32 table (idx / q), idx % q * inode_size fs)
  unfolding inode_block table idx
  inode_block_eq =
      let s : ℕ = inode_size fs in
      let n : ℕ = ino_idx % fs.inodes_per_group in
      let bytes : (n - 1) * s ≤ n * s = mul-le-mul_right s (omega arith) in
      let part : (n - 1) % q * s ≤ (n - 1) * s = mul-le-mul_right s (mod-le (n - 1) q) in
      rw
        (
          rest_of ino_idx fs.inodes_per_group word,
          one_less n not_first (omega (arith, mod-le ino_idx fs.inodes_per_group)),
          product (n - 1) s (omega arith),
          ap (λ t. (n - 1) * s / t) hq ∙ mul-div-mul_right (n - 1) q some_size,
          ap (λ t. t / s) hq ∙ mul-div_cancel q some_size,
          rest_of (n - 1) q (omega (arith, mod-le ino_idx fs.inodes_per_group)),
          product ((n - 1) % q) s (omega arith),
        )
        refl

  inode_block_place :
      (idx / q * fs.block_size + idx % q * inode_size fs ≡ idx * inode_size fs)
      × (idx % q * inode_size fs + inode_size fs ≤ fs.block_size)
  inode_block_place =
      let s : ℕ = inode_size fs in
      let last : idx % q < q = mod-lt idx some_inodes in
      (
        ap (λ t. idx / q * t + idx % q * s) hq
            ∙ (ap (λ t. t + idx % q * s) (sym (mul_assoc (idx / q) q s))
                ∙ (sym (add-mul (idx / q * q) (idx % q) s)
                    ∙ ap (λ t. t * s) (omega (arith, div_any idx q, mul_comm q (idx / q))))),
        omega (arith, hq, suc-mul (idx % q) s, mul-le-mul_right {m = suc (idx % q)} {n = q} s last),
      )

-- On a volume whose blocks hold a whole number of inodes, one or more, for an inode of 32 bits that is
-- not a multiple of the inodes of a group, in a table of less than 2^32 bytes: `inode_block` is a block
-- of the table and an offset that together lie `ino_idx % inodes_per_group - 1` inodes from the
-- table's start, and the inode ends within that block.
pub inode_block_lem :
    (fs : Fs) (q ino_idx : ℕ)
    → fs.block_size ≡ q * inode_size fs
    → 1 ≤ inode_size fs
    → 1 ≤ q
    → ino_idx < 2 ^ 32
    → ino_idx % fs.inodes_per_group * inode_size fs < 2 ^ 32
    → 1 ≤ ino_idx % fs.inodes_per_group
    → (off at : ℕ) × (inode_block fs ino_idx
        ≡ (add32 (get32 fs.bgds (ino_idx / fs.inodes_per_group * 30 + 8)) off, at))
      × (off * fs.block_size + at ≡ (ino_idx % fs.inodes_per_group - 1) * inode_size fs)
      × (at + inode_size fs ≤ fs.block_size)
unfolding idx table
inode_block_lem fs q ino_idx hq hs hn hw ht hi =
    let n : ℕ = ino_idx % fs.inodes_per_group - 1 in
    let (place, fits) = inode_block_place fs q ino_idx hq hs hn hw ht hi in
    (n / q, n % q * inode_size fs, inode_block_eq fs q ino_idx hq hs hn hw ht hi, place, fits)
