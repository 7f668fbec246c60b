-- ===== src/Ext2/Bitmap/Numbers.antt =====
-- The numbers that ext2_alloc_inode gives, against the numbers of inodes from 1 on.
use lesch_os.Base.{
  ℕ, suc, ◌+◌, ◌-◌, ◌*◌, ◌/◌, ◌%◌, ◌^◌, ◌≤◌, ◌<◌, ◌≡◌, ◌≢◌, inl, inr, ap, ◌∙◌, arith, Bool-cases,
  ltb, ltb→lt, not-ltb→le,
}
use lesch_os.Ext2.{Fs}
use lesch_os.Ext2.Bitmap.{ext2_alloc_inode}
use lesch_os.Ext2.Bitmap.Words.{AllSet}
use lesch_os.Ext2.Bitmap.Groups.{used, bits, Layout}
use lesch_os.Ext2.Bitmap.Alloc.{Outcome, ext2_alloc_inode_lem}
use lesch_os.Ext2.Data.Span.{quotient_of}
use native.Mathlib.Nat.{mul-le-mul_right, suc-mul}

-- The bits behind the inodes of a group are set.
unfoldable pub Padded : Fs → Type 0
Padded fs =
    (g k : ℕ) → g < fs.total_groups → fs.inodes_per_group ≤ k → k < bits fs → used 4 fs g k ≡ 1

front :
    (fs : Fs)
    → Padded fs
    → fs.total_groups * fs.inodes_per_group < 2 ^ 32
    → (n g k : ℕ) → (g < fs.total_groups) × (k < bits fs)
    → n ≡ (g * fs.inodes_per_group + k) % 2 ^ 32
    → used 4 fs g k ≡ 0
    → AllSet (used 4 fs g) 0 k
    → 1 ≤ n % fs.inodes_per_group
    → used 4 fs (n / fs.inodes_per_group) (n % fs.inodes_per_group - 1) ≡ 1
unfolding Padded AllSet
front fs padded small n g k (hg, hk) e free below later =
    let per : ℕ = fs.inodes_per_group in
    let inside : k < per = elim (Bool-cases (ltb k per)) [
      | inl t ↦ ltb→lt _ _ t
      | inr f ↦ absurd (omega (arith, free, padded g k hg (not-ltb→le _ _ f) hk))
    ] in
    let all = mul-le-mul_right {m = suc g} {n = fs.total_groups} per hg in
    let exact : n ≡ g * per + k = omega (arith, e, all, suc-mul g per, small, inside) in
    let (q, rest) = quotient_of g k per inside in
    let group : n / per ≡ g = ap (λ t. t / per) exact ∙ q in
    let place : n % per ≡ k = ap (λ t. t % per) exact ∙ rest in
    rw (group, place) (below (k - 1) (omega arith) (omega (arith, later, place)))

-- On a volume whose inode bitmaps lie on the disk, each in a block of its own outside of the table of
-- the groups, with bytes below 256 and the bits behind a group's inodes set, and with inode numbers
-- below 2^32: where `ext2_alloc_inode` returns a number that is not 0xffffffff and not a multiple of
-- the inodes of a group, the bit in front of the one it took was set before. That is the bit of the
-- inode that stands at this number in the table.
pub used-ext2_alloc_inode :
    (fs : Fs)
    → Layout 14 4 fs
    → Padded fs
    → fs.total_groups * fs.inodes_per_group < 2 ^ 32
    → (ext2_alloc_inode fs).0 ≢ 0xffffffff
    → 1 ≤ (ext2_alloc_inode fs).0 % fs.inodes_per_group
    → used 4 fs
        ((ext2_alloc_inode fs).0 / fs.inodes_per_group)
        ((ext2_alloc_inode fs).0 % fs.inodes_per_group - 1)
      ≡ 1
unfolding Outcome
used-ext2_alloc_inode fs l padded small found later = from (ext2_alloc_inode_lem fs l)
  where
    from :
        Outcome 14 4 fs.inodes_per_group fs 0 (ext2_alloc_inode fs)
        → used 4 fs
            ((ext2_alloc_inode fs).0 / fs.inodes_per_group)
            ((ext2_alloc_inode fs).0 % fs.inodes_per_group - 1)
          ≡ 1
    from (inr (e, _, _)) = absurd (found e)
    from (inl (g, k, e, t, _)) =
        front fs padded small ((ext2_alloc_inode fs).0) g k (t.in_group) e (t.was_free) (t.below)
          later
