-- ===== src/Ext2/Assign/RoundTrip.antt =====
-- get_disk_block_number after set_disk_block_number where the blocks of the path are there.
use mathlib.Core.Path.{subst}
use lesch_os.Base.{
  ℕ, ◌+◌, ◌*◌, ◌^◌, ◌<◌, ◌≡◌, ◌≢◌, ◌⊎◌, inl, refl, ap, ◌∙◌, arith, ◌&&◌, ◌==◌, if◌then◌else◌, sym,
  eq→==, some,
}
use lesch_os.Ext2.{
  Fs, Inode, get32, put32, block_ptr, ext2_write_block, ext2_write_inode_metadata,
  get_disk_block_number,
}
use lesch_os.Ext2.Blocks.{get32-put32}
use lesch_os.Ext2.Chain.{
  Route, direct, single, double, triple, Within, index, word, follow, Sized,
  get_disk_block_number_lem,
}
use lesch_os.Ext2.Inode.{InTable}
use lesch_os.Ext2.Assign.{put_word, set_disk_block_number}
use lesch_os.Ext2.Assign.Stored.{stored, word-stored}
use lesch_os.Ext2.Assign.Present.{Index, Mapped, set-direct, set-single, set-double, set-triple}

block_ptr_lem : (k : ℕ) → block_ptr k ≡ 4 * (10 + k)
unfolding block_ptr
block_ptr_lem k = omega arith

module _ (fs : Fs) (p : ℕ) (h : Sized fs p) (inode : Inode) (ino_idx w : ℕ) (hw : w < 2 ^ 32)
    (t : InTable fs ino_idx) where
  -- A word of a block on a path, after the word `j` of the block `last` is stored.
  read_back :
      (last j b k : ℕ)
      → Index fs ino_idx last
      → Index fs ino_idx b
      → k < p
      → word ((stored fs inode ino_idx last j w).0) b k
        ≡ (if (b == last) && (k == j) then w else word fs b k)
  read_back last j b k hl hb hk =
      word-stored fs inode ino_idx last j w b k t.block_OnDisk hl.block_OnDisk hb.block_OnDisk
        hb.apart (omega (arith, h.size)) hw

  here :
      (last j : ℕ)
      → Index fs ino_idx last
      → j < p
      → word ((stored fs inode ino_idx last j w).0) last j ≡ w
  here last j hl hj =
      read_back last j last j hl hl hj ∙ rw (eq→== last last refl, eq→== j j refl) refl

  kept :
      (last j b k : ℕ)
      → Index fs ino_idx last
      → Index fs ino_idx b
      → k < p
      → (b ≢ last) ⊎ (k ≢ j)
      → word ((stored fs inode ino_idx last j w).0) b k ≡ word fs b k
  kept last j b k hl hb hk ne = read_back last j b k hl hb hk ∙ ground (arith, ne)

  Sized-after : (last j : ℕ) → Sized ((stored fs inode ino_idx last j w).0) p
  unfolding stored put_word ext2_write_block ext2_write_inode_metadata
  Sized-after last j = record { size = h.size; some_words = h.some_words; few_words = h.few_words }

  follow_here :
      (path : Route)
      → Within p path
      → Mapped fs inode ino_idx path
      → let after = set_disk_block_number fs inode ino_idx (index p path) w in
        follow (after.0) (after.1) path ≡ w
  unfolding Within Mapped index follow stored
  follow_here (direct k) hk m =
      rw (set-direct fs p h inode ino_idx w k hk)
        (ap (λ o. get32 (put32 o w inode) o) (block_ptr_lem k) ∙ get32-put32 inode (10 + k) w hw)
  follow_here (single a) ha m =
      rw (set-single fs p h inode ino_idx w a ha m) (here (get32 inode (block_ptr 12)) a m ha)
  follow_here (double c d) (hc, hd) (first, last, apart) =
      let b = get32 inode (block_ptr 13) in
      let l = word fs b c in
      rw
        (
          set-double fs p h inode ino_idx w c d hc hd (first, last, apart),
          kept l d b c last first hc (inl apart),
        )
        (here l d last hd)
  follow_here (triple e f g) (he, hf, hg) (first, second, last, apart, apart') =
      let b = get32 inode (block_ptr 14) in
      let b' = word fs b e in
      let l = word fs b' f in
      rw
        (
          set-triple fs p h inode ino_idx w e f g he hf hg (first, second, last, apart, apart'),
          kept l g b e last first he (inl apart),
          kept l g b' f last second hf (inl apart'),
        )
        (here l g last hg)

  Sized-set :
      (path : Route)
      → Within p path
      → Mapped fs inode ino_idx path
      → Sized ((set_disk_block_number fs inode ino_idx (index p path) w).0) p
  unfolding Within Mapped index ext2_write_block ext2_write_inode_metadata
  Sized-set (direct k) hk m =
      subst (λ r. Sized (r.0) p) (sym (set-direct fs p h inode ino_idx w k hk))
        (record { size = h.size; some_words = h.some_words; few_words = h.few_words })
  Sized-set (single a) ha m =
      subst (λ r. Sized (r.0) p) (sym (set-single fs p h inode ino_idx w a ha m)) (Sized-after _ a)
  Sized-set (double c d) (hc, hd) m =
      subst (λ r. Sized (r.0) p) (sym (set-double fs p h inode ino_idx w c d hc hd m))
        (Sized-after _ d)
  Sized-set (triple e f g) (he, hf, hg) m =
      subst (λ r. Sized (r.0) p) (sym (set-triple fs p h inode ino_idx w e f g he hf hg m))
        (Sized-after _ g)

-- For a volume whose blocks hold one word to 1024, an inode that lies in one block on the disk, a path
-- whose blocks of pointers are there, apart from the inode's block and the last one apart from the
-- others, and a disk block of 32 bits: after `set_disk_block_number` at the place of the path,
-- `get_disk_block_number` there returns the disk block.
pub get-set_disk_block_number :
    (fs : Fs) (p : ℕ) (inode : Inode) (ino_idx disk_block : ℕ) (path : Route)
    → Sized fs p
    → disk_block < 2 ^ 32
    → InTable fs ino_idx
    → Within p path
    → Mapped fs inode ino_idx path
    → let after = set_disk_block_number fs inode ino_idx (index p path) disk_block in
      get_disk_block_number (after.0) (after.1) (index p path) ≡ some disk_block
get-set_disk_block_number fs p inode ino_idx disk_block path h hw t within m =
    let after = set_disk_block_number fs inode ino_idx (index p path) disk_block in
    get_disk_block_number_lem (after.0) p (after.1) path
      (Sized-set fs p h inode ino_idx disk_block hw t path within m) within
    ∙ ap some (follow_here fs p h inode ino_idx disk_block hw t path within m)
