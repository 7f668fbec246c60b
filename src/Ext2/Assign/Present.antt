-- ===== src/Ext2/Assign/Present.antt =====
-- set_disk_block_number where the blocks of the path are there.
use lesch_os.Base.{ℕ, ◌+◌, ◌*◌, ◌/◌, ◌<◌, ◌≡◌, ◌≢◌, refl, ◌∙◌, arith, sym, ne→==}
use lesch_os.Ext2.{
  Buffer, Fs, Inode, fresh, get32, put32, inode_block, block_ptr, ext2_read_block,
  ext2_write_inode_metadata,
}
use lesch_os.Ext2.Blocks.{OnDisk, word_of_read}
use lesch_os.Ext2.Chain.{Route, direct, single, double, triple, word, Sized}
use lesch_os.Ext2.Chain.Index.{minus_neg, square_lem, single_lem, double_lem, triple_lem}
use lesch_os.Ext2.Assign.{alloc_in_inode, alloc_in_block, set_disk_block_number}
use lesch_os.Ext2.Assign.Stored.{put_word_any, stored}

-- A block of pointers that is there: not 0, on the disk, and not the block of the inode itself.
pub record Index (fs : Fs) (ino_idx block : ℕ) : Type 0 where
  pub there : block ≢ 0
  pub block_OnDisk : OnDisk fs block
  pub apart : block ≢ (inode_block fs ino_idx).0

-- All blocks of pointers on the path are there, and the last one is none of the others.
unfoldable pub Mapped : Fs → Inode → (ino_idx : ℕ) → Route → Type 0
Mapped fs inode ino_idx (direct k) = Unit {0}
Mapped fs inode ino_idx (single a) = Index fs ino_idx (get32 inode (block_ptr 12))
Mapped fs inode ino_idx (double c d) =
    let first = get32 inode (block_ptr 13) in
    let last = word fs first c in Index fs ino_idx first × Index fs ino_idx last × (first ≢ last)
Mapped fs inode ino_idx (triple e f g) =
    let first = get32 inode (block_ptr 14) in
    let second = word fs first e in
    let last = word fs second f in
    Index fs ino_idx first
    × Index fs ino_idx second
    × Index fs ino_idx last
    × (first ≢ last)
    × (second ≢ last)

there_inode :
    (at : ℕ) (fs : Fs) (inode : Inode) (ino_idx : ℕ)
    → get32 inode at ≢ 0
    → alloc_in_inode at fs inode ino_idx ≡ (fs, inode)
unfolding alloc_in_inode
there_inode at fs inode ino_idx h = rw (ne→== _ _ h) refl

there_block :
    (at : ℕ) (fs : Fs) (buff : Buffer) (overw : ℕ)
    → get32 buff at ≢ 0
    → alloc_in_block at fs buff overw ≡ (fs, buff)
unfolding alloc_in_block
there_block at fs buff overw h = rw (ne→== _ _ h) refl

module _ (fs : Fs) (p : ℕ) (h : Sized fs p) (inode : Inode) (ino_idx w : ℕ) where
  words : fs.block_size / 4 ≡ p
  words = omega (arith, h.size)

  pub set-direct :
      (k : ℕ)
      → k < 12
      → set_disk_block_number fs inode ino_idx k w ≡ (
        ext2_write_inode_metadata fs (put32 (block_ptr k) w inode) ino_idx,
        put32 (block_ptr k) w inode,
      )
  unfolding set_disk_block_number
  set-direct k hk = rw (minus_neg k 12 hk (omega arith)) refl

  pub set-single :
      (a : ℕ)
      → a < p
      → Mapped fs inode ino_idx (single a)
      → set_disk_block_number fs inode ino_idx (12 + a) w
        ≡ stored fs inode ino_idx (get32 inode (block_ptr 12)) a w
  unfolding set_disk_block_number Mapped stored
  set-single a ha m =
      let at = single_lem p h.some_words h.few_words a ha in
      rw
        (
          words,
          at.not_direct,
          at.behind,
          at.is_single,
          there_inode (block_ptr 12) fs inode ino_idx m.there,
        )
        refl

  pub set-double :
      (c d : ℕ)
      → c < p
      → d < p
      → Mapped fs inode ino_idx (double c d)
      → set_disk_block_number fs inode ino_idx (12 + (p + (c * p + d))) w
        ≡ stored fs inode ino_idx (word fs (get32 inode (block_ptr 13)) c) d w
  unfolding set_disk_block_number Mapped stored word
  set-double c d hc hd (first, last, apart) =
      let at = double_lem p h.some_words h.few_words c d hc hd in
      let square = square_lem p h.some_words h.few_words in
      let ret = ext2_read_block fs (get32 inode (block_ptr 13)) fresh in
      rw
        (
          words,
          at.not_direct,
          at.behind,
          at.not_single,
          at.behind_single,
          square,
          at.is_double,
          at.first,
          at.first_words,
          at.second,
          there_inode (block_ptr 13) fs inode ino_idx first.there,
          there_block (4 * c) fs ret (get32 inode (block_ptr 13)) last.there,
          put_word_any fs (get32 ret (4 * c)) d w ret,
        )
        refl

  pub set-triple :
      (e f g : ℕ)
      → e < p
      → f < p
      → g < p
      → Mapped fs inode ino_idx (triple e f g)
      → set_disk_block_number fs inode ino_idx (12 + (p + (p * p + ((e * p + f) * p + g)))) w
        ≡ stored fs inode ino_idx (word fs (word fs (get32 inode (block_ptr 14)) e) f) g w
  unfolding set_disk_block_number Mapped stored word
  set-triple e f g he hf hg (first, second, last, apart, apart') =
      let at = triple_lem p h.some_words h.few_words e f g he hf hg in
      let square = square_lem p h.some_words h.few_words in
      let ret = ext2_read_block fs (get32 inode (block_ptr 14)) fresh in
      let tmp = get32 ret (4 * e) in
      let ret' = ext2_read_block fs tmp ret in
      let same : get32 ret' (4 * f) ≡ get32 (ext2_read_block fs tmp fresh) (4 * f) =
        word_of_read fs tmp f ret fresh (omega (arith, h.size)) in
      rw
        (
          words,
          at.not_direct,
          at.behind,
          at.not_single,
          at.behind_single,
          square,
          at.not_double,
          at.behind_double,
          at.cube,
          at.is_triple,
          at.first,
          at.first_row,
          at.first_words,
          at.behind_first,
          at.second,
          at.second_words,
          at.third,
          there_inode (block_ptr 14) fs inode ino_idx first.there,
          there_block (4 * e) fs ret (get32 inode (block_ptr 14)) second.there,
          there_block (4 * f) fs ret' tmp (λ z. last.there (sym same ∙ z)),
          put_word_any fs (get32 ret' (4 * f)) g w ret',
          same,
        )
        refl
