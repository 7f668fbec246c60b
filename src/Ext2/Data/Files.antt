-- ===== src/Ext2/Data/Files.antt =====
-- A file whose blocks are there: what a write of one of them leaves of the others and of the pointers.
use lesch_os.Base.{
  ℕ, ◌*◌, ◌/◌, ◌%◌, ◌≤◌, ◌≡◌, ◌≢◌, inl, inr, refl, ap, ◌∙◌, arith, ◌==◌, if◌then◌else◌, Bool-cases,
  ==→eq, ==→ne, sym, some,
}
use lesch_os.Ext2.{
  Buffer, Fs, Inode, fresh, get32, block_ptr, ext2_write_block, get_disk_block_number,
}
use lesch_os.Ext2.Blocks.{OnDisk, read-write_same, read-write_other}
use lesch_os.Ext2.Chain.{
  Route, direct, single, double, triple, Within, index, word, follow, Sized,
  get_disk_block_number_lem,
}
use lesch_os.Ext2.Data.Read.{file_byte}
use mathlib.Core.Path.{subst}
use native.Mathlib.Nat.{mod-lt}

-- A block of pointers on the disk that is not the block `b`.
pub record Other (fs : Fs) (b x : ℕ) : Type 0 where
  pub x_OnDisk : OnDisk fs x
  pub differs : x ≢ b

-- No block of pointers on the path is the block `b`.
unfoldable pub Clear : Fs → Inode → (b : ℕ) → Route → Type 0
Clear fs inode b (direct k) = Unit {0}
Clear fs inode b (single a) = Other fs b (get32 inode (block_ptr 12))
Clear fs inode b (double c d) =
    Other fs b (get32 inode (block_ptr 13)) × Other fs b (word fs (get32 inode (block_ptr 13)) c)
Clear fs inode b (triple e f g) =
    Other fs b (get32 inode (block_ptr 14))
    × Other fs b (word fs (get32 inode (block_ptr 14)) e)
    × Other fs b (word fs (word fs (get32 inode (block_ptr 14)) e) f)

module _ (fs : Fs) (inode : Inode) (b : ℕ) (buff : Buffer) (hb : OnDisk fs b) where
  written : Fs
  written = ext2_write_block fs b buff

  word_keep : (x k : ℕ) → Other fs b x → word written x k ≡ word fs x k
  unfolding word written
  word_keep x k o =
      ap (λ r. get32 r (4 * k))
        (read-write_other fs b x buff fresh hb o.x_OnDisk (λ e. o.differs (sym e)))

  pub follow_keep :
      (path : Route)
      → Clear fs inode b path
      → follow (ext2_write_block fs b buff) inode path ≡ follow fs inode path
  unfolding follow Clear written
  follow_keep (direct k) c = refl
  follow_keep (single a) c = word_keep _ a c
  follow_keep (double c d) (o, o') = ap (λ t. word written t d) (word_keep _ c o) ∙ word_keep _ d o'
  follow_keep (triple e f g) (o, o', o'') =
      ap (λ t. word written (word written t f) g) (word_keep _ e o)
      ∙ (ap (λ t. word written t g) (word_keep _ f o') ∙ word_keep _ g o'')

  Other-keep : (b' x : ℕ) → Other fs b' x → Other written b' x
  unfolding written ext2_write_block OnDisk
  Other-keep b' x o = record { x_OnDisk = o.x_OnDisk; differs = o.differs }

  Other-word :
      (b' x k : ℕ) → Other fs b x → Other fs b' (word fs x k) → Other written b' (word written x k)
  Other-word b' x k o o' =
      subst (Other written b') (sym (word_keep x k o)) (Other-keep b' (word fs x k) o')

  pub Clear-keep :
      (b' : ℕ) (path : Route)
      → Clear fs inode b path
      → Clear fs inode b' path
      → Clear (ext2_write_block fs b buff) inode b' path
  unfolding Clear written
  Clear-keep b' (direct k) c c' = tt
  Clear-keep b' (single a) c c' = Other-keep b' _ c'
  Clear-keep b' (double c d) (o, o') (q, q') = (Other-keep b' _ q, Other-word b' _ c o q')
  Clear-keep b' (triple e f g) (o, o', o'') (q, q', q'') = (
    Other-keep b' _ q,
    Other-word b' _ e o q',
    subst (λ t. Other written b' (word written t f)) (sym (word_keep _ e o))
        (Other-word b' _ f o' q''),
  )

-- Up to block `top` the file's blocks are `blk`, by the paths `path`: they are on the disk, each
-- its own, and none is a block of pointers of the file.
pub record File (p top : ℕ) (blk : ℕ → ℕ) (path : ℕ → Route) (fs : Fs) (inode : Inode)
    : Type 0 where
  pub sized : Sized fs p
  pub numbered : (i : ℕ) → i ≤ top → index p (path i) ≡ i
  pub within : (i : ℕ) → i ≤ top → Within p (path i)
  pub followed : (i : ℕ) → i ≤ top → follow fs inode (path i) ≡ blk i
  pub there : (i : ℕ) → i ≤ top → blk i ≢ 0
  pub blk_OnDisk : (i : ℕ) → i ≤ top → OnDisk fs (blk i)
  pub apart : (i j : ℕ) → i ≤ top → j ≤ top → i ≢ j → blk i ≢ blk j
  pub clear : (i j : ℕ) → i ≤ top → j ≤ top → Clear fs inode (blk i) (path j)

module _ (p top : ℕ) (blk : ℕ → ℕ) (path : ℕ → Route) (fs : Fs) (inode : Inode)
    (f : File p top blk path fs inode) where
  pub number_lem : (i : ℕ) → i ≤ top → get_disk_block_number fs inode i ≡ some (blk i)
  number_lem i h =
      ap (get_disk_block_number fs inode) (sym (f.numbered i h))
      ∙ (get_disk_block_number_lem fs p inode (path i) f.sized (f.within i h)
          ∙ ap some (f.followed i h))

  -- A write of a block that is none of the pointers leaves all of this.
  pub write-File :
      (b : ℕ) (buff : Buffer)
      → OnDisk fs b
      → ((j : ℕ) → j ≤ top → Clear fs inode b (path j))
      → File p top blk path (ext2_write_block fs b buff) inode
  unfolding ext2_write_block OnDisk
  write-File b buff hb c = record {
    sized = record {
      size = f.sized.size;
      some_words = f.sized.some_words;
      few_words = f.sized.few_words;
    };
    numbered = f.numbered;
    within = f.within;
    followed = λ i h. follow_keep fs inode b buff hb (path i) (c i h) ∙ f.followed i h;
    there = f.there;
    blk_OnDisk = f.blk_OnDisk;
    apart = f.apart;
    clear =
        λ i j hi hj. Clear-keep fs inode b buff hb (blk i) (path j) (c j hj) (f.clear i j hi hj);
  }

  -- The bytes of the file after its block `i` is written.
  pub file_byte_written :
      (i x : ℕ) (buff : Buffer)
      → i ≤ top
      → x / fs.block_size ≤ top
      → 1 ≤ fs.block_size
      → file_byte (ext2_write_block fs (blk i) buff) blk x
        ≡ (if x / fs.block_size == i then buff (x % fs.block_size) else file_byte fs blk x)
  unfolding file_byte ext2_write_block
  file_byte_written i x buff hi hx hb = elim (Bool-cases (x / fs.block_size == i)) [
    | inl t ↦
        let s : ℕ = fs.block_size in
        rw (t, ==→eq _ _ t)
          (ap (λ r. r (x % s)) (read-write_same fs (blk i) buff fresh (f.blk_OnDisk i hi))
            ∙ ground (arith, mod-lt x hb))
    | inr ne ↦
        let s : ℕ = fs.block_size in
        let differs = f.apart i (x / s) hi hx (λ e. ==→ne _ _ ne (sym e)) in
        rw ne (
          ap (λ r. r (x % s))
            (read-write_other fs (blk i) (blk (x / s)) buff fresh (f.blk_OnDisk i hi)
              (f.blk_OnDisk (x / s) hx) differs))
  ]
