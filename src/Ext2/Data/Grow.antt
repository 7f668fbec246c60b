-- ===== src/Ext2/Data/Grow.antt =====
-- The size of a file, and what its growth leaves of the file's blocks.
use mathlib.Core.Path.{subst}
use lesch_os.Base.{
  ℕ, ◌+◌, ◌*◌, ◌/◌, ◌%◌, ◌^◌, ◌≤◌, ◌<◌, ◌≡◌, ◌≢◌, inl, inr, refl, ap, ◌∙◌, arith, true, false,
  if◌then◌else◌, ltb, Bool-cases, sym, add32_exact,
}
use lesch_os.Ext2.{
  Buffer, Fs, Inode, fresh, get32, put32, block_ptr, inode_block, ext2_write_block,
  ext2_write_inode_metadata,
}
use lesch_os.Ext2.Blocks.{OnDisk, get32-put32, get32-put32_other, read-write_other}
use lesch_os.Ext2.Chain.{Route, direct, single, double, triple, follow, word}
use lesch_os.Ext2.Data.{grow, size}
use lesch_os.Ext2.Data.Read.{file_byte}
use lesch_os.Ext2.Data.Files.{File, Clear, Other, write-File}

pointers :
    (n k : ℕ) (inode : Inode) → get32 (put32 4 n inode) (block_ptr k) ≡ get32 inode (block_ptr k)
unfolding block_ptr
pointers n k inode =
    let at : 40 + 4 * k ≡ 4 * (10 + k) = omega arith in
    rw at (get32-put32_other inode 1 (10 + k) n (omega arith))

module _ (fs : Fs) (inode : Inode) (n : ℕ) where
  follow_size : (path : Route) → follow fs (put32 4 n inode) path ≡ follow fs inode path
  unfolding follow
  follow_size (direct k) = pointers n k inode
  follow_size (single a) = ap (λ b. word fs b a) (pointers n 12 inode)
  follow_size (double c d) = ap (λ b. word fs (word fs b c) d) (pointers n 13 inode)
  follow_size (triple e f g) = ap (λ b. word fs (word fs (word fs b e) f) g) (pointers n 14 inode)

  Clear-size : (b : ℕ) (path : Route) → Clear fs inode b path → Clear fs (put32 4 n inode) b path
  unfolding Clear
  Clear-size b (direct k) c = tt
  Clear-size b (single a) c = subst (Other fs b) (sym (pointers n 12 inode)) c
  Clear-size b (double c d) o =
      subst (λ t. Other fs b t × Other fs b (word fs t c)) (sym (pointers n 13 inode)) o
  Clear-size b (triple e f g) o =
      subst (λ t. Other fs b t × Other fs b (word fs t e) × Other fs b (word fs (word fs t e) f))
        (sym (pointers n 14 inode)) o

-- The block of the inode is none of the file's.
pub record Aside (top : ℕ) (blk : ℕ → ℕ) (path : ℕ → Route) (fs : Fs) (inode : Inode) (b : ℕ)
    : Type 0 where
  pub b_OnDisk : OnDisk fs b
  pub no_data : (i : ℕ) → i ≤ top → b ≢ blk i
  pub no_pointers : (i : ℕ) → i ≤ top → Clear fs inode b (path i)

unfoldable pub grown : Inode → (last : ℕ) → Inode
grown inode last = if ltb (size inode) last then put32 4 last inode else inode

pub size-grown :
    (inode : Inode) (last : ℕ)
    → last < 2 ^ 32
    → size (grown inode last) ≡ (if ltb (size inode) last then last else size inode)
unfolding grown size
size-grown inode last h = ground (arith, get32-put32 inode 1 last h)

write_size :
    (fs : Fs) (b : ℕ) (buff : Buffer) → (ext2_write_block fs b buff).block_size ≡ fs.block_size
unfolding ext2_write_block
write_size fs b buff = refl

module _ (fs : Fs) (inode : Inode) (ino_idx offset count : ℕ) (h : offset + count < 2 ^ 32) where
  grow-large :
      ltb (size inode) (offset + count) ≡ true
      → grow fs inode ino_idx offset count ≡ (
        ext2_write_inode_metadata fs (put32 4 (offset + count) inode) ino_idx,
        put32 4 (offset + count) inode,
      )
  unfolding grow
  grow-large e = rw (add32_exact offset count h, e) refl

  grow-small :
      ltb (size inode) (offset + count) ≡ false → grow fs inode ino_idx offset count ≡ (fs, inode)
  unfolding grow
  grow-small e = rw (add32_exact offset count h, e) refl

module _ (p top : ℕ) (blk : ℕ → ℕ) (path : ℕ → Route) (fs : Fs) (inode : Inode) (ino_idx : ℕ)
    (f : File p top blk path fs inode)
    (aside : Aside top blk path fs inode ((inode_block fs ino_idx).0)) where
  size_File : (n : ℕ) → File p top blk path fs (put32 4 n inode)
  size_File n = record {
    sized = f.sized;
    numbered = f.numbered;
    within = f.within;
    followed = λ i h. follow_size fs inode n (path i) ∙ f.followed i h;
    there = f.there;
    blk_OnDisk = f.blk_OnDisk;
    apart = f.apart;
    clear = λ i j hi hj. Clear-size fs inode n (blk i) (path j) (f.clear i j hi hj);
  }

  aside_bytes :
      (buff : Buffer) (x : ℕ)
      → x / fs.block_size ≤ top
      → file_byte (ext2_write_block fs ((inode_block fs ino_idx).0) buff) blk x ≡ file_byte fs blk x
  unfolding file_byte ext2_write_block
  aside_bytes buff x hx =
      ap (λ r. r (x % fs.block_size))
        (read-write_other fs ((inode_block fs ino_idx).0) (blk (x / fs.block_size)) buff fresh
          aside.b_OnDisk (f.blk_OnDisk _ hx) (aside.no_data _ hx))

  -- The growth changes the size and leaves the blocks and bytes.
  pub record Grown (last : ℕ) (fs' : Fs) (inode' : Inode) : Type 0 where
    pub inode_eq : inode' ≡ grown inode last
    pub file : File p top blk path fs' inode'
    pub same_size : fs'.block_size ≡ fs.block_size
    pub bytes : (x : ℕ) → x / fs.block_size ≤ top → file_byte fs' blk x ≡ file_byte fs blk x

  same : (last : ℕ) → ltb (size inode) last ≡ false → Grown last fs inode
  unfolding grown
  same last e = record { inode_eq = rw e refl; file = f; same_size = refl; bytes = λ x hx. refl }

  larger :
      (last : ℕ)
      → ltb (size inode) last ≡ true
      → Grown last (ext2_write_inode_metadata fs (put32 4 last inode) ino_idx) (put32 4 last inode)
  unfolding grown ext2_write_inode_metadata
  larger last e = record {
    inode_eq = rw e refl;
    file =
        write-File p top blk path fs (put32 4 last inode) (size_File last)
          ((inode_block fs ino_idx).0) _ aside.b_OnDisk
          (λ j hj. Clear-size fs inode last _ (path j) (aside.no_pointers j hj));
    same_size = write_size fs ((inode_block fs ino_idx).0) _;
    bytes = aside_bytes _;
  }

  pub grow_lem :
      (offset count : ℕ)
      → offset + count < 2 ^ 32
      → Grown
          (offset + count)
          ((grow fs inode ino_idx offset count).0)
          ((grow fs inode ino_idx offset count).1)
  grow_lem offset count h = elim (Bool-cases (ltb (size inode) (offset + count))) [
    | inl t ↦
        subst (λ s. Grown (offset + count) (s.0) (s.1))
          (sym (grow-large fs inode ino_idx offset count h t)) (larger (offset + count) t)
    | inr f ↦
        subst (λ s. Grown (offset + count) (s.0) (s.1))
          (sym (grow-small fs inode ino_idx offset count h f)) (same (offset + count) f)
  ]
