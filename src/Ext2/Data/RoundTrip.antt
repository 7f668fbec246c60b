-- ===== src/Ext2/Data/RoundTrip.antt =====
-- ext2_write_inode_filedata against the bytes of the file, and the read of what was written.
use mathlib.Core.Path.{subst, fun_ext}
use lesch_os.Base.{
  ℕ, suc, ◌+◌, ◌-◌, ◌/◌, ◌^◌, ◌≤◌, ◌<◌, ◌≡◌, refl, ap, ◌∙◌, arith, sym, add32_exact, some,
}
use lesch_os.Ext2.{Buffer, Fs, Inode, inode_block}
use lesch_os.Ext2.Chain.{Route}
use lesch_os.Ext2.Data.{
  Range, range, grow, size, end_bytes, write_loop, ext2_read_inode_filedata,
  ext2_write_inode_filedata,
}
use lesch_os.Ext2.Data.Span.{div_monotone, range_lem, filled}
use lesch_os.Ext2.Data.Read.{file_byte, end_block_lem, start_lem, ext2_read_inode_filedata_lem}
use lesch_os.Ext2.Data.Files.{File, number_lem}
use lesch_os.Ext2.Data.Write.{Written, patched, write_loop_lem}
use lesch_os.Ext2.Data.Grow.{Aside, grown, size-grown, grow_lem}

module _ (p top : ℕ) (blk : ℕ → ℕ) (path : ℕ → Route) (fs : Fs) (inode : Inode) (ino_idx : ℕ)
    (offset count : ℕ) (buff : Buffer) (in_words : offset + count < 2 ^ 32) where
  state : Fs × Inode
  state = grow fs inode ino_idx offset count

  r : Range
  r = range (state.0) offset (offset + count)

  whole :
      (fs' : Fs)
      → end_bytes (state.1) offset count ≡ offset + count
      → write_loop
          (r.end_block + 1 - r.start_block)
          r.start_block
          0
          (state.0)
          (state.1)
          ino_idx
          r
          buff
        ≡ some (fs', state.1)
      → ext2_write_inode_filedata fs inode ino_idx offset count buff ≡ some (fs', state.1)
  unfolding ext2_write_inode_filedata state r
  whole fs' e run = rw e run

  end_bytes-grown :
      (inode' : Inode)
      → inode' ≡ grown inode (offset + count)
      → end_bytes inode' offset count ≡ offset + count
  unfolding end_bytes
  end_bytes-grown inode' e = ground (
    arith,
    add32_exact offset count in_words,
    ap size e,
    size-grown inode (offset + count) in_words,
  )

  patched_same :
      (old old' : Buffer) (x : ℕ)
      → old' x ≡ old x
      → patched (0 + offset) (offset + count) offset buff old' x
        ≡ patched offset (offset + count) offset buff old x
  unfolding patched
  patched_same old old' x e = ground (arith, e)

  written :
      (f : File p top blk path fs inode)
      → (aside : Aside top blk path fs inode ((inode_block fs ino_idx).0))
      → (offset + count) / fs.block_size ≤ top
      → (fs' : Fs) × (ext2_write_inode_filedata fs inode ino_idx offset count buff
          ≡ some (fs', grown inode (offset + count)))
        × Written p top blk path
            (grown inode (offset + count))
            offset
            (offset + count)
            offset
            buff
            fs
            fs'
  unfolding state r range grow
  written f aside inside =
      let g = grow_lem p top blk path fs inode ino_idx f aside offset count in_words in
      let last : ℕ = offset + count in
      let fs₁ = state.0 in
      let inode₁ = state.1 in
      let size₁ = g.same_size in
      let sized = f.sized in
      let h =
        range_lem fs₁ offset last (omega (arith, size₁, sized.size, sized.some_words))
          (omega (arith, size₁, sized.size, sized.few_words)) (omega arith) in_words in
      let end_lem = end_block_lem fs₁ offset last in
      let in_file : r.end_block ≤ top = subst (λ s. last / s ≤ top) (sym size₁) inside in
      let n : ℕ = r.end_block - r.start_block in
      let rounds : r.end_block + 1 - r.start_block ≡ suc n = omega (arith, h.blocks) in
      let (fs', run, w) =
        write_loop_lem p top blk path inode₁ ino_idx r offset last buff in_file n r.start_block 0
          fs₁ g.file h (omega (arith, h.blocks)) (omega arith) (start_lem fs₁ r offset last h) in
      (
        fs',
        whole fs' (end_bytes-grown inode₁ g.inode_eq)
              (ap (λ m. write_loop m r.start_block 0 fs₁ inode₁ ino_idx r buff) rounds ∙ run)
            ∙ ap (λ i. some (fs', i)) g.inode_eq,
        record {
          file = subst (λ i. File p top blk path fs' i) g.inode_eq w.file;
          same_size = w.same_size ∙ size₁;
          bytes = λ x hx.
              w.bytes x (subst (λ s. x / s ≤ top) (sym size₁) hx)
              ∙ patched_same (file_byte fs blk) (file_byte fs₁ blk) x (g.bytes x hx);
        },
      )

-- For a file whose blocks up to `top` are there, of an inode that lies in a block apart, and data of 32
-- bits that end in one of the blocks: `ext2_write_inode_filedata` returns, with the size the greater of
-- the old one and the end of the data. The file's blocks are the same, and of its bytes those from
-- `offset` on are the data and all others are as before.
pub ext2_write_inode_filedata_lem :
    (p top : ℕ) (blk : ℕ → ℕ) (path : ℕ → Route) (fs : Fs) (inode : Inode) (ino_idx : ℕ)
    (offset count : ℕ) (buff : Buffer)
    → offset + count < 2 ^ 32
    → File p top blk path fs inode
    → Aside top blk path fs inode ((inode_block fs ino_idx).0)
    → (offset + count) / fs.block_size ≤ top
    → (fs' : Fs) × (ext2_write_inode_filedata fs inode ino_idx offset count buff
        ≡ some (fs', grown inode (offset + count)))
      × Written p top blk path
          (grown inode (offset + count))
          offset
          (offset + count)
          offset
          buff
          fs
          fs'
ext2_write_inode_filedata_lem p top blk path fs inode ino_idx offset count buff small f aside
      inside =
    written p top blk path fs inode ino_idx offset count buff small f aside inside

filled_same :
    (n : ℕ) (f g old : Buffer) → ((k : ℕ) → k < n → f k ≡ g k) → filled n f old ≡ filled n g old
unfolding filled
filled_same n f g old h = fun_ext λ k. ground (arith, h k)

data_byte :
    (offset count k : ℕ) (buff old : Buffer)
    → k < count
    → patched offset (offset + count) offset buff old (offset + k) ≡ buff k
unfolding patched
data_byte offset count k buff old h =
    let at : buff (offset + k - offset) ≡ buff k = ap buff (omega arith) in ground (arith, at)

-- Under the same conditions, and for a size of the file of 32 bits: the data that
-- `ext2_write_inode_filedata` wrote are what `ext2_read_inode_filedata` at the same place then puts into
-- any buffer, all `count` bytes, and it leaves the rest of the buffer.
pub read-write_filedata :
    (p top : ℕ) (blk : ℕ → ℕ) (path : ℕ → Route) (fs : Fs) (inode : Inode) (ino_idx : ℕ)
    (offset count : ℕ) (buff into : Buffer)
    → offset + count < 2 ^ 32
    → size inode < 2 ^ 32
    → File p top blk path fs inode
    → Aside top blk path fs inode ((inode_block fs ino_idx).0)
    → (offset + count) / fs.block_size ≤ top
    → (fs' : Fs) × (inode' : Inode) × (ext2_write_inode_filedata fs inode ino_idx offset count buff
        ≡ some (fs', inode'))
      × (ext2_read_inode_filedata fs' inode' offset count into
          ≡ some (count, filled count buff into))
read-write_filedata p top blk path fs inode ino_idx offset count buff into small hs f aside inside =
    let last : ℕ = offset + count in
    let inode' = grown inode last in
    let (fs', run, w) =
      ext2_write_inode_filedata_lem p top blk path fs inode ino_idx offset count buff small f aside
        inside in
    let sized = w.file.sized in
    let ends : end_bytes inode' offset count ≡ last =
      end_bytes-grown p top blk path fs inode ino_idx offset count buff small inode' refl in
    let n_eq : end_bytes inode' offset count - offset ≡ count = omega (arith, ends) in
    let now_size = size-grown inode last small in
    let read =
      ext2_read_inode_filedata_lem fs' inode' offset count into blk
        (omega (arith, sized.size, sized.some_words)) (omega (arith, sized.size, sized.few_words))
        (ground (arith, now_size)) (ground (arith, now_size, hs)) small
        (λ i hi. number_lem p top blk path fs' inode' w.file i (
          omega (
            arith,
            inside,
            hi,
            ap (λ t. t / fs'.block_size) ends,
            ap (λ s. last / s) w.same_size,
          ))) in
    let wanted : Buffer = λ k. file_byte fs' blk (offset + k) in
    let all : (k : ℕ) → k < count → wanted k ≡ buff k = λ k hk.
      w.bytes (offset + k) (
        omega (
          arith,
          inside,
          div_monotone (offset + k) last fs.block_size (omega arith)
              (omega (arith, f.sized.size, f.sized.some_words)),
        ))
      ∙ data_byte offset count k buff (file_byte fs blk) hk in
    (
      fs',
      inode',
      run,
      read
          ∙ (ap (λ n. some (n, filled n wanted into)) n_eq
              ∙ ap (λ b. some (count, b)) (filled_same count wanted buff into all)),
    )
