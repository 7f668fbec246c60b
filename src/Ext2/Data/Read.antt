-- ===== src/Ext2/Data/Read.antt =====
-- ext2_read_inode_filedata against the bytes of the file.
use lesch_os.Base.{
  ℕ, zero, suc, ◌+◌, ◌-◌, ◌*◌, ◌/◌, ◌%◌, ◌^◌, ◌≤◌, ◌<◌, ◌≡◌, refl, ap, ◌∙◌, arith, sym, add32,
  add32_exact, sub32, some,
}
use lesch_os.Ext2.{Buffer, Fs, Inode, fresh, copy, ext2_read_block, get_disk_block_number}
use lesch_os.Ext2.Data.{
  Range, range, left_of, bytes_of, end_bytes, size, ext2_read_inode_block, read_loop,
  ext2_read_inode_filedata,
}
use lesch_os.Ext2.Data.Span.{
  filled, copy-filled, InRange, range_lem, stop_of, quotient_of, left-le-stop, bytes_lem,
  next_block, last_stop, stop-le-last,
}
use mathlib.Core.Path.{fun_ext, subst}

-- Byte `x` of a file whose blocks are `blk`.
unfoldable pub file_byte : Fs → (blk : ℕ → ℕ) → (x : ℕ) → ℕ
file_byte fs blk x = ext2_read_block fs (blk (x / fs.block_size)) fresh (x % fs.block_size)

read_step :
    (n i cur b : ℕ) (fs : Fs) (inode : Inode) (r : Range) (buff : Buffer)
    → get_disk_block_number fs inode i ≡ some b
    → read_loop (suc n) i cur fs inode r buff
      ≡ read_loop n
          (i + 1)
          (add32 cur (bytes_of fs r i))
          fs
          inode
          r
          (copy cur (left_of r i) (bytes_of fs r i) (ext2_read_block fs b fresh) buff)
unfolding read_loop ext2_read_inode_block
read_step n i cur b fs inode r buff e = rw (e, read_loop, ext2_read_inode_block) refl

whole_step :
    (fs : Fs) (inode : Inode) (offset count : ℕ) (buff buff' : Buffer)
    → read_loop
        ((range fs offset (end_bytes inode offset count)).end_block
          + 1
          - (range fs offset (end_bytes inode offset count)).start_block)
        ((range fs offset (end_bytes inode offset count)).start_block)
        0
        fs
        inode
        (range fs offset (end_bytes inode offset count))
        buff
      ≡ some buff'
    → ext2_read_inode_filedata fs inode offset count buff
      ≡ some (sub32 (end_bytes inode offset count) offset, buff')
unfolding ext2_read_inode_filedata
whole_step fs inode offset count buff buff' e = rw (e, ext2_read_inode_filedata) refl

module _ (fs : Fs) (inode : Inode) (r : Range) (offset last : ℕ) (h : InRange fs r offset last)
    (blk : ℕ → ℕ)
    (present : (i : ℕ)
      → r.start_block ≤ i
      → i ≤ r.end_block
      → get_disk_block_number fs inode i ≡ some (blk i))
    (buff : Buffer) where
  wanted : Buffer
  wanted k = file_byte fs blk (offset + k)

  round :
      (i cur : ℕ)
      → r.start_block ≤ i
      → i ≤ r.end_block
      → cur + offset ≡ i * fs.block_size + left_of r i
      → copy cur
          (left_of r i)
          (bytes_of fs r i)
          (ext2_read_block fs (blk i) fresh)
          (filled cur wanted buff)
        ≡ filled (cur + bytes_of fs r i) wanted buff
  unfolding wanted file_byte
  round i cur low high e =
      let stop = bytes_lem fs r offset last h i low high in
      let (ordered, inside) = left-le-stop fs r offset last h i low high in
      copy-filled wanted (ext2_read_block fs (blk i) fresh) buff cur (left_of r i) (bytes_of fs r i)
        (λ m hm.
          let at : offset + (cur + m) ≡ i * fs.block_size + (left_of r i + m) = omega arith in
          let (q, rest) = quotient_of i (left_of r i + m) fs.block_size (omega arith) in
          sym (
            ap (λ x. ext2_read_block fs (blk (x / fs.block_size)) fresh (x % fs.block_size)) at
            ∙ rw (q, rest) refl))

  read_loop_lem :
      (n i cur : ℕ)
      → i + n ≡ r.end_block
      → r.start_block ≤ i
      → cur + offset ≡ i * fs.block_size + left_of r i
      → read_loop (suc n) i cur fs inode r (filled cur wanted buff)
        ≡ some (filled (last - offset) wanted buff)
  unfolding read_loop
  read_loop_lem zero i cur e low at =
      let here : i ≡ r.end_block = omega arith in
      let stop = bytes_lem fs r offset last h i low (omega arith) in
      let final : cur + bytes_of fs r i ≡ last - offset = omega (
        arith,
        stop,
        last_stop fs r offset last h,
        ap (λ t. t * fs.block_size + stop_of fs r t) here,
      ) in
      read_step zero i cur (blk i) fs inode r (filled cur wanted buff) (present i low (omega arith))
      ∙ rw (round i cur low (omega arith) at, final) refl
  read_loop_lem (suc n) i cur e low at =
      let high : i ≤ r.end_block = omega arith in
      let stop = bytes_lem fs r offset last h i low high in
      let next = next_block fs r offset last h i low (omega arith) in
      let exact : add32 cur (bytes_of fs r i) ≡ cur + bytes_of fs r i =
        add32_exact cur (bytes_of fs r i)
          (omega (arith, stop, h.small, stop-le-last fs r offset last h i low high)) in
      read_step (suc n) i cur (blk i) fs inode r (filled cur wanted buff) (present i low high)
      ∙ rw (round i cur low high at, exact)
          (read_loop_lem n (i + 1) (cur + bytes_of fs r i) (omega arith) (omega arith)
            (omega (arith, stop, next)))

difference : (a b : ℕ) → b ≤ a → a < 2 ^ 32 → sub32 a b ≡ a - b
unfolding sub32
difference a b h hw = omega arith

filled_none : (f buff : Buffer) → filled 0 f buff ≡ buff
unfolding filled
filled_none f buff = fun_ext λ k. ground arith

end_bytes_bounds :
    (inode : Inode) (offset count : ℕ)
    → offset ≤ size inode
    → size inode < 2 ^ 32
    → offset + count < 2 ^ 32
    → (offset ≤ end_bytes inode offset count) × (end_bytes inode offset count < 2 ^ 32)
unfolding end_bytes
end_bytes_bounds inode offset count ho hs hc = ground (arith, add32_exact offset count)

pub end_block_lem :
    (fs : Fs) (offset last : ℕ) → (range fs offset last).end_block ≡ last / fs.block_size
unfolding range
end_block_lem fs offset last = refl

pub start_lem :
    (fs : Fs) (r : Range) (offset last : ℕ)
    → InRange fs r offset last
    → 0 + offset ≡ r.start_block * fs.block_size + left_of r r.start_block
unfolding left_of
start_lem fs r offset last h = ground (arith, h.first)

-- For an offset within the file, a size of the file and an end of the wanted of 32 bits, and a file
-- whose blocks from the first to the last touched have numbers that `get_disk_block_number` returns:
-- `ext2_read_inode_filedata` returns how many bytes there are up to the end of the wanted or the file,
-- whichever comes first, and the buffer holds these bytes of the file and is otherwise as before.
pub ext2_read_inode_filedata_lem :
    (fs : Fs) (inode : Inode) (offset count : ℕ) (buff : Buffer) (blk : ℕ → ℕ)
    → 1 ≤ fs.block_size
    → fs.block_size < 2 ^ 32
    → offset ≤ size inode
    → size inode < 2 ^ 32
    → offset + count < 2 ^ 32
    → ((i : ℕ)
        → i ≤ end_bytes inode offset count / fs.block_size
        → get_disk_block_number fs inode i ≡ some (blk i))
    → let n = end_bytes inode offset count - offset in
      ext2_read_inode_filedata fs inode offset count buff
      ≡ some (n, filled n (λ k. file_byte fs blk (offset + k)) buff)
unfolding wanted
ext2_read_inode_filedata_lem fs inode offset count buff blk hb hw ho hs hc present =
    let last = end_bytes inode offset count in
    let r = range fs offset last in
    let (low, high) = end_bytes_bounds inode offset count ho hs hc in
    let h = range_lem fs offset last hb hw low high in
    let n : ℕ = r.end_block - r.start_block in
    let rounds : r.end_block + 1 - r.start_block ≡ suc n = omega (arith, h.blocks) in
    let loop =
      read_loop_lem fs inode r offset last h blk
        (λ i _ hi. present i (subst (λ t. i ≤ t) (end_block_lem fs offset last) hi)) buff n
        r.start_block 0 (omega (arith, h.blocks)) (omega arith) (start_lem fs r offset last h) in
    let wanted : Buffer = λ k. file_byte fs blk (offset + k) in
    let start : read_loop (suc n) r.start_block 0 fs inode r buff
        ≡ some (filled (last - offset) wanted buff) =
      ap (read_loop (suc n) r.start_block 0 fs inode r) (sym (filled_none wanted buff)) ∙ loop in
    whole_step fs inode offset count buff (filled (last - offset) wanted buff)
      (ap (λ m. read_loop m r.start_block 0 fs inode r buff) rounds ∙ start)
    ∙ ap (λ m. some (m, filled (last - offset) wanted buff)) (difference last offset low high)
