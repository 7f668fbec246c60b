-- ===== src/Ext2/Data/Write.antt =====
-- ext2_write_inode_filedata where the blocks of the file are there.
use mathlib.Core.Path.{subst}
use lesch_os.Base.{
  ℕ, zero, suc, ◌+◌, ◌-◌, ◌*◌, ◌/◌, ◌%◌, ◌≤◌, ◌<◌, ◌≡◌, ◌≢◌, ◌⊎◌, inl, inr, refl, ap, ◌∙◌, arith,
  ◌&&◌, ◌==◌, if◌then◌else◌, ltb, leb, Bool-cases, ltb→lt, not-ltb→le, ==→eq, ==→ne, sym, some,
  ne→==, add32, add32_exact,
}
use lesch_os.Ext2.{
  Buffer, Fs, Inode, fresh, copy, ext2_read_block, ext2_write_block, get_disk_block_number,
}
use lesch_os.Ext2.Chain.{Route}
use lesch_os.Ext2.Data.{
  Range, left_of, bytes_of, have_block, ext2_read_inode_block, ext2_write_inode_block, write_loop,
}
use lesch_os.Ext2.Data.Span.{
  quotient, InRange, stop_of, left-le-stop, bytes_lem, next_block, last_stop, stop-le-last,
}
use lesch_os.Ext2.Data.Read.{file_byte}
use native.Mathlib.Nat.{mod-lt, suc-mul, mul-le-mul_right}
use lesch_os.Ext2.Data.Files.{File, number_lem, write-File, file_byte_written}

-- One block: read, changed from `left_of` on, and written.
unfoldable pub put_block : Fs → Range → (i cur b : ℕ) → (buff : Buffer) → Fs
put_block fs r i cur b buff =
    ext2_write_block fs b
      (copy (left_of r i) cur (bytes_of fs r i) buff (ext2_read_block fs b fresh))

have_block_lem :
    (fs : Fs) (inode : Inode) (ino_idx i b : ℕ)
    → get_disk_block_number fs inode i ≡ some b
    → b ≢ 0
    → have_block fs inode ino_idx i ≡ some (fs, inode)
unfolding have_block
have_block_lem fs inode ino_idx i b e ne = rw (e, have_block, ne→== _ _ ne) refl

read_inode_block_lem :
    (fs : Fs) (inode : Inode) (i b : ℕ)
    → get_disk_block_number fs inode i ≡ some b
    → ext2_read_inode_block fs inode i ≡ some (ext2_read_block fs b fresh)
unfolding ext2_read_inode_block
read_inode_block_lem fs inode i b e = rw (e, ext2_read_inode_block) refl

write_inode_block_lem :
    (fs : Fs) (inode : Inode) (i b : ℕ) (buff : Buffer)
    → get_disk_block_number fs inode i ≡ some b
    → ext2_write_inode_block fs inode i buff ≡ some (ext2_write_block fs b buff)
unfolding ext2_write_inode_block
write_inode_block_lem fs inode i b buff e = rw (e, ext2_write_inode_block) refl

write_step :
    (n i cur b : ℕ) (fs : Fs) (inode : Inode) (ino_idx : ℕ) (r : Range) (buff : Buffer)
    → get_disk_block_number fs inode i ≡ some b
    → b ≢ 0
    → write_loop (suc n) i cur fs inode ino_idx r buff
      ≡ write_loop n
          (i + 1)
          (add32 cur (bytes_of fs r i))
          (put_block fs r i cur b buff)
          inode
          ino_idx
          r
          buff
unfolding write_loop put_block
write_step n i cur b fs inode ino_idx r buff e ne =
    rw
      (
        have_block_lem fs inode ino_idx i b e ne,
        read_inode_block_lem fs inode i b e,
        write_inode_block_lem fs inode i b
            (copy (left_of r i) cur (bytes_of fs r i) buff (ext2_read_block fs b fresh)) e,
      )
      refl

put_InRange :
    (fs : Fs) (r : Range) (offset last i cur b : ℕ) (buff : Buffer)
    → InRange fs r offset last
    → InRange (put_block fs r i cur b buff) r offset last
unfolding put_block ext2_write_block
put_InRange fs r offset last i cur b buff h = record {
  some_bytes = h.some_bytes;
  small = h.small;
  in_order = h.in_order;
  first = h.first;
  last_block = h.last_block;
  offsets = h.offsets;
  blocks = h.blocks;
}

-- Where byte `x` of the file comes from, once the data from `from` up to `last` is in it.
unfoldable pub patched : (from last offset : ℕ) → (buff old : Buffer) → Buffer
patched from last offset buff old x = if leb from x && ltb x last then buff (x - offset) else old x

-- A place in another block lies before or behind this one.
elsewhere : (x i s a n : ℕ) → 1 ≤ s → a + n ≤ s → x / s ≢ i → (x < i * s + a) ⊎ (i * s + a + n ≤ x)
elsewhere x i s a n hs h ne = elim (Bool-cases (ltb (x / s) i)) [
  | inl t ↦
      let later = mul-le-mul_right {m = suc (x / s)} {n = i} s (ltb→lt _ _ t) in
      inl (omega (arith, quotient x s, mod-lt x hs, later, suc-mul (x / s) s))
  | inr f ↦
      let later = mul-le-mul_right {m = suc i} {n = x / s} s (omega (arith, not-ltb→le _ _ f)) in
      inr (omega (arith, quotient x s, later, suc-mul i s))
]

patched_join :
    (from mid last offset : ℕ) (buff old now : Buffer) (x : ℕ)
    → from ≤ mid
    → mid ≤ last
    → now x ≡ patched from mid offset buff old x
    → patched mid last offset buff now x ≡ patched from last offset buff old x
unfolding patched
patched_join from mid last offset buff old now x h h' e = ground (arith, e)

-- What the loop leaves, from a place in the file on.
pub record Written (p top : ℕ) (blk : ℕ → ℕ) (path : ℕ → Route) (inode : Inode)
    (from last offset : ℕ) (buff : Buffer) (fs fs' : Fs) : Type 0 where
  pub file : File p top blk path fs' inode
  pub same_size : fs'.block_size ≡ fs.block_size
  pub bytes :
      (x : ℕ)
      → x / fs.block_size ≤ top
      → file_byte fs' blk x ≡ patched from last offset buff (file_byte fs blk) x

module _ (p top : ℕ) (blk : ℕ → ℕ) (path : ℕ → Route) (inode : Inode) (ino_idx : ℕ) (r : Range)
    (offset last : ℕ) (buff : Buffer) (in_file : r.end_block ≤ top) where
  block_bytes :
      (fs : Fs) (i cur x : ℕ)
      → 1 ≤ fs.block_size
      → left_of r i + bytes_of fs r i ≤ fs.block_size
      → cur + offset ≡ i * fs.block_size + left_of r i
      → (if x / fs.block_size == i
          then copy
              (left_of r i)
              cur
              (bytes_of fs r i)
              buff
              (ext2_read_block fs (blk i) fresh)
              (x % fs.block_size)
          else file_byte fs blk x)
        ≡ patched (cur + offset) (cur + offset + bytes_of fs r i) offset buff (file_byte fs blk) x
  unfolding patched copy file_byte
  block_bytes fs i cur x hs inside at =
      let s : ℕ = fs.block_size in
      let old : Buffer = file_byte fs blk in
      elim (Bool-cases (x / s == i)) [
        | inl t ↦
            let here : x ≡ i * s + x % s = quotient x s ∙ ap (λ t. t * s + x % s) (==→eq _ _ t) in
            let same : ext2_read_block fs (blk i) fresh (x % s)
                ≡ ext2_read_block fs (blk (x / s)) fresh (x % s) =
              ap (λ j. ext2_read_block fs (blk j) fresh (x % s)) (sym (==→eq _ _ t)) in
            let shift : left_of r i ≤ x % s
                → buff (cur + (x % s - left_of r i)) ≡ buff (x - offset) =
              λ low. ap buff (omega (arith, here, at)) in
            rw (t, same) (ground (arith, here, shift, at))
        | inr f ↦
            let away = elsewhere x i s (left_of r i) (bytes_of fs r i) hs inside (==→ne _ _ f) in
            rw f (ground (arith, away))
      ]

  put_block_bytes :
      (fs : Fs) (i cur x : ℕ)
      → File p top blk path fs inode
      → InRange fs r offset last
      → r.start_block ≤ i
      → i ≤ r.end_block
      → cur + offset ≡ i * fs.block_size + left_of r i
      → x / fs.block_size ≤ top
      → file_byte (put_block fs r i cur (blk i) buff) blk x
        ≡ patched (cur + offset) (cur + offset + bytes_of fs r i) offset buff (file_byte fs blk) x
  unfolding put_block
  put_block_bytes fs i cur x f h low high at hx =
      file_byte_written p top blk path fs inode f i x
        (copy (left_of r i) cur (bytes_of fs r i) buff (ext2_read_block fs (blk i) fresh))
        (omega arith) hx h.some_bytes
      ∙ block_bytes fs i cur x h.some_bytes
          (let (ordered, inside) = left-le-stop fs r offset last h i low high in
            omega (arith, bytes_lem fs r offset last h i low high))
          at

  put_File :
      (fs : Fs) (i cur : ℕ)
      → i ≤ top
      → File p top blk path fs inode
      → File p top blk path (put_block fs r i cur (blk i) buff) inode
  unfolding put_block
  put_File fs i cur hi f =
      write-File p top blk path fs inode f (blk i) _ (f.blk_OnDisk i hi) (λ j hj. f.clear i j hi hj)

  put_size : (fs : Fs) (i cur b : ℕ) → (put_block fs r i cur b buff).block_size ≡ fs.block_size
  unfolding put_block ext2_write_block
  put_size fs i cur b = refl

  pub write_loop_lem :
      (n i cur : ℕ) (fs : Fs)
      → File p top blk path fs inode
      → InRange fs r offset last
      → i + n ≡ r.end_block
      → r.start_block ≤ i
      → cur + offset ≡ i * fs.block_size + left_of r i
      → (fs' : Fs) × (write_loop (suc n) i cur fs inode ino_idx r buff ≡ some (fs', inode))
        × Written p top blk path inode (cur + offset) last offset buff fs fs'
  unfolding write_loop
  write_loop_lem zero i cur fs f h e low at =
      let hi : i ≤ top = omega arith in
      let stop = bytes_lem fs r offset last h i low (omega arith) in
      let final : cur + offset + bytes_of fs r i ≡ last = omega (
        arith,
        stop,
        last_stop fs r offset last h,
        ap (λ t. t * fs.block_size + stop_of fs r t) (the_last e),
      ) in
      (
        put_block fs r i cur (blk i) buff,
        write_step zero i cur (blk i) fs inode ino_idx r buff
            (number_lem p top blk path fs inode f i hi) (f.there i hi),
        record {
          file = put_File fs i cur hi f;
          same_size = put_size fs i cur (blk i);
          bytes = λ x hx.
              put_block_bytes fs i cur x f h low (omega arith) at hx
              ∙ ap (λ t. patched (cur + offset) t offset buff (file_byte fs blk) x) final;
        },
      )
    where
      the_last : {i : ℕ} → i + 0 ≡ r.end_block → i ≡ r.end_block
      the_last e = omega (arith, e)
  write_loop_lem (suc n) i cur fs f h e low at =
      let hi : i ≤ top = omega arith in
      let high : i ≤ r.end_block = omega arith in
      let stop = bytes_lem fs r offset last h i low high in
      let next = next_block fs r offset last h i low (omega arith) in
      let bound = stop-le-last fs r offset last h i low high in
      let exact : add32 cur (bytes_of fs r i) ≡ cur + bytes_of fs r i =
        add32_exact cur (bytes_of fs r i) (omega (arith, stop, h.small, bound)) in
      let fs₁ = put_block fs r i cur (blk i) buff in
      let cur₁ : ℕ = cur + bytes_of fs r i in
      let size₁ = put_size fs i cur (blk i) in
      let at₁ : cur₁ + offset ≡ (i + 1) * fs₁.block_size + left_of r (i + 1) =
        omega (arith, stop, next, ap (λ t. (i + 1) * t) size₁) in
      let (fs', run, w) =
        write_loop_lem n (i + 1) cur₁ fs₁ (put_File fs i cur hi f)
          (put_InRange fs r offset last i cur (blk i) buff h) (omega arith) (omega arith) at₁ in
      (
        fs',
        write_step (suc n) i cur (blk i) fs inode ino_idx r buff
              (number_lem p top blk path fs inode f i hi) (f.there i hi)
            ∙ (ap (λ t. write_loop (suc n) (i + 1) t fs₁ inode ino_idx r buff) exact ∙ run),
        record {
          file = w.file;
          same_size = w.same_size ∙ size₁;
          bytes = λ x hx.
              w.bytes x (subst (λ t. x / t ≤ top) (sym size₁) hx)
              ∙ patched_join (cur + offset) (cur₁ + offset) last offset buff (file_byte fs blk)
                  (file_byte fs₁ blk) x (omega arith) (omega (arith, stop, bound))
                  (put_block_bytes fs i cur x f h low high at hx
                    ∙ ap (λ t. patched (cur + offset) t offset buff (file_byte fs blk) x)
                        (omega arith));
        },
      )
