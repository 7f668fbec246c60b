-- ===== src/Ext2/Assign/Stored.antt =====
-- What a word that set_disk_block_number stores changes of the words on the disk.
use lesch_os.Base.{
  ℕ, ◌+◌, ◌*◌, ◌^◌, ◌≤◌, ◌<◌, ◌≡◌, ◌≢◌, inl, inr, refl, ap, ◌∙◌, arith, ◌&&◌, ◌==◌, if◌then◌else◌,
  ltb, Bool-cases, ==→eq, ==→ne, sym,
}
use lesch_os.Ext2.{
  Buffer, Fs, Inode, fresh, get32, put32, copy, inode_block, inode_size, ext2_read_block,
  ext2_write_block, ext2_write_inode_metadata,
}
use lesch_os.Ext2.Blocks.{OnDisk, read-write_same, read-write_other}
use lesch_os.Ext2.Chain.{word}
use lesch_os.Ext2.Assign.{put_word}
use mathlib.Core.Path.{fun_ext}

-- What lies in the buffer behind the block does not reach the disk.
pub put_word_any :
    (fs : Fs) (b j w : ℕ) (ret : Buffer) → put_word fs b j w ret ≡ put_word fs b j w fresh
unfolding put_word ext2_write_block ext2_read_block copy put32
put_word_any fs b j w ret = ap (λ d. record fs { disk = d }) (fun_ext λ i. ground arith)

word_of_written :
    (s j k w : ℕ) (b : Buffer)
    → 4 * k + 4 ≤ s
    → w < 2 ^ 32
    → get32 (λ i. if ltb i s then put32 (4 * j) w b i else fresh i) (4 * k)
      ≡ (if k == j then w else get32 b (4 * k))
unfolding get32 put32
word_of_written s j k w b h hw = ground arith

-- After a word is put in block `b`, read by the words of all blocks.
pub word-put_word :
    (fs : Fs) (b j w b' k : ℕ)
    → OnDisk fs b
    → OnDisk fs b'
    → 4 * k + 4 ≤ fs.block_size
    → w < 2 ^ 32
    → word (put_word fs b j w fresh) b' k ≡ (if (b' == b) && (k == j) then w else word fs b' k)
unfolding word put_word
word-put_word fs b j w b' k hb hb' hk hw = elim (Bool-cases (b' == b)) [
  | inl t ↦
      rw
        (
          t,
          ==→eq _ _ t,
          read-write_same fs b (put32 (4 * j) w (ext2_read_block fs b fresh)) fresh hb,
        )
        (word_of_written fs.block_size j k w (ext2_read_block fs b fresh) hk hw)
  | inr f ↦
      rw
        (
          f,
          read-write_other fs b b' (put32 (4 * j) w (ext2_read_block fs b fresh)) fresh hb hb'
              (λ e. ==→ne _ _ f (sym e)),
        )
        refl
]

word-write_metadata :
    (fs : Fs) (inode : Inode) (ino_idx b k : ℕ)
    → OnDisk fs ((inode_block fs ino_idx).0)
    → OnDisk fs b
    → b ≢ (inode_block fs ino_idx).0
    → word (ext2_write_inode_metadata fs inode ino_idx) b k ≡ word fs b k
unfolding word ext2_write_inode_metadata
word-write_metadata fs inode ino_idx b k ht hb ne =
    let at = (inode_block fs ino_idx).0 in
    ap (λ r. get32 r (4 * k)) (read-write_other fs at b _ fresh ht hb (λ e. ne (sym e)))

-- The word is put in the block, and the inode written.
unfoldable pub stored : Fs → Inode → (ino_idx block j disk_block : ℕ) → Fs × Inode
stored fs inode ino_idx block j disk_block =
    (ext2_write_inode_metadata (put_word fs block j disk_block fresh) inode ino_idx, inode)

pub word-stored :
    (fs : Fs) (inode : Inode) (ino_idx b j w b' k : ℕ)
    → OnDisk fs ((inode_block fs ino_idx).0)
    → OnDisk fs b
    → OnDisk fs b'
    → b' ≢ (inode_block fs ino_idx).0
    → 4 * k + 4 ≤ fs.block_size
    → w < 2 ^ 32
    → word ((stored fs inode ino_idx b j w).0) b' k
      ≡ (if (b' == b) && (k == j) then w else word fs b' k)
unfolding stored put_word ext2_write_block inode_block inode_size OnDisk
word-stored fs inode ino_idx b j w b' k ht hb hb' ne hk hw =
    word-write_metadata (put_word fs b j w fresh) inode ino_idx b' k ht hb' ne
    ∙ word-put_word fs b j w b' k hb hb' hk hw
