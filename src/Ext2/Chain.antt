-- ===== src/Ext2/Chain.antt =====
-- Where the words stand that lead to the blocks of a file: `get_disk_block_number`, and an account of
-- the same as paths.
pub mod Index
use lesch_os.Base.{
  ℕ, zero, suc, ◌+◌, ◌-◌, ◌*◌, ◌/◌, ◌%◌, ◌^◌, ◌≤◌, ◌<◌, ◌≡◌, ◌≢◌, ◌∙◌, ap, refl, arith, ◌==◌, true,
  false, if◌then◌else◌, ltb, leb, sub32, Option, none, some, List, [], ◌∷◌, tests,
}
use lesch_os.Ext2.{
  Buffer, Fs, Inode, fresh, get32, put32, mul32, is_neg, block_ptr, ext2_read_block,
  ext2_write_block, get_disk_block_number,
}
use lesch_os.Ext2.Blocks.{word_of_read}
use lesch_os.Ext2.Chain.Index.{
  minus_neg, Single, Double, Triple, square_lem, single_lem, double_lem, triple_lem,
}

-- A path to a block: the words to follow from the inode on.
pub data Route : Type 0 where
  direct : ℕ → Route
  single : ℕ → Route
  double : ℕ → ℕ → Route
  triple : ℕ → ℕ → ℕ → Route

-- The words exist, with `p` of them in a block.
unfoldable pub Within : ℕ → Route → Type 0
Within p (direct k) = k < 12
Within p (single a) = a < p
Within p (double c d) = (c < p) × (d < p)
Within p (triple e f g) = (e < p) × (f < p) × (g < p)

-- The paths in order of the file's blocks.
unfoldable pub index : ℕ → Route → ℕ
index p (direct k) = k
index p (single a) = 12 + a
index p (double c d) = 12 + (p + (c * p + d))
index p (triple e f g) = 12 + (p + (p * p + ((e * p + f) * p + g)))

-- The word `j` of a block of the disk.
unfoldable pub word : Fs → ℕ → ℕ → ℕ
word fs b j = get32 (ext2_read_block fs b fresh) (4 * j)

unfoldable pub follow : Fs → Inode → Route → ℕ
follow fs inode (direct k) = get32 inode (block_ptr k)
follow fs inode (single a) = word fs (get32 inode (block_ptr 12)) a
follow fs inode (double c d) = word fs (word fs (get32 inode (block_ptr 13)) c) d
follow fs inode (triple e f g) = word fs (word fs (word fs (get32 inode (block_ptr 14)) e) f) g

-- A block of `p` words, of at most 4096 bytes.
pub record Sized (fs : Fs) (p : ℕ) : Type 0 where
  pub size : fs.block_size ≡ 4 * p
  pub some_words : 1 ≤ p
  pub few_words : p ≤ 1024

module _ (fs : Fs) (p : ℕ) (h : Sized fs p) (inode : Inode) where
  words : fs.block_size / 4 ≡ p
  words = omega (arith, h.size)

  get-direct :
      (k : ℕ) → k < 12 → get_disk_block_number fs inode k ≡ some (follow fs inode (direct k))
  unfolding get_disk_block_number follow
  get-direct k hk = rw (minus_neg k 12 hk (omega arith)) refl

  get-single :
      (a : ℕ) → a < p → get_disk_block_number fs inode (12 + a) ≡ some (follow fs inode (single a))
  unfolding get_disk_block_number follow word
  get-single a ha =
      let at = single_lem p h.some_words h.few_words a ha in
      rw (words, at.not_direct, at.behind, at.is_single) refl

  get-double :
      (c d : ℕ)
      → c < p
      → d < p
      → get_disk_block_number fs inode (12 + (p + (c * p + d)))
        ≡ some (follow fs inode (double c d))
  unfolding get_disk_block_number follow word
  get-double c d hc hd =
      let at = double_lem p h.some_words h.few_words c d hc hd in
      let square = square_lem p h.some_words h.few_words in
      let tmp = ext2_read_block fs (get32 inode (block_ptr 13)) fresh in
      rw
        (
          words, at.not_direct, at.behind, at.not_single, at.behind_single, square, at.is_double,
          at.first, at.first_words, at.second,
        )
        (ap some (word_of_read fs _ d tmp fresh (omega (arith, h.size))))

  get-triple :
      (e f g : ℕ)
      → e < p
      → f < p
      → g < p
      → get_disk_block_number fs inode (12 + (p + (p * p + ((e * p + f) * p + g))))
        ≡ some (follow fs inode (triple e f g))
  unfolding get_disk_block_number follow word
  get-triple e f g he hf hg =
      let at = triple_lem p h.some_words h.few_words e f g he hf hg in
      let square = square_lem p h.some_words h.few_words in
      let tmp = ext2_read_block fs (get32 inode (block_ptr 14)) fresh in
      let tmp' = ext2_read_block fs (get32 tmp (4 * e)) tmp in
      rw
        (
          words, at.not_direct, at.behind, at.not_single, at.behind_single, square, at.not_double,
          at.behind_double, at.cube, at.is_triple, at.first, at.first_row, at.first_words,
          at.behind_first, at.second, at.second_words, at.third,
        )
        (ap some (
          word_of_read fs _ g tmp' fresh (omega (arith, h.size))
          ∙ ap (λ b. word fs b g) (word_of_read fs _ f tmp fresh (omega (arith, h.size)))))

-- For a volume whose blocks hold one word to 1024, `get_disk_block_number` of the place that a path
-- has in the order of a file's blocks follows the words of the path.
pub get_disk_block_number_lem :
    (fs : Fs) (p : ℕ) (inode : Inode) (path : Route)
    → Sized fs p
    → Within p path
    → get_disk_block_number fs inode (index p path) ≡ some (follow fs inode path)
unfolding Within index
get_disk_block_number_lem fs p inode (direct k) h w = get-direct fs p h inode k w
get_disk_block_number_lem fs p inode (single a) h w = get-single fs p h inode a w
get_disk_block_number_lem fs p inode (double c d) h (wc, wd) = get-double fs p h inode c d wc wd
get_disk_block_number_lem fs p inode (triple e f g) h (we, wf, wg) =
    get-triple fs p h inode e f g we wf wg
