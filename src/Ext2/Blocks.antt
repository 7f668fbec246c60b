-- ===== src/Ext2/Blocks.antt =====
-- Reads after writes: of words in a buffer, and of blocks on the disk.
use lesch_os.Base.{◌⊎◌, ℕ, suc, ◌+◌, ◌*◌, ◌^◌, ◌≤◌, ◌<◌, ◌≡◌, ◌≢◌, arith, if◌then◌else◌, ltb}
use lesch_os.Ext2.{
  fresh, get16, put16, Buffer, Fs, get32, put32, copy, mul32, ext2_read_block, ext2_write_block,
}
use mathlib.Core.Path.{fun_ext}
use native.Mathlib.Nat.{mul-suc, mul-le-mul_left}

pub get32-put32 : (b : Buffer) (j w : ℕ) → w < 2 ^ 32 → get32 (put32 (4 * j) w b) (4 * j) ≡ w
unfolding get32 put32
get32-put32 b j w h = ground arith

pub get32-put32_other :
    (b : Buffer) (j k w : ℕ) → j ≢ k → get32 (put32 (4 * j) w b) (4 * k) ≡ get32 b (4 * k)
unfolding get32 put32
get32-put32_other b j k w h = ground arith

-- The block ends within the addresses of 32 bits.
unfoldable pub OnDisk : Fs → ℕ → Type 0
OnDisk fs b = fs.block_size * b + fs.block_size ≤ 2 ^ 32

later_block : (s b b' : ℕ) → b < b' → s * b + s ≤ s * b'
later_block s b b' h = omega (arith, mul-le-mul_left {m = suc b} {n = b'} s h, mul-suc s b)

pub apart : (s b b' i k : ℕ) → b ≢ b' → i < s → k < s → s * b + i ≢ s * b' + k
apart s b b' i k ne hi hk = ground (arith, later_block s b b', later_block s b' b)

pub read-write_same :
    (fs : Fs) (b : ℕ) (buff old : Buffer)
    → OnDisk fs b
    → ext2_read_block (ext2_write_block fs b buff) b old
      ≡ (λ i. if ltb i fs.block_size then buff i else old i)
unfolding ext2_read_block ext2_write_block copy mul32 OnDisk
read-write_same fs b buff old h = fun_ext λ i. ground arith

pub read-write_other :
    (fs : Fs) (b b' : ℕ) (buff old : Buffer)
    → OnDisk fs b
    → OnDisk fs b'
    → b ≢ b'
    → ext2_read_block (ext2_write_block fs b buff) b' old ≡ ext2_read_block fs b' old
unfolding ext2_read_block ext2_write_block copy mul32 OnDisk
read-write_other fs b b' buff old h h' ne =
    fun_ext λ i. ground (arith, later_block fs.block_size b b', later_block fs.block_size b' b)

-- A word of a block that was read does not depend on what the buffer held.
pub word_of_read :
    (fs : Fs) (b j : ℕ) (old old' : Buffer)
    → 4 * j + 4 ≤ fs.block_size
    → get32 (ext2_read_block fs b old) (4 * j) ≡ get32 (ext2_read_block fs b old') (4 * j)
unfolding get32 ext2_read_block
word_of_read fs b j old old' h = ground arith

pub get32-put16_other :
    (b : Buffer) (at o w : ℕ) → (o + 4 ≤ at) ⊎ (at + 2 ≤ o) → get32 (put16 at w b) o ≡ get32 b o
unfolding get32 put16
get32-put16_other b at o w h = ground (arith, h)

pub get16-put16 : (b : Buffer) (at w : ℕ) → w < 2 ^ 16 → get16 (put16 at w b) at ≡ w
unfolding get16 put16
get16-put16 b at w h = ground arith

pub get16-put16_other :
    (b : Buffer) (at o w : ℕ) → (o + 2 ≤ at) ⊎ (at + 2 ≤ o) → get16 (put16 at w b) o ≡ get16 b o
unfolding get16 put16
get16-put16_other b at o w h = ground (arith, h)

pub get32_bound : (b : Buffer) (o : ℕ) → ((i : ℕ) → b i < 256) → get32 b o < 2 ^ 32
unfolding get32
get32_bound b o h = omega (arith, h o, h (o + 1), h (o + 2), h (o + 3))

pub get16_bound : (b : Buffer) (o : ℕ) → ((i : ℕ) → b i < 256) → get16 b o < 2 ^ 16
unfolding get16
get16_bound b o h = omega (arith, h o, h (o + 1))

pub read_bytes :
    (fs : Fs) (b : ℕ) → ((a : ℕ) → fs.disk a < 256) → (i : ℕ) → ext2_read_block fs b fresh i < 256
unfolding ext2_read_block
read_bytes fs b h i = ground (arith, h (mul32 fs.block_size b + i))
