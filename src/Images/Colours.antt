-- ===== src/Images/Colours.antt =====
-- The colours that rgb24 and rgb32 make of the bytes of a pixel.
use lesch_os.Base.{ℕ, ◌+◌, ◌*◌, ◌%◌, ◌^◌, ◌<◌, ◌≡◌, ap, ◌∙◌, arith, add32, bit_and, bit_or}
use lesch_os.Base.Bits.{and_low, or_sum, sum_or, zero_or}
use lesch_os.Ext2.{Buffer}
use lesch_os.Images.{rgb24, rgb32}

join :
    (r g b : ℕ)
    → r < 256
    → g < 256
    → b < 256
    → bit_or (bit_or (r * 2 ^ 16) (g * 2 ^ 8)) b ≡ r * 2 ^ 16 + g * 2 ^ 8 + b
join r g b hr hg hb =
    let first : bit_or (r * 2 ^ 16) (g * 2 ^ 8) ≡ r * 2 ^ 16 + g * 2 ^ 8 =
      or_sum 16 r (g * 2 ^ 8) (omega (arith, hg)) in
    rw first (
      ap (λ (t : ℕ). bit_or t b) (omega arith)
      ∙ or_sum 8 (r * 2 ^ 8 + g) b (omega (arith, hb))
      ∙ omega arith)

mask : (a : ℕ) → a < 2 ^ 24 → bit_and a 0x00ffffff ≡ a
mask a h = and_low 24 a ∙ omega (arith, h)

low_byte : (row : Buffer) → ((i : ℕ) → row i < 256) → (i : ℕ) → bit_and (row i) 0xff ≡ row i
low_byte row bytes i = and_low 8 (row i) ∙ omega (arith, bytes i)

next_byte : (n k : ℕ) → n + k < 2 ^ 32 → add32 n k ≡ n + k
unfolding add32
next_byte n k h = omega (arith, h)

-- Where the bytes are below 256 and the offset does not wrap.
module _ (row : Buffer) (bytes : (i : ℕ) → row i < 256) (n : ℕ) (h : n + 4 < 2 ^ 32) where
  colours :
      bit_or (bit_or (row (n + 2) * 2 ^ 16) (row (n + 1) * 2 ^ 8)) (row n)
      ≡ row (n + 2) * 2 ^ 16 + row (n + 1) * 2 ^ 8 + row n
  colours = join (row (n + 2)) (row (n + 1)) (row n) (bytes (n + 2)) (bytes (n + 1)) (bytes n)

  bound : row (n + 2) * 2 ^ 16 + row (n + 1) * 2 ^ 8 + row n < 2 ^ 24
  bound = omega (arith, bytes (n + 2), bytes (n + 1), bytes n)

  pub rgb24_lem : rgb24 row n ≡ 255 * 2 ^ 24 + (row (n + 2) * 2 ^ 16 + row (n + 1) * 2 ^ 8 + row n)
  unfolding rgb24
  rgb24_lem =
      rw
        (
          next_byte n 1 (omega (arith, h)),
          next_byte n 2 (omega (arith, h)),
          low_byte row bytes n,
          low_byte row bytes (n + 1),
          low_byte row bytes (n + 2),
          colours,
          mask _ bound,
        )
        (sum_or 24 255 (row (n + 2) * 2 ^ 16 + row (n + 1) * 2 ^ 8 + row n) bound)

  pub rgb32_lem : rgb32 row n ≡ row (n + 2) * 2 ^ 16 + row (n + 1) * 2 ^ 8 + row n
  unfolding rgb32
  rgb32_lem =
      let lost : bit_and (row (add32 n 3)) 0xff * 2 ^ 24 * 2 ^ 24 % 2 ^ 32 ≡ 0 = omega arith in
      rw
        (
          next_byte n 1 (omega (arith, h)),
          next_byte n 2 (omega (arith, h)),
          lost,
          zero_or (bit_and (row (n + 2)) 0xff * 2 ^ 16),
          low_byte row bytes n,
          low_byte row bytes (n + 1),
          low_byte row bytes (n + 2),
          colours,
        )
        (mask _ bound)
