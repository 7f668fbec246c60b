-- ===== src/Images.antt =====
-- src/bitmap.c: pictures from files of the BMP format, and how they are drawn. A buffer of bytes is a
-- function of the offset; a frame buffer is one of the index of its words.
pub mod Colours
pub mod Draw
mod Tests
use lesch_os.Base.{
  ℕ, zero, suc, ◌+◌, ◌-◌, ◌*◌, ◌/◌, ◌%◌, ◌^◌, Option, none, some, ◌==◌, if◌then◌else◌, add32,
  bit_and, bit_or,
}
use lesch_os.Ext2.{Buffer, get16, get32, mul32}

-- `struct bitmap`, with the bytes that its pointers point at.
pub record Bitmap : Type 0 where
  pub width : ℕ
  pub height : ℕ
  pub size : ℕ
  pub bpp : ℕ
  pub image_bytes : Buffer
  pub buff : Buffer

abbrev pub Frame : Type 0
Frame = ℕ → ℕ

-- The size of `bmp_filehead_s`, which is packed.
abbrev pub filehead_size : ℕ
filehead_size = 14

-- The file that `file_open` found, with its size and its bytes.
unfoldable pub bmp_create : Option (ℕ × Buffer) → Option Bitmap
bmp_create none = none
bmp_create (some (size, buff)) = some (record {
  width = get32 buff (filehead_size + 4);
  height = get32 buff (filehead_size + 8);
  size = size;
  bpp = get16 buff (filehead_size + 14);
  image_bytes = λ i. buff (get32 buff 10 + i);
  buff = buff;
})

-- The bytes of a row: those of its pixels, filled up to whole words.
unfoldable pub row_bytes : Bitmap → ℕ
row_bytes bmp =
    let x_b : ℕ = mul32 bmp.width (bmp.bpp / 8) in
    if x_b % 4 == 0 then x_b else add32 x_b (4 - x_b % 4)

-- The colour at byte `n` of a row with 24 bits for each pixel.
unfoldable pub rgb24 : (row : Buffer) (n : ℕ) → ℕ
rgb24 row n =
    let b : ℕ = bit_and (row n) 0xff in
    let g : ℕ = bit_and (row (add32 n 1)) 0xff in
    let r : ℕ = bit_and (row (add32 n 2)) 0xff in
    bit_or (bit_and (bit_or (bit_or (r * 2 ^ 16) (g * 2 ^ 8)) b) 0x00ffffff) 0xff000000

-- And with 32 bits.
unfoldable pub rgb32 : (row : Buffer) (n : ℕ) → ℕ
rgb32 row n =
    let b : ℕ = bit_and (row n) 0xff in
    let g : ℕ = bit_and (row (add32 n 1)) 0xff in
    let r : ℕ = bit_and (row (add32 n 2)) 0xff in
    let a : ℕ = bit_and (row (add32 n 3)) 0xff * 2 ^ 24 in
    bit_and (bit_or (bit_or (bit_or (a * 2 ^ 24 % 2 ^ 32) (r * 2 ^ 16)) (g * 2 ^ 8)) b) 0x00ffffff

-- The loop over a row, whose pixels have `step` bytes.
unfoldable pub columns :
    (rgb : Buffer → ℕ → ℕ) (step left x n : ℕ) (row : Buffer) (start : ℕ) → Frame → Frame
columns rgb step zero x n row start frame = frame
columns rgb step (suc left) x n row start frame =
    columns rgb step left (x + 1) (add32 n step) row start
      (λ i. if i == start + x then rgb row n else frame i)

-- The row of the frame buffer, in words, for the row `y` of the picture, which begins with the lowest.
unfoldable pub frameb_row : Bitmap → (y : ℕ) → ℕ
frameb_row bmp y = mul32 (mul32 (bmp.height - 1 - y) bmp.width) 4 / 4

unfoldable pub img_row : Bitmap → (y : ℕ) → Buffer
img_row bmp y i = bmp.image_bytes (mul32 y (row_bytes bmp) + i)

unfoldable pub rows : (rgb : Buffer → ℕ → ℕ) (step left y : ℕ) → Bitmap → Frame → Frame
rows rgb step zero y bmp frame = frame
rows rgb step (suc left) y bmp frame =
    rows rgb step left (y + 1) bmp
      (columns rgb step bmp.width 0 0 (img_row bmp y) (frameb_row bmp y) frame)

-- What both functions do with a picture.
unfoldable pub draw : Bitmap → Frame → Frame
draw bmp frame =
    if bmp.bpp == 24
    then rows rgb24 3 bmp.height 0 bmp frame
    else if bmp.bpp == 32
    then rows rgb32 4 bmp.height 0 bmp frame
    else frame

unfoldable pub bmp_to_framebuff : Option Bitmap → Frame → Frame
bmp_to_framebuff none frame = frame
bmp_to_framebuff (some bmp) frame = draw bmp frame

-- The same on the screen, the words at `vesa_mem`.
unfoldable pub bmp_display : Option Bitmap → Frame → Frame
bmp_display none screen = screen
bmp_display (some bmp) screen = draw bmp screen
