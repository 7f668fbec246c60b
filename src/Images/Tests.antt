-- ===== src/Images/Tests.antt =====
-- Runs of the drawing of pictures at small pictures.
use lesch_os.Base.{ℕ, ◌≡◌, refl, arith, ◌%◌, some}
use lesch_os.Images.{Bitmap, Frame, bmp_to_framebuff}
use lesch_os.Images.Draw.{shown, bmp_to_framebuff_lem, bmp_to_framebuff_no_alpha}

abbrev picture : (bpp : ℕ) → Bitmap
picture bits = record {
  width = 3;
  height = 2;
  size = 24;
  bpp = bits;
  image_bytes = λ i. i % 256;
  buff = λ i. 0;
}

abbrev black : Frame
black i = 0

-- Rows of three pixels with three bytes each have three bytes more.
bmp_to_framebuff_lem_example :
    bmp_to_framebuff (some (picture 24)) black 1 ≡ shown 255 3 12 (picture 24) black 1
bmp_to_framebuff_lem_example =
    bmp_to_framebuff_lem (picture 24) black 12 1 refl (λ i. omega arith) (omega arith) refl
      (omega arith) (omega arith) (omega arith) (omega arith)

bmp_to_framebuff_no_alpha_example :
    bmp_to_framebuff (some (picture 32)) black 1 ≡ shown 0 4 12 (picture 32) black 1
bmp_to_framebuff_no_alpha_example =
    bmp_to_framebuff_no_alpha (picture 32) black 1 refl (λ i. omega arith) (omega arith)
      (omega arith)

-- The second pixel of the upper row, from the bytes 15 to 17.
upper_pixel : shown 255 3 12 (picture 24) black 1 ≡ 0xff11100f
unfolding shown
upper_pixel = refl
