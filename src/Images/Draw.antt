-- ===== src/Images/Draw.antt =====
-- Where the pixels of a picture go.
use lesch_os.Base.{
  ℕ, zero, suc, ◌+◌, ◌-◌, ◌*◌, ◌/◌, ◌%◌, ◌^◌, ◌<◌, ◌≤◌, ◌≡◌, ◌⊎◌, inl, inr, refl, ap, ◌∙◌, sym,
  arith, add32, ◌==◌, if◌then◌else◌, eq→==, ne→==, ◌≢◌, ltb, ltb→lt, not-ltb→le, Bool-cases, some,
}
use native.Mathlib.Nat.{mul-le-mul_right, mod-lt, mod-add-div', div-lt_iff_lt-mul}
use lesch_os.Ext2.{Buffer, mul32}
use lesch_os.Images.{
  Bitmap, Frame, columns, rows, frameb_row, img_row, row_bytes, draw, bmp_to_framebuff, rgb24,
  rgb32,
}
use lesch_os.Images.Colours.{rgb24_lem, rgb32_lem}

module _ (rgb : Buffer → ℕ → ℕ) (step : ℕ) where
  columns_else :
      (left x n : ℕ) (row : Buffer) (start : ℕ) (frame : Frame) (i : ℕ)
      → (i < start + x) ⊎ (start + x + left ≤ i)
      → columns rgb step left x n row start frame i ≡ frame i
  unfolding columns
  columns_else zero x n row start frame i h = refl
  columns_else (suc left) x n row start frame i h = ground (
    arith,
    h,
    columns_else left (x + 1) (add32 n step) row start
        (λ i. if i == start + x then rgb row n else frame i) i,
  )

  exact : (n left : ℕ) → n + step * suc left < 2 ^ 32 → add32 n step ≡ n + step
  unfolding add32
  exact n left fits = omega (arith, fits)

  columns_hit :
      (left x n : ℕ) (row : Buffer) (start : ℕ) (frame : Frame) (j : ℕ)
      → j < left
      → n + step * left < 2 ^ 32
      → columns rgb step left x n row start frame (start + x + j) ≡ rgb row (n + step * j)
  unfolding columns
  columns_hit zero x n row start frame j h fits = absurd (omega (arith, h))
  columns_hit (suc left) x n row start frame zero h fits =
      columns_else left (x + 1) (add32 n step) row start
        (λ i. if i == start + x then rgb row n else frame i) (start + x + 0) (inl (omega arith))
      ∙ rw (eq→== (start + x + 0) (start + x) (omega arith)) (ap (rgb row) (omega arith))
  columns_hit (suc left) x n row start frame (suc j) h fits =
      let more : add32 n step ≡ n + step = exact n left fits in
      let rest =
        columns_hit left (x + 1) (n + step) row start
          (λ i. if i == start + x then rgb row n else frame i) j (omega (arith, h))
          (omega (arith, fits)) in
      rw more (
        ap
          (columns rgb step left (x + 1) (n + step) row start
            (λ i. if i == start + x then rgb row n else frame i))
          (omega arith)
        ∙ rest
        ∙ ap (rgb row) (omega arith))

  module _ (bmp : Bitmap) (fits : bmp.height * bmp.width * 4 < 2 ^ 32) where
    -- The row of the frame that the row `y` goes to, where `k` rows lie above it in the picture.
    frameb_row_lem : (k y : ℕ) → y + suc k ≡ bmp.height → frameb_row bmp y ≡ k * bmp.width
    unfolding frameb_row mul32
    frameb_row_lem k y e =
        let place : bmp.height - 1 - y ≡ k = omega (arith, e) in
        let less : k * bmp.width ≤ bmp.height * bmp.width =
          mul-le-mul_right bmp.width (omega (arith, e)) in
        rw place (omega (arith, fits, less))

    rows_else :
        (left y : ℕ) (frame : Frame) (i : ℕ)
        → y + left ≡ bmp.height
        → left * bmp.width ≤ i
        → rows rgb step left y bmp frame i ≡ frame i
    unfolding rows
    rows_else zero y frame i e h = refl
    rows_else (suc left) y frame i e h =
        let start = frameb_row_lem left y e in
        rows_else left (y + 1)
          (columns rgb step bmp.width 0 0 (img_row bmp y) (frameb_row bmp y) frame) i
          (omega (arith, e)) (omega (arith, h))
        ∙ columns_else bmp.width 0 0 (img_row bmp y) (frameb_row bmp y) frame i
            (inr (omega (arith, start, h)))

    rows_hit :
        (left y : ℕ) (frame : Frame) (up x : ℕ)
        → y + left ≡ bmp.height
        → up < left
        → x < bmp.width
        → step * bmp.width < 2 ^ 32
        → rows rgb step left y bmp frame ((left - 1 - up) * bmp.width + x)
          ≡ rgb (img_row bmp (y + up)) (step * x)
    unfolding rows
    rows_hit zero y frame up x e hu hx few = absurd (omega (arith, hu))
    rows_hit (suc left) y frame zero x e hu hx few =
        let start = frameb_row_lem left y e in
        let after = columns rgb step bmp.width 0 0 (img_row bmp y) (frameb_row bmp y) frame in
        let place : suc left - 1 - 0 ≡ left = omega arith in
        let first : (suc left - 1 - 0) * bmp.width + x ≡ frameb_row bmp y + 0 + x =
          ap (λ (t : ℕ). t * bmp.width + x) place ∙ omega (arith, start) in
        ap (rows rgb step left (y + 1) bmp after) first
        ∙ rows_else left (y + 1) after (frameb_row bmp y + 0 + x) (omega (arith, e))
            (omega (arith, start))
        ∙ columns_hit bmp.width 0 0 (img_row bmp y) (frameb_row bmp y) frame x hx
            (omega (arith, few))
        ∙ ap (λ (t : ℕ). rgb (img_row bmp t) (0 + step * x)) (omega arith)
        ∙ ap (rgb (img_row bmp (y + 0))) (omega arith)
    rows_hit (suc left) y frame (suc up) x e hu hx few =
        let after = columns rgb step bmp.width 0 0 (img_row bmp y) (frameb_row bmp y) frame in
        let place : suc left - 1 - suc up ≡ left - 1 - up = omega arith in
        rw place (
          rows_hit left (y + 1) after up x (omega (arith, e)) (omega (arith, hu)) hx few
          ∙ ap (λ (t : ℕ). rgb (img_row bmp t) (step * x)) (omega arith))

-- The frame with the picture in it: its rows of `bytes` bytes stand in it upside down, with three colours
-- of each pixel and `alpha` above them.
unfoldable pub shown : (alpha step bytes : ℕ) → Bitmap → Frame → Frame
shown alpha step bytes bmp frame i =
    let n : ℕ = (bmp.height - 1 - i / bmp.width) * bytes + step * (i % bmp.width) in
    if ltb i (bmp.height * bmp.width)
    then alpha * 2 ^ 24
      + (bmp.image_bytes (n + 2) * 2 ^ 16 + bmp.image_bytes (n + 1) * 2 ^ 8 + bmp.image_bytes n)
    else frame i

img_row_lem :
    (bmp : Bitmap) (bytes y n : ℕ)
    → row_bytes bmp ≡ bytes
    → y * bytes < 2 ^ 32
    → img_row bmp y n ≡ bmp.image_bytes (y * bytes + n)
unfolding img_row mul32
img_row_lem bmp bytes y n e h =
    ap (λ (t : ℕ). bmp.image_bytes (y * t % 2 ^ 32 + n)) e
    ∙ ap (λ (t : ℕ). bmp.image_bytes (t + n)) (omega (arith, h))

-- `rgb` makes this colour of the bytes at `n`, with `alpha` above.
unfoldable pub Shows : (alpha : ℕ) → (Buffer → ℕ → ℕ) → Type 0
Shows alpha rgb =
    (row : Buffer)
    → ((i : ℕ) → row i < 256)
    → (n : ℕ) → n + 4 < 2 ^ 32
    → rgb row n ≡ alpha * 2 ^ 24 + (row (n + 2) * 2 ^ 16 + row (n + 1) * 2 ^ 8 + row n)

width_pos : (h w i : ℕ) → i < h * w → 0 < w
width_pos h zero i l = absurd (omega (arith, l))
width_pos h (suc w) i l = omega arith

row_below : (h w i : ℕ) → 0 < w → i < h * w → i / w < h
row_below h w i pos l = (div-lt_iff_lt-mul pos).1 l

split_lem : (h w q x : ℕ) → q < h → x + q * w ≡ (h - 1 - (h - 1 - q)) * w + x
split_lem h w q x l = let back : h - 1 - (h - 1 - q) ≡ q = omega (arith, l) in rw back (omega arith)

module _ (rgb : Buffer → ℕ → ℕ) (alpha step bytes : ℕ) (bmp : Bitmap)
    (pixel : Shows alpha rgb) where
  pixel_shown :
      (y n : ℕ)
      → ((i : ℕ) → bmp.image_bytes i < 256)
      → row_bytes bmp ≡ bytes
      → y * bytes < 2 ^ 32
      → n + 4 < 2 ^ 32
      → rgb (img_row bmp y) n
        ≡ alpha * 2 ^ 24
          + (bmp.image_bytes (y * bytes + n + 2) * 2 ^ 16
              + bmp.image_bytes (y * bytes + n + 1) * 2 ^ 8
              + bmp.image_bytes (y * bytes + n))
  unfolding Shows
  pixel_shown y n image row_is line hn =
      let here : (k : ℕ) → img_row bmp y k ≡ bmp.image_bytes (y * bytes + k) =
        λ k. img_row_lem bmp bytes y k row_is line in
      let two : img_row bmp y (n + 2) ≡ bmp.image_bytes (y * bytes + n + 2) =
        here (n + 2) ∙ ap bmp.image_bytes (omega arith) in
      let one : img_row bmp y (n + 1) ≡ bmp.image_bytes (y * bytes + n + 1) =
        here (n + 1) ∙ ap bmp.image_bytes (omega arith) in
      let below : (k : ℕ) → img_row bmp y k < 256 =
        λ k. omega (arith, here k, image (y * bytes + k)) in
      pixel (img_row bmp y) below n hn ∙ omega (arith, two, one, here n)

  rows_lem :
      (frame : Frame) (i : ℕ)
      → ((i : ℕ) → bmp.image_bytes i < 256)
      → bmp.height * bmp.width * 4 < 2 ^ 32
      → row_bytes bmp ≡ bytes
      → bmp.height * bytes < 2 ^ 32
      → step ≤ 4
      → rows rgb step bmp.height 0 bmp frame i ≡ shown alpha step bytes bmp frame i
  unfolding shown
  rows_lem frame i image fits row_is lines few =
      elim (Bool-cases (ltb i (bmp.height * bmp.width))) [
        | inl h ↦
            let within : i < bmp.height * bmp.width = ltb→lt i (bmp.height * bmp.width) h in
            let wide : 0 < bmp.width = width_pos bmp.height bmp.width i within in
            let q : ℕ = i / bmp.width in
            let x : ℕ = i % bmp.width in
            let hx : x < bmp.width = mod-lt i wide in
            let hq : q < bmp.height = row_below bmp.height bmp.width i wide within in
            let split : i ≡ (bmp.height - 1 - (bmp.height - 1 - q)) * bmp.width + x =
              sym (mod-add-div' i bmp.width) ∙ split_lem bmp.height bmp.width q x hq in
            let least : 1 * bmp.width ≤ bmp.height * bmp.width =
              mul-le-mul_right bmp.width (omega (arith, hq)) in
            let steps : step * bmp.width ≤ 4 * bmp.width = mul-le-mul_right bmp.width few in
            let line : (bmp.height - 1 - q) * bytes ≤ bmp.height * bytes =
              mul-le-mul_right bytes (omega arith) in
            let small : step * x + 4 < 2 ^ 32 =
              omega (arith, mul-le-mul_right x few, hx, least, fits) in
            rw h (
              ap (rows rgb step bmp.height 0 bmp frame) split
              ∙ rows_hit rgb step bmp fits bmp.height 0 frame (bmp.height - 1 - q) x (omega arith)
                  (omega (arith, hq)) hx (omega (arith, steps, least, fits))
              ∙ ap (λ (t : ℕ). rgb (img_row bmp t) (step * x)) (omega arith)
              ∙ pixel_shown (bmp.height - 1 - q) (step * x) image row_is
                  (omega (arith, line, lines)) small)
        | inr h ↦ rw h (
            rows_else rgb step bmp fits bmp.height 0 frame i (omega arith)
              (not-ltb→le i (bmp.height * bmp.width) h))
      ]

row_24 :
    (bmp : Bitmap) (bytes : ℕ)
    → bmp.bpp ≡ 24
    → bytes % 4 ≡ 0
    → 3 * bmp.width ≤ bytes
    → bytes < 3 * bmp.width + 4
    → bytes < 2 ^ 32
    → row_bytes bmp ≡ bytes
unfolding row_bytes mul32 add32
row_24 bmp bytes deep whole from to small = rw deep (ground (arith, whole, from, to, small))

row_32 : (bmp : Bitmap) → bmp.bpp ≡ 32 → 4 * bmp.width < 2 ^ 32 → row_bytes bmp ≡ 4 * bmp.width
unfolding row_bytes mul32 add32
row_32 bmp deep small = rw deep (ground (arith, small))

-- For a picture with 24 bits for each pixel, whose bytes are below 256, in rows filled up to `bytes`, the
-- next multiple of four, where the frame and the rows have less than 2^32 bytes: bmp_to_framebuff puts the
-- picture into the frame upside down, each pixel with its three colours and 255 above them, and nothing
-- else.
pub bmp_to_framebuff_lem :
    (bmp : Bitmap) (frame : Frame) (bytes i : ℕ)
    → bmp.bpp ≡ 24
    → ((i : ℕ) → bmp.image_bytes i < 256)
    → bmp.height * bmp.width * 4 < 2 ^ 32
    → bytes % 4 ≡ 0
    → 3 * bmp.width ≤ bytes
    → bytes < 3 * bmp.width + 4
    → bytes < 2 ^ 32
    → bmp.height * bytes < 2 ^ 32
    → bmp_to_framebuff (some bmp) frame i ≡ shown 255 3 bytes bmp frame i
unfolding bmp_to_framebuff draw Shows
bmp_to_framebuff_lem bmp frame bytes i deep image fits whole from to small lines =
    rw (eq→== bmp.bpp 24 deep) (
      rows_lem rgb24 255 3 bytes bmp rgb24_lem frame i image fits
        (row_24 bmp bytes deep whole from to small) lines (omega arith))

-- For a picture with 32 bits for each pixel, whose bytes are below 256, where a row and the frame have less
-- than 2^32 bytes: bmp_to_framebuff puts the picture into the frame upside down, each pixel with its three
-- colours and 0 in place of its fourth byte, and nothing else.
pub bmp_to_framebuff_no_alpha :
    (bmp : Bitmap) (frame : Frame) (i : ℕ)
    → bmp.bpp ≡ 32
    → ((i : ℕ) → bmp.image_bytes i < 256)
    → bmp.height * bmp.width * 4 < 2 ^ 32
    → 4 * bmp.width < 2 ^ 32
    → bmp_to_framebuff (some bmp) frame i ≡ shown 0 4 (4 * bmp.width) bmp frame i
unfolding bmp_to_framebuff draw Shows
bmp_to_framebuff_no_alpha bmp frame i deep image fits small =
    let other : bmp.bpp ≢ 24 = λ e. omega (arith, e, deep) in
    let lines : bmp.height * (4 * bmp.width) < 2 ^ 32 = omega (arith, fits) in
    rw (ne→== bmp.bpp 24 other, eq→== bmp.bpp 32 deep)
      (rows_lem rgb32 0 4 (4 * bmp.width) bmp
        (λ row image n h. rgb32_lem row image n h ∙ omega arith) frame i image fits
        (row_32 bmp deep small) lines (omega arith))
