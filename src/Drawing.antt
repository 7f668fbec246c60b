-- ===== src/Drawing.antt =====
-- src/izo.c and src/windows.c: rectangles on the screen, and where windows lie. An s32int is its word of
-- 32 bits, and two of them are compared with their signs.
pub mod Overlap
pub mod Line
pub mod Fill
mod Tests
use lesch_os.Ext2.{mul32}
use lesch_os.Base.{
  ℕ, zero, suc, ◌+◌, ◌%◌, ◌^◌, Bool, true, false, ◌&&◌, ◌||◌, not, if◌then◌else◌, add32, sub32, ltb,
  ◌==◌, List, [], ◌∷◌,
}

-- The signed value of a word, moved up by 2^31.
unfoldable pub raised : ℕ → ℕ
raised a = (a + 2 ^ 31) % 2 ^ 32

unfoldable pub slt : ℕ → ℕ → Bool
slt a b = ltb (raised a) (raised b)

pub record Rect : Type 0 where
  pub x : ℕ
  pub y : ℕ
  pub width : ℕ
  pub height : ℕ

unfoldable pub rect_create : (x y width height : ℕ) → Rect
rect_create x y width height = record { x = x; y = y; width = width; height = height }

unfoldable pub is_line_overlap : (a1 a2 b1 b2 : ℕ) → Bool
is_line_overlap a1 a2 b1 b2 =
    let first_in = not (slt a1 b1) && not (slt b2 a1) in
    (first_in && (not (slt a2 b1) && not (slt b2 a2)))
    || ((first_in && slt b2 a2)
        || ((slt a1 b1 && (not (slt a1 b1) && not (slt b2 a2))) || (slt a1 b1 && slt b2 a1)))

unfoldable pub is_rect_overlap : (rect0 rect1 : Rect) → Bool
is_rect_overlap rect0 rect1 =
    if slt (add32 rect1.x rect1.width) rect0.x || slt (add32 rect0.x rect0.width) rect1.x
    then false
    else if slt (add32 rect1.y rect1.height) rect0.y || slt (add32 rect0.y rect0.height) rect1.y
    then false
    else true

unfoldable pub is_point_in_rect : (x y : ℕ) → Rect → Bool
is_point_in_rect x y rect =
    (not (slt x rect.x) && slt x (add32 rect.x rect.width))
    && (not (slt y rect.y) && slt y (add32 rect.y rect.width))

unfoldable pub max : ℕ → ℕ → ℕ
max a b = if slt b a then a else b

-- The length of what two sides share, from the starts and lengths of both.
unfoldable pub side : (a a_len b b_len : ℕ) → ℕ
side a a_len b b_len =
    if slt (add32 b b_len) (add32 a a_len)
    then sub32 (add32 b b_len) (max a b)
    else sub32 (add32 a a_len) (max a b)

unfoldable pub find_rect_overlab : (r0 r1 : Rect) → Rect
find_rect_overlab r0 r1 = record {
  x = max r0.x r1.x;
  y = max r0.y r1.y;
  width = side r0.x r0.width r1.x r1.width;
  height = side r0.y r0.height r1.y r1.height;
}

-- What of a window says where it lies: its rectangle, from its parent's corner on.
pub record Window : Type 0 where
  pub x : ℕ
  pub y : ℕ
  pub width : ℕ
  pub height : ℕ

-- The corner of a window, from the corners of its parents, the nearest first.
unfoldable pub get_dev_coordns : Window → List Window → ℕ × ℕ
get_dev_coordns wind parents = sum_up parents wind.x wind.y
  where
    sum_up : List Window → ℕ → ℕ → ℕ × ℕ
    sum_up [] x y = (x, y)
    sum_up (parent ∷ rest) x y = sum_up rest (add32 x parent.x) (add32 y parent.y)

unfoldable pub get_dev_relative_coordns : Window → List Window → (x y : ℕ) → ℕ × ℕ
get_dev_relative_coordns wind parents x y =
    let point = get_dev_coordns wind parents in (sub32 x (point.0), sub32 y (point.1))

unfoldable pub is_windows_overlap : (w1 : Window) → List Window → (w2 : Window) → List Window → Bool
is_windows_overlap w1 parents1 w2 parents2 =
    let point1 = get_dev_coordns w1 parents1 in
    let point2 = get_dev_coordns w2 parents2 in
    is_rect_overlap (rect_create (point1.0) (point1.1) w1.width w2.height)
      (rect_create (point2.0) (point2.1) w2.width w2.height)

pub record Canvas : Type 0 where
  pub width : ℕ
  pub height : ℕ
  pub buff : ℕ → ℕ

unfoldable pub get_pixel : (width x y : ℕ) → ℕ
get_pixel width x y = add32 (mul32 width y) x

unfoldable pub set_pixel : (val x y : ℕ) → Canvas → Canvas
set_pixel val x y canvas = record canvas {
  buff = λ i. if i == get_pixel canvas.width x y then val else canvas.buff i;
}

unfoldable pub abs : ℕ → ℕ
abs d = if slt d 0 then sub32 0 d else d

-- Minus one is the word of ones.
unfoldable pub sign : ℕ → ℕ
sign d = if slt d 0 then 4294967295 else if slt 0 d then 1 else 0

-- The rounds of a loop from 0 to below a signed number.
unfoldable pub rounds : ℕ → ℕ
rounds d = if slt 0 d then d else 0

-- Both loops of `pnt_line`. The one axis takes a step in each round, the other where the sum of its
-- distances reaches that of the first.
unfoldable pub line_loop :
    (put : (a b : ℕ) → Canvas → Canvas) (left tmp a_dist b_dist a_sign b_sign a b : ℕ)
    → Canvas
    → Canvas
line_loop put zero tmp a_dist b_dist a_sign b_sign a b canvas = canvas
line_loop put (suc left) tmp a_dist b_dist a_sign b_sign a b canvas =
    let sum : ℕ = add32 tmp b_dist in
    let tmp' : ℕ = if slt sum a_dist then sum else sub32 sum a_dist in
    let b' : ℕ = if slt sum a_dist then b else add32 b b_sign in
    line_loop put left tmp' a_dist b_dist a_sign b_sign (add32 a a_sign) b'
      (put (add32 a a_sign) b' canvas)

unfoldable pub pnt_line : (fill_color : ℕ) → Canvas → (x0 y0 x1 y1 : ℕ) → Canvas
pnt_line fill_color canvs x0 y0 x1 y1 =
    let dx : ℕ = sub32 x1 x0 in
    let dy : ℕ = sub32 y1 y0 in
    let begun = set_pixel fill_color x0 y0 canvs in
    if slt (abs dx) (abs dy)
    then line_loop (λ y x. set_pixel fill_color x y) (rounds (abs dy)) 0 (abs dy) (abs dx) (sign dy)
        (sign dx) y0 x0 begun
    else line_loop (λ x y. set_pixel fill_color x y) (rounds (abs dx)) 0 (abs dx) (abs dy) (sign dx)
        (sign dy) x0 y0 begun

-- A loop with `left` rounds over the numbers from `x` on.
unfoldable pub each : (put : ℕ → Canvas → Canvas) (left x : ℕ) → Canvas → Canvas
each put zero x canvas = canvas
each put (suc left) x canvas = each put left (add32 x 1) (put x canvas)

-- The rounds of a loop from `start` to below `start + len`.
unfoldable pub span : (start len : ℕ) → ℕ
span start len = if slt start (add32 start len) then len else 0

-- The two loops over a rectangle.
unfoldable pub each_pixel : (put : (x y : ℕ) → Canvas → Canvas) → Rect → Canvas → Canvas
each_pixel put rect =
    each (λ y. each (λ x. put x y) (span rect.x rect.width) rect.x) (span rect.y rect.height) rect.y

unfoldable pub draw_rect : (fill_color st_x st_y width height : ℕ) → Canvas → Canvas
draw_rect fill_color st_x st_y width height =
    each_pixel (set_pixel fill_color) (rect_create st_x st_y width height)

pub record RegionRect : Type 0 where
  pub rect : Rect
  pub region : ℕ → ℕ

-- A pixel of the region, unless it is 0.
unfoldable pub put_region : (region : ℕ → ℕ) (pix x y : ℕ) → Canvas → Canvas
put_region region pix x y canvas =
    if region pix == 0 then canvas else set_pixel (region pix) x y canvas

unfoldable pub draw_rect_region : RegionRect → Canvas → Canvas
draw_rect_region region =
    let rect = region.rect in
    each_pixel
      (λ x y.
        put_region region.region (add32 (mul32 rect.width (sub32 y rect.y)) (sub32 x rect.x)) x y)
      rect

unfoldable pub paint_clip_rect : RegionRect → (crop_width : ℕ) → Canvas → Canvas
paint_clip_rect region crop_width =
    let rect = region.rect in
    each_pixel
      (λ x y.
        put_region region.region (add32 (mul32 crop_width (sub32 y rect.y)) (sub32 x rect.x)) x y)
      rect

unfoldable pub paint2_clip_rect : RegionRect → (crop_width crop_x crop_y : ℕ) → Canvas → Canvas
paint2_clip_rect region crop_width crop_x crop_y =
    each_pixel
      (λ x y.
        put_region region.region (add32 (mul32 crop_width (sub32 y crop_y)) (sub32 x crop_x)) x y)
      region.rect
