-- ===== src/Drawing/Overlap.antt =====
-- What two rectangles share.
use lesch_os.Base.{
  ℕ, ◌+◌, ◌^◌, ◌<◌, ◌≤◌, ◌≡◌, true, false, ◌||◌, arith, if◌then◌else◌, add32, sub32, ltb,
}
use mathlib.Core.Logic.{◌↔◌}
use lesch_os.Drawing.{Rect, raised, slt, max, side, is_rect_overlap, find_rect_overlab}

-- The point `p` is one of the `len` points from `a` on.
unfoldable pub On : (a len p : ℕ) → Type 0
On a len p = (raised a ≤ raised p) × (raised p < raised a + len)

-- A side that starts and ends within the numbers of 32 bits with a sign.
unfoldable pub IsSide : (a len : ℕ) → Type 0
IsSide a len = (a < 2 ^ 32) × (len < 2 ^ 31) × (raised a + len < 2 ^ 32)

raised_add : (a m : ℕ) → IsSide a m → raised (add32 a m) ≡ raised a + m
unfolding raised add32 IsSide
raised_add a m (ha, hm, fits) = omega (arith, ha, hm, fits)

raised-max :
    (a b : ℕ) → raised (max a b) ≡ (if ltb (raised b) (raised a) then raised a else raised b)
unfolding max slt
raised-max a b = ground arith

max_word : (a b : ℕ) → a < 2 ^ 32 → b < 2 ^ 32 → max a b < 2 ^ 32
unfolding max slt
max_word a b ha hb = ground (arith, ha, hb)

sub_raised :
    (c d : ℕ) → c < 2 ^ 32 → d < 2 ^ 32 → raised d ≤ raised c → raised d + sub32 c d ≡ raised c
unfolding raised sub32
sub_raised c d hc hd h = omega (arith, hc, hd, h)

add_word : (a b : ℕ) → add32 a b < 2 ^ 32
unfolding add32
add_word a b = omega arith

module _ (a m b n : ℕ) (first : IsSide a m) (second : IsSide b n) where
  -- Where the shared side ends.
  side_end :
      raised a ≤ raised b + n
      → raised b ≤ raised a + m
      → raised (max a b) + side a m b n
        ≡ (if ltb (raised b + n) (raised a + m) then raised b + n else raised a + m)
  unfolding side slt IsSide
  side_end h h' =
      let end_a = raised_add a m first in
      let end_b = raised_add b n second in
      let word = max_word a b (first.0) (second.0) in
      let start = raised-max a b in
      ground (
        arith,
        end_a,
        end_b,
        start,
        sub_raised (add32 a m) (max a b) (add_word a m) word,
        sub_raised (add32 b n) (max a b) (add_word b n) word,
        h,
        h',
      )

  side-On :
      (p : ℕ)
      → raised a ≤ raised b + n
      → raised b ≤ raised a + m
      → On (max a b) (side a m b n) p ↔ (On a m p × On b n p)
  unfolding On
  side-On p h h' =
      let stop = side_end h h' in
      let start = raised-max a b in
      (
        λ (from, to). (
          (ground (arith, start, from), ground (arith, stop, to)),
          (ground (arith, start, from), ground (arith, stop, to)),
        ),
        λ ((f, t), (f', t')). (ground (arith, start, f, f'), ground (arith, stop, t, t')),
      )

-- The point lies in the rectangle, its right and lower edges left out.
unfoldable pub Inside : (x y : ℕ) → Rect → Type 0
Inside x y rect = On rect.x rect.width x × On rect.y rect.height y

-- A rectangle whose edges are numbers of 32 bits with a sign.
unfoldable pub IsRect : Rect → Type 0
IsRect rect = IsSide rect.x rect.width × IsSide rect.y rect.height

touching :
    (a m b n : ℕ)
    → IsSide a m
    → IsSide b n
    → slt (add32 b n) a || slt (add32 a m) b ≡ false
    → (raised a ≤ raised b + n) × (raised b ≤ raised a + m)
unfolding slt
touching a m b n first second h =
    let end_a = raised_add a m first in
    let end_b = raised_add b n second in
    (ground (arith, end_a, end_b, h), ground (arith, end_a, end_b, h))

overlap-sides :
    (r0 r1 : Rect)
    → is_rect_overlap r0 r1 ≡ true
    → (slt (add32 r1.x r1.width) r0.x || slt (add32 r0.x r0.width) r1.x ≡ false)
      × (slt (add32 r1.y r1.height) r0.y || slt (add32 r0.y r0.height) r1.y ≡ false)
unfolding is_rect_overlap
overlap-sides r0 r1 h = (ground (arith, h), ground (arith, h))

-- For two rectangles that is_rect_overlap says overlap, with edges of 32 bits with a sign: a point lies in
-- the rectangle of find_rect_overlab where, and only where, it lies in both.
pub find_rect_overlab_lem :
    (r0 r1 : Rect) (x y : ℕ)
    → IsRect r0
    → IsRect r1
    → is_rect_overlap r0 r1 ≡ true
    → Inside x y (find_rect_overlab r0 r1) ↔ (Inside x y r0 × Inside x y r1)
unfolding IsRect Inside find_rect_overlab
find_rect_overlab_lem r0 r1 x y (x0, y0) (x1, y1) h =
    let (hx, hy) = overlap-sides r0 r1 h in
    let (left, right) = touching r0.x r0.width r1.x r1.width x0 x1 hx in
    let (up, down) = touching r0.y r0.height r1.y r1.height y0 y1 hy in
    let across = side-On r0.x r0.width r1.x r1.width x0 x1 x left right in
    let along = side-On r0.y r0.height r1.y r1.height y0 y1 y up down in
    (
      λ (in_x, in_y).
          (((across.0 in_x).0, (along.0 in_y).0), ((across.0 in_x).1, (along.0 in_y).1)),
      λ ((x_0, y_0), (x_1, y_1)). (across.1 (x_0, x_1), along.1 (y_0, y_1)),
    )
