-- ===== src/Drawing/Fill.antt =====
-- draw_rect reaches every pixel of the rectangle.
use lesch_os.Base.{ℕ, zero, suc, ◌+◌, ◌-◌, ◌%◌, ◌^◌, ◌<◌, ◌≡◌, arith, ◌∙◌, sym, add32}
use mathlib.Core.Path.{subst}
use lesch_os.Drawing.{
  Canvas, raised, slt, set_pixel, each, span, each_pixel, draw_rect, rect_create,
}
use lesch_os.Drawing.Overlap.{On, IsSide, IsRect, Inside}
use lesch_os.Drawing.Line.{walk, walk_up, IsColour, drawn_at, set_pixel-IsColour}

module _ (put : ℕ → Canvas → Canvas) (Keeps : Canvas → Type 0) where
  each_keeps :
      (left x : ℕ) (c : Canvas)
      → ((a : ℕ) (c : Canvas) → Keeps c → Keeps (put a c))
      → Keeps c
      → Keeps (each put left x c)
  unfolding each
  each_keeps zero x c step h = h
  each_keeps (suc left) x c step h = each_keeps left (add32 x 1) (put x c) step (step x c h)

  each_reaches :
      (left x k : ℕ) (c : Canvas)
      → ((a : ℕ) (c : Canvas) → Keeps c → Keeps (put a c))
      → k < left
      → ((c : Canvas) → Keeps (put (walk k 1 x) c))
      → Keeps (each put left x c)
  unfolding each walk
  each_reaches zero x k c step h here = absurd (omega (arith, h))
  each_reaches (suc left) x zero c step h here = each_keeps left (add32 x 1) (put x c) step (here c)
  each_reaches (suc left) x (suc k) c step h here =
      each_reaches left (add32 x 1) k (put x c) step (omega (arith, h)) here

span_lem : (a m p : ℕ) → IsSide a m → On a m p → span a m ≡ m
unfolding span IsSide On slt raised add32
span_lem a m p (ha, hm, fits) (from, to) = ground (arith, ha, hm, fits, from, to)

walk_to : (a m p : ℕ) → IsSide a m → On a m p → p < 2 ^ 32 → walk (raised p - raised a) 1 a ≡ p
unfolding IsSide On raised
walk_to a m p (ha, hm, fits) (from, to) hp =
    walk_up ((p + 2 ^ 31) % 2 ^ 32 - (a + 2 ^ 31) % 2 ^ 32) a ha
    ∙ omega (arith, ha, hm, fits, from, to, hp)

inside_span : (a m p : ℕ) → On a m p → raised p - raised a < m
unfolding On
inside_span a m p (from, to) = omega (arith, from, to)

-- For a rectangle whose edges are numbers of 32 bits with a sign: draw_rect gives every pixel in it the
-- colour.
pub draw_rect_lem :
    (colour st_x st_y width height x y : ℕ) (c : Canvas)
    → IsRect (rect_create st_x st_y width height)
    → Inside x y (rect_create st_x st_y width height)
    → x < 2 ^ 32
    → y < 2 ^ 32
    → IsColour colour x y (draw_rect colour st_x st_y width height c)
unfolding IsRect Inside rect_create draw_rect each_pixel
draw_rect_lem colour st_x st_y width height x y c (side_x, side_y) (on_x, on_y) hx hy =
    let rows = span_lem st_y height y side_y on_y in
    let cols = span_lem st_x width x side_x on_x in
    let at_x = walk_to st_x width x side_x on_x hx in
    let at_y = walk_to st_y height y side_y on_y hy in
    rw (rows, cols)
      (each_reaches (λ b. each (λ a. set_pixel colour a b) width st_x) (IsColour colour x y) height
        st_y (raised y - raised st_y) c
        (λ b c' h.
          each_keeps (λ a. set_pixel colour a b) (IsColour colour x y) width st_x c'
            (λ a c'' k. set_pixel-IsColour colour x y a b c'' k) h)
        (inside_span st_y height y on_y)
        (λ c'.
          each_reaches (λ a. set_pixel colour a (walk (raised y - raised st_y) 1 st_y))
            (IsColour colour x y) width st_x (raised x - raised st_x) c'
            (λ a c'' k.
              set_pixel-IsColour colour x y a (walk (raised y - raised st_y) 1 st_y) c'' k)
            (inside_span st_x width x on_x)
            (λ c''.
              subst
                (λ (a : ℕ).
                  IsColour colour x y
                    (set_pixel colour a (walk (raised y - raised st_y) 1 st_y) c''))
                (sym at_x)
                (subst (λ (b : ℕ). IsColour colour x y (set_pixel colour x b c'')) (sym at_y)
                  (drawn_at colour x y c'')))))
