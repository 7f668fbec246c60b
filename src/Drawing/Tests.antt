-- ===== src/Drawing/Tests.antt =====
-- Runs of the rectangles at small ones.
use lesch_os.Base.{add32, ◌≡◌, refl, arith, true, false, []}
use mathlib.Core.Logic.{◌↔◌}
use lesch_os.Drawing.{
  Rect, Window, rect_create, is_rect_overlap, is_point_in_rect, find_rect_overlab,
  is_windows_overlap, raised, slt, get_dev_coordns, Canvas, pnt_line, draw_rect,
}
use lesch_os.Drawing.Line.{IsCoord, IsColour, pnt_line_lem}
use lesch_os.Drawing.Fill.{draw_rect_lem}
use lesch_os.Drawing.Overlap.{On, IsSide, IsRect, Inside, find_rect_overlab_lem}

-- From 2^32 - 2, which is minus 2, to 3.
abbrev crossing : Rect
crossing = rect_create 4294967294 0 5 4

abbrev square : Rect
square = rect_create 1 1 4 4

crossing-IsRect : IsRect crossing
unfolding IsRect IsSide raised rect_create
crossing-IsRect = ((omega arith, omega arith, omega arith), (omega arith, omega arith, omega arith))

square-IsRect : IsRect square
unfolding IsRect IsSide raised rect_create
square-IsRect = ((omega arith, omega arith, omega arith), (omega arith, omega arith, omega arith))

crossing_square : is_rect_overlap crossing square ≡ true
unfolding is_rect_overlap slt raised rect_create add32
crossing_square = refl

find_rect_overlab_lem_example :
    Inside 2 3 (find_rect_overlab crossing square) ↔ (Inside 2 3 crossing × Inside 2 3 square)
find_rect_overlab_lem_example =
    find_rect_overlab_lem crossing square 2 3 crossing-IsRect square-IsRect crossing_square

-- A point below the rectangle, whose height is not looked at.
below_it : is_point_in_rect 0 4 (rect_create 0 0 5 1) ≡ true
unfolding is_point_in_rect slt raised rect_create add32
below_it = refl

abbrev tall : Window
tall = record { x = 0; y = 0; width = 10; height = 10 }

abbrev flat : Window
flat = record { x = 0; y = 8; width = 10; height = 1 }

-- The first window is taken with the height of the second.
missed : is_windows_overlap tall [] flat [] ≡ false
unfolding is_windows_overlap is_rect_overlap slt raised get_dev_coordns add32 rect_create
missed = refl

zero-IsCoord : IsCoord 0
unfolding IsCoord raised
zero-IsCoord = (omega arith, omega arith, omega arith)

-- Minus three.
below-IsCoord : IsCoord 4294967293
unfolding IsCoord raised
below-IsCoord = (omega arith, omega arith, omega arith)

five-IsCoord : IsCoord 5
unfolding IsCoord raised
five-IsCoord = (omega arith, omega arith, omega arith)

abbrev empty : Canvas
empty = record { width = 8; height = 8; buff = λ i. 0 }

pnt_line_lem_example :
    IsColour 7 0 5 (pnt_line 7 empty 0 5 4294967293 0)
    × IsColour 7 4294967293 0 (pnt_line 7 empty 0 5 4294967293 0)
pnt_line_lem_example =
    pnt_line_lem 7 empty 0 5 4294967293 0 zero-IsCoord five-IsCoord below-IsCoord zero-IsCoord

crossing-Inside : Inside 1 2 crossing
unfolding Inside On raised rect_create
crossing-Inside = ((omega arith, omega arith), (omega arith, omega arith))

draw_rect_lem_example : IsColour 7 1 2 (draw_rect 7 4294967294 0 5 4 empty)
draw_rect_lem_example =
    draw_rect_lem 7 4294967294 0 5 4 1 2 empty crossing-IsRect crossing-Inside (omega arith)
      (omega arith)
