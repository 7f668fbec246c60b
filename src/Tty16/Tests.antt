-- ===== src/Tty16/Tests.antt =====
-- A screen of 80 columns and 25 rows.
use lesch_os.Base.{◌⊎◌, ℕ, ◌≤◌, ◌<◌, ◌≡◌, refl, true, some, [], ◌∷◌, arith, bit_or}
use lesch_os.Strings.{write}
use lesch_os.Tty16.{Tty16, tty16_create, blank, tty16_put_char, hex_loop, hex_digit}
use lesch_os.Tty16.Scroll.{IsScreen}
use lesch_os.Tty16.Cursor.{tty16_put_char_plain, tty16_put_char-IsScreen}

abbrev at : (x y : ℕ) → Tty16
at x y = record {
  x0 = 0;
  y0 = 0;
  xmax = 80;
  ymax = 25;
  cur_x = x;
  cur_y = y;
  col_back = 0;
  col_txt = 9;
  bs_xmin = 0;
  vbuff = λ i. 0;
}

created : tty16_create 0 0 80 25 ≡ at 0 0
unfolding tty16_create
created = refl

at-IsScreen : (x y : ℕ) → IsScreen (at x y)
at-IsScreen x y = record {
  wide = omega arith;
  high = omega arith;
  wide_byte = omega arith;
  high_byte = omega arith;
  fits = omega arith;
}

tty16_put_char_plain_example :
    tty16_put_char b'A' (at 3 2)
    ≡ some
        (record (at 3 2) { cur_x = 4; vbuff = write (λ i. 0) 163 (bit_or b'A' (blank (at 3 2))) })
tty16_put_char_plain_example =
    tty16_put_char_plain b'A' (at 3 2) (at-IsScreen 3 2) (omega arith) (omega arith) (omega arith)

tty16_put_char-IsScreen_example :
    (t : Tty16) × (tty16_put_char 10 (at 0 24) ≡ some t)
    × IsScreen t
    × (t.xmax ≡ 80)
    × (t.ymax ≡ 25)
    × (t.cur_y < t.ymax)
    × ((t.cur_x ≤ t.xmax) ⊎ (t.cur_x ≡ 8))
tty16_put_char-IsScreen_example =
    tty16_put_char-IsScreen 10 (at 0 24) (at-IsScreen 0 24) (omega arith) (omega arith)
      (omega arith)

hex_bee : hex_loop 7 3054 true ≡ b'B' ∷ b'E' ∷ b'E' ∷ []
unfolding hex_loop hex_digit
hex_bee = refl
