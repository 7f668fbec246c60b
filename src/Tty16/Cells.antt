-- ===== src/Tty16/Cells.antt =====
-- The cells that tty16_put_char of src/tty16.c writes.
use lesch_os.Base.{ℕ, ◌+◌, ◌*◌, ◌%◌, ◌^◌, ◌≤◌, ◌<◌, ◌≡◌, ◌≢◌, none, some, arith, ◌>>=◌, bit_or}
use lesch_os.Strings.{write}
use native.Mathlib.Nat.{mul-le-mul_right}
use lesch_os.Tty16.Scroll.{IsScreen}
use lesch_os.Tty16.{Tty16, scrn_cells, blank, put_cell, tty16_scroll, wrap_cursor, put_here}

-- A character that is no control character of the screen.
abbrev pub IsPlain : ℕ → Type 0
IsPlain c = (c ≢ 8) × (c ≢ 9) × (c ≢ 10) × (c ≢ 13)

-- The cell of a row and a column lies in the buffer.
pub cell_fits :
    (tty : Tty16) (x y : ℕ)
    → IsScreen tty
    → y < tty.ymax
    → x < tty.xmax
    → (y * tty.xmax + x < 2000) × (y * tty.xmax + tty.xmax ≤ tty.ymax * tty.xmax)
cell_fits tty x y h hy hx =
    let above : y + 1 ≤ tty.ymax = omega arith in
    let reach = mul-le-mul_right tty.xmax above in (omega (arith, h.fits), omega arith)

pub put_here_plain :
    (c : ℕ) (tty : Tty16)
    → IsPlain c
    → put_here c tty ≡ (
        put_cell (tty.cur_y * tty.xmax + tty.cur_x) (bit_or c (blank tty)) tty.vbuff >>= λ v.
        some (record tty { cur_x = (tty.cur_x + 1) % 2 ^ 8; vbuff = v }))
unfolding put_here
put_here_plain c tty h = ground arith

pub put_cell_inside :
    (i cell : ℕ) (v : ℕ → ℕ) → i < 2000 → put_cell i cell v ≡ some (write v i cell)
unfolding put_cell scrn_cells
put_cell_inside i cell v h = ground arith

pub put_cell_outside : (i cell : ℕ) (v : ℕ → ℕ) → 2000 ≤ i → put_cell i cell v ≡ none
unfolding put_cell scrn_cells
put_cell_outside i cell v h = ground arith

pub no_scroll : (tty : Tty16) → tty.cur_y < tty.ymax → tty16_scroll tty ≡ some tty
unfolding tty16_scroll
no_scroll tty h = ground arith

-- The cursor stays where it is, or goes to the next line.
pub no_wrap : (tty : Tty16) → tty.cur_x ≤ tty.xmax → wrap_cursor tty ≡ tty
unfolding wrap_cursor
no_wrap tty h = ground arith

pub next_line :
    (tty : Tty16)
    → tty.xmax < tty.cur_x
    → wrap_cursor tty ≡ record tty { cur_x = 0; cur_y = (tty.cur_y + 1) % 2 ^ 8 }
unfolding wrap_cursor
next_line tty h = ground arith

-- A plain character once the cursor stands.
pub write_here :
    (c : ℕ) (tty : Tty16) (i x : ℕ)
    → tty.cur_y * tty.xmax + tty.cur_x ≡ i
    → i < 2000
    → (tty.cur_x + 1) % 2 ^ 8 ≡ x
    → tty.cur_y < tty.ymax
    → IsPlain c
    → (put_here c tty >>= tty16_scroll)
      ≡ some (record tty { cur_x = x; vbuff = write tty.vbuff i (bit_or c (blank tty)) })
write_here c tty i x at inside next hy plain =
    rw
      (
        put_here_plain c tty plain,
        at,
        put_cell_inside i (bit_or c (blank tty)) tty.vbuff inside,
        next,
      )
      (no_scroll _ hy)
