-- ===== src/Tty16.antt =====
-- src/tty16.c: a text screen in memory, its cursor, its scrolling and its numbers. `none` is a read
-- or a write outside of the screen's buffer, or a loop out of fuel.
pub mod Cells
pub mod Cursor
pub mod Scroll
pub mod Digits
mod Tests
use lesch_os.Base.{
  ℕ, zero, suc, ◌+◌, ◌-◌, ◌*◌, ◌/◌, ◌%◌, ◌^◌, Bool, true, false, ◌&&◌, not, Option, none, some,
  List, [], ◌∷◌, ◌++◌, if◌then◌else◌, ltb, leb, ◌==◌, ◌>>=◌, bit_and, bit_or, sub32,
}
use lesch_os.Strings.{write}

-- SCRN_WIDTH * SCRN_HEIGHT, the cells that `tty16_create` asks `ucalloc` for.
unfoldable pub scrn_cells : ℕ
scrn_cells = 80 * 25

-- `struct tty16`, less its place in the list of screens: bytes, and the cells of `vbuff`.
pub record Tty16 : Type 0 where
  x0 : ℕ
  y0 : ℕ
  xmax : ℕ
  ymax : ℕ
  cur_x : ℕ
  cur_y : ℕ
  col_back : ℕ
  col_txt : ℕ
  bs_xmin : ℕ
  vbuff : ℕ → ℕ

-- What `tty16_create` returns: an empty screen at the corner, blue on black.
unfoldable pub tty16_create : (x0 y0 width height : ℕ) → Tty16
tty16_create x0 y0 width height = record {
  x0 = x0 % 2 ^ 8;
  y0 = y0 % 2 ^ 8;
  xmax = width % 2 ^ 8;
  ymax = height % 2 ^ 8;
  cur_x = 0;
  cur_y = 0;
  col_back = 0;
  col_txt = 9;
  bs_xmin = 0;
  vbuff = λ i. 0;
}

-- `attr_b`, a byte, and `blank`, a halfword.
unfoldable pub attr_b : Tty16 → ℕ
attr_b tty = bit_or (tty.col_back * 2 ^ 4) (bit_and tty.col_txt 15) % 2 ^ 8

unfoldable pub blank : Tty16 → ℕ
blank tty = attr_b tty * 2 ^ 8

-- A write to a cell, and a read of one.
unfoldable pub put_cell : (i cell : ℕ) → (ℕ → ℕ) → Option (ℕ → ℕ)
put_cell i cell vbuff = if ltb i scrn_cells then some (write vbuff i cell) else none

unfoldable pub cell_at : (i : ℕ) → (ℕ → ℕ) → Option ℕ
cell_at i vbuff = if ltb i scrn_cells then some (vbuff i) else none

-- The two loops of `tty16_scroll`, with `left` rounds to go.
unfoldable pub move_rows : (left i xmax : ℕ) → (ℕ → ℕ) → Option (ℕ → ℕ)
move_rows zero i xmax vbuff = some vbuff
move_rows (suc left) i xmax vbuff = do
  cell ← cell_at (i + xmax) vbuff
  next ← put_cell i cell vbuff
  move_rows left (i + 1) xmax next

unfoldable pub fill_cells : (left i cell : ℕ) → (ℕ → ℕ) → Option (ℕ → ℕ)
fill_cells zero i cell vbuff = some vbuff
fill_cells (suc left) i cell vbuff = do
  next ← put_cell i cell vbuff
  fill_cells left (i + 1) cell next

unfoldable pub tty16_scroll : Tty16 → Option Tty16
tty16_scroll tty =
    let first = sub32 tty.ymax 1 * tty.xmax % 2 ^ 32 in
    if leb tty.ymax tty.cur_y
    then (do
      moved ← move_rows first 0 tty.xmax tty.vbuff
      filled ← fill_cells (tty.ymax * tty.xmax - first) first (bit_or 32 (attr_b tty)) moved
      some (record tty { vbuff = filled; cur_y = sub32 tty.ymax 1 % 2 ^ 8 }))
    else some tty

-- The first two tests of `tty16_put_char`: past the right edge the line ends. `cur_x` is a byte
-- without a sign, so that it is never below 0.
unfoldable pub wrap_cursor : Tty16 → Tty16
wrap_cursor tty =
    if ltb tty.xmax tty.cur_x
    then record tty { cur_x = 0; cur_y = (tty.cur_y + 1) % 2 ^ 8 }
    else tty

-- The middle of `tty16_put_char`: what the character does.
unfoldable pub put_here : (c : ℕ) → Tty16 → Option Tty16
put_here c tty =
    let back = (if ltb (tty.cur_x - 1) tty.bs_xmin then tty.bs_xmin else tty.cur_x - 1) in
    if c == 8 && not (tty.cur_x == 0)
    then (put_cell (tty.cur_y * tty.xmax + back) (bit_or 32 (blank tty)) tty.vbuff >>= λ v.
        some (record tty { cur_x = back; vbuff = v }))
    else if c == 10
    then some (record tty { cur_x = 0; cur_y = (tty.cur_y + 1) % 2 ^ 8 })
    else if c == 9
    then some (record tty { cur_x = (tty.cur_x + 8) / 8 * 8 % 2 ^ 8 })
    else if c == 13
    then some (record tty { cur_x = 0 })
    else put_cell (tty.cur_y * tty.xmax + tty.cur_x) (bit_or c (blank tty)) tty.vbuff >>= λ v.
        some (record tty { cur_x = (tty.cur_x + 1) % 2 ^ 8; vbuff = v })

unfoldable pub tty16_put_char : (c : ℕ) → Tty16 → Option Tty16
tty16_put_char c tty = put_here c (wrap_cursor tty) >>= tty16_scroll

-- `tty16_move_cursor` tells the screen's controller this place, a halfword.
unfoldable pub curs_loc : Tty16 → ℕ
curs_loc tty = ((tty.y0 + tty.cur_y) % 2 ^ 8 * 80 + (tty.x0 + tty.cur_x) % 2 ^ 8) % 2 ^ 16

-- `tty16_str`: the bytes up to the zero, where the list of them ends.
unfoldable pub tty16_str : List ℕ → Tty16 → Option Tty16
tty16_str [] tty = some tty
tty16_str (c ∷ s) tty = tty16_put_char c tty >>= tty16_str s

unfoldable pub tty16_clear : Tty16 → Option Tty16
tty16_clear tty =
    fill_cells (tty.xmax * tty.ymax) 0 (bit_or 32 (attr_b tty * 2 ^ 8)) tty.vbuff >>= λ v.
    some (record tty { vbuff = v })

-- The character that `tty16_hex` prints for four bits.
unfoldable pub hex_digit : ℕ → ℕ
hex_digit tmp = if leb 10 tmp then tmp - 10 + b'A' else tmp + b'0'

-- The loop of `tty16_hex` from `i = 4 * left` down, and the digit after it: the characters printed.
unfoldable pub hex_loop : (left n : ℕ) → (noZer : Bool) → List ℕ
hex_loop zero n noZer = hex_digit (bit_and n 15) ∷ []
hex_loop (suc left) n noZer =
    let tmp = bit_and (n / 2 ^ (4 * suc left)) 15 in
    let skipped = hex_loop left n noZer in
    let printed = hex_loop left n false in
    if tmp == 0 && noZer then skipped else hex_digit tmp ∷ printed

unfoldable pub tty16_hex : (n : ℕ) → Tty16 → Option Tty16
tty16_hex n tty = tty16_str (b'0' ∷ b'x' ∷ hex_loop 7 n true) tty

-- The loops of `tty16_dec`: the digits of `ac` from the last to the first, then turned round.
unfoldable pub dec_loop : (fuel ac : ℕ) → List ℕ → Option (List ℕ)
dec_loop zero ac cc = none
dec_loop (suc fuel) ac cc =
    let rest = dec_loop fuel (ac / 10) ((b'0' + ac % 10) ∷ cc) in if ltb 0 ac then rest else some cc

-- `ac` is an int: from 2^31 on it is below 0 and no digit is printed.
unfoldable pub dec_chars : (n : ℕ) → Option (List ℕ)
dec_chars n =
    if n == 0 then some (b'0' ∷ []) else if ltb n (2 ^ 31) then dec_loop 11 n [] else some []

unfoldable pub tty16_dec : (n : ℕ) → Tty16 → Option Tty16
tty16_dec n tty = dec_chars n >>= λ s. tty16_str s tty
