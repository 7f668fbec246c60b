-- ===== src/Tty16/Cursor.antt =====
-- tty16_put_char of src/tty16.c at and away from the edges of the screen.
use lesch_os.Base.{
  ℕ, ◌+◌, ◌-◌, ◌*◌, ◌/◌, ◌%◌, ◌^◌, ◌≤◌, ◌<◌, ◌≡◌, ◌⊎◌, refl, ◌&&◌, not, none, some, arith,
  Bool-cases, inl, inr, if◌then◌else◌, ltb, ltb→lt, not-ltb→le, leb, ◌==◌, ◌>>=◌, bit_or, ap, ◌∙◌,
}
use lesch_os.Strings.{write}
use lesch_os.Tty16.Scroll.{IsScreen, tty16_scroll_lem}
use lesch_os.Tty16.{Tty16, attr_b, blank, tty16_scroll, put_here, tty16_put_char}
use lesch_os.Tty16.Cells.{
  cell_fits, put_here_plain, put_cell_inside, put_cell_outside, no_scroll, no_wrap, next_line,
  write_here, IsPlain,
}

-- `tty16_put_char` of a plain character with the cursor on the screen writes its cell with the
-- screen's colours and moves the cursor one column on, and nothing else.
pub tty16_put_char_plain :
    (c : ℕ) (tty : Tty16)
    → IsScreen tty
    → tty.cur_x < tty.xmax
    → tty.cur_y < tty.ymax
    → IsPlain c
    → tty16_put_char c tty
      ≡ some (record tty {
        cur_x = tty.cur_x + 1;
        vbuff = write tty.vbuff (tty.cur_y * tty.xmax + tty.cur_x) (bit_or c (blank tty));
      })
unfolding tty16_put_char
tty16_put_char_plain c tty h hx hy plain =
    let fits = (cell_fits tty tty.cur_x tty.cur_y h hy hx).0 in
    let small : (tty.cur_x + 1) % 2 ^ 8 ≡ tty.cur_x + 1 = omega (arith, h.wide_byte) in
    rw (no_wrap tty (omega arith)) (write_here c tty _ (tty.cur_x + 1) refl fits small hy plain)

-- On a screen that its buffer can hold, with the cursor at the right edge and not on the last row,
-- the cell of a plain character is the one where the next plain character goes: of the two only the
-- second is on the screen.
pub tty16_put_char_edge :
    (c d : ℕ) (tty : Tty16)
    → IsScreen tty
    → tty.cur_x ≡ tty.xmax
    → tty.cur_y + 1 < tty.ymax
    → IsPlain c
    → IsPlain d
    → (t : Tty16) × ((tty16_put_char c tty >>= tty16_put_char d) ≡ some t)
      × (t.cur_x ≡ 1)
      × (t.cur_y ≡ tty.cur_y + 1)
      × ((j : ℕ)
          → t.vbuff j
            ≡ (if j == (tty.cur_y + 1) * tty.xmax then bit_or d (blank tty) else tty.vbuff j))
unfolding tty16_put_char blank attr_b
tty16_put_char_edge c d tty h hx hy pc pd =
    let i : ℕ = (tty.cur_y + 1) * tty.xmax in
    let here : tty.cur_y * tty.xmax + tty.cur_x ≡ i = omega (arith, hx) in
    let inside : i < 2000 = omega (arith, (cell_fits tty 0 (tty.cur_y + 1) h hy h.wide).0) in
    let t₁ = record tty {
      cur_x = tty.xmax + 1;
      vbuff = write tty.vbuff i (bit_or c (blank tty));
    } in
    let t₂ = record tty {
      cur_x = 1;
      cur_y = tty.cur_y + 1;
      vbuff = write (write tty.vbuff i (bit_or c (blank tty))) i (bit_or d (blank tty));
    } in
    let wraps : (tty.cur_y + 1) % 2 ^ 8 ≡ tty.cur_y + 1 = omega (arith, h.high_byte) in
    let one : tty16_put_char c tty ≡ some t₁ = rw (no_wrap tty (omega (arith, hx))) (
      write_here c tty i (tty.xmax + 1) here inside (omega (arith, hx, h.wide_byte)) (omega arith)
        pc) in
    let two : tty16_put_char d t₁ ≡ some t₂ =
      rw (next_line t₁ (omega arith), wraps)
        (write_here d (record t₁ { cur_x = 0; cur_y = tty.cur_y + 1 }) i 1 (omega arith) inside refl
          hy pd) in
    (t₂, rw one two, refl, refl, λ j. ground arith)

-- With the cursor at the right edge of the last row, on a screen that fills its buffer, a plain
-- character is written outside of the buffer.
pub tty16_put_char_outside :
    (c : ℕ) (tty : Tty16)
    → tty.ymax * tty.xmax ≡ 2000
    → tty.cur_x ≡ tty.xmax
    → tty.cur_y + 1 ≡ tty.ymax
    → IsPlain c
    → tty16_put_char c tty ≡ none
unfolding tty16_put_char
tty16_put_char_outside c tty full hx hy plain =
    let row : tty.cur_y * tty.xmax + tty.xmax ≡ 2000 =
      omega arith ∙ (ap (λ (t : ℕ). t * tty.xmax) hy ∙ full) in
    rw
      (
        no_wrap tty (omega (arith, hx)),
        put_here_plain c tty plain,
        put_cell_outside (tty.cur_y * tty.xmax + tty.cur_x) (bit_or c (blank tty)) tty.vbuff
            (omega (arith, hx, row)),
      )
      refl

-- The column that a tab leads to, a byte.
tab_stop :
    (x xmax : ℕ)
    → xmax + 1 < 2 ^ 8
    → x < xmax
    → ((x + 8) / 8 * 8 % 2 ^ 8 ≤ xmax) ⊎ ((x + 8) / 8 * 8 % 2 ^ 8 ≡ (x / 8 + 1) * 8)
tab_stop x xmax h inside = elim (Bool-cases (ltb x 248)) [
  | inl low ↦ inr (omega (arith, ltb→lt x 248 low))
  | inr high ↦ inl (omega (arith, h, inside, not-ltb→le x 248 high))
]

put_here_stays :
    (c : ℕ) (tty : Tty16)
    → IsScreen tty
    → tty.cur_x < tty.xmax
    → tty.cur_y < tty.ymax
    → tty.bs_xmin < tty.xmax
    → (t : Tty16) × (put_here c tty ≡ some t)
      × (t.xmax ≡ tty.xmax)
      × (t.ymax ≡ tty.ymax)
      × (t.cur_y ≤ tty.cur_y + 1)
      × ((t.cur_x ≤ tty.xmax) ⊎ (t.cur_x ≡ (tty.cur_x / 8 + 1) * 8))
unfolding put_here
put_here_stays c tty h hx hy hb =
    let back : ℕ = (if ltb (tty.cur_x - 1) tty.bs_xmin then tty.bs_xmin else tty.cur_x - 1) in
    let back_in : back < tty.xmax = ground arith in
    let back_fits =
      put_cell_inside (tty.cur_y * tty.xmax + back) (bit_or 32 (blank tty)) tty.vbuff
        (cell_fits tty back tty.cur_y h hy back_in).0 in
    let here_fits =
      put_cell_inside (tty.cur_y * tty.xmax + tty.cur_x) (bit_or c (blank tty)) tty.vbuff
        (cell_fits tty tty.cur_x tty.cur_y h hy hx).0 in
    elim (Bool-cases (c == 8 && not (tty.cur_x == 0))) [
      | inl bs ↦ rw (bs, back_fits) (_, refl, refl, refl, omega arith, inl (omega arith))
      | inr no_bs ↦ rw no_bs (elim (Bool-cases (c == 10)) [
        | inl nl ↦ rw nl (_, refl, refl, refl, omega arith, inl (omega arith))
        | inr no_nl ↦ rw no_nl (elim (Bool-cases (c == 9)) [
          | inl tab ↦
              rw tab (_, refl, refl, refl, omega arith, tab_stop tty.cur_x tty.xmax h.wide_byte hx)
          | inr no_tab ↦ rw no_tab (elim (Bool-cases (c == 13)) [
            | inl cr ↦ rw cr (_, refl, refl, refl, omega arith, inl (omega arith))
            | inr no_cr ↦
                rw (no_cr, here_fits) (_, refl, refl, refl, omega arith, inl (omega arith))
          ])
        ])
      ])
    ]

IsScreen-sides : (t u : Tty16) → t.xmax ≡ u.xmax → t.ymax ≡ u.ymax → IsScreen u → IsScreen t
IsScreen-sides t u sx sy h =
    let area : t.ymax * t.xmax ≡ u.ymax * u.xmax = cc in
    record {
      wide = omega (arith, h.wide);
      high = omega (arith, h.high);
      wide_byte = omega (arith, h.wide_byte);
      high_byte = omega (arith, h.high_byte);
      fits = omega (arith, h.fits);
    }

scroll_stays :
    (t : Tty16)
    → IsScreen t
    → (t' : Tty16) × (tty16_scroll t ≡ some t')
      × (t'.xmax ≡ t.xmax)
      × (t'.ymax ≡ t.ymax)
      × (t'.cur_x ≡ t.cur_x)
      × (t'.cur_y < t.ymax)
scroll_stays t h = elim (Bool-cases (leb t.ymax t.cur_y)) [
  | inl below ↦
      let s = tty16_scroll_lem t h (ground arith) in
      (record t { vbuff = s.0; cur_y = t.ymax - 1 }, s.1, refl, refl, refl, omega (arith, h.high))
  | inr on ↦
      let above : t.cur_y < t.ymax = ground arith in (t, no_scroll t above, refl, refl, refl, above)
]

-- On a screen that its buffer can hold, with the cursor on its rows left of the right edge and the
-- backspace limit left of it too, any character put leaves the sides of the screen as they were and the
-- cursor on the rows, at most at the edge or at the next tab stop, the multiple of eight behind the
-- column where it was.
pub tty16_put_char-IsScreen :
    (c : ℕ) (tty : Tty16)
    → IsScreen tty
    → tty.cur_x < tty.xmax
    → tty.cur_y < tty.ymax
    → tty.bs_xmin < tty.xmax
    → (t : Tty16) × (tty16_put_char c tty ≡ some t)
      × IsScreen t
      × (t.xmax ≡ tty.xmax)
      × (t.ymax ≡ tty.ymax)
      × (t.cur_y < t.ymax)
      × ((t.cur_x ≤ t.xmax) ⊎ (t.cur_x ≡ (tty.cur_x / 8 + 1) * 8))
unfolding tty16_put_char
tty16_put_char-IsScreen c tty h hx hy hb =
    let (t, e, sx, sy, cy, cx) = put_here_stays c tty h hx hy hb in
    let same = IsScreen-sides t tty sx sy h in
    let (t', e', sx', sy', cx', cy') = scroll_stays t same in
    (
      t',
      rw (no_wrap tty (omega arith), e) e',
      IsScreen-sides t' t sx' sy' same,
      sx' ∙ sx,
      sy' ∙ sy,
      omega arith,
      elim cx [ inl edge ↦ inl (omega (arith, cx', sx, sx', edge)) | inr stop ↦ inr (cx' ∙ stop) ],
    )
