-- ===== src/Tty16/Scroll.antt =====
-- src/tty16.c: tty16_scroll, row by row.
use lesch_os.Base.{
  ℕ, zero, suc, ◌+◌, ◌-◌, ◌*◌, ◌%◌, ◌^◌, ◌≤◌, ◌<◌, ◌≡◌, refl, some, arith, if◌then◌else◌, bit_or,
  sub32, ap, sym, ◌∙◌,
}
use native.Mathlib.Nat.{mul-le-mul_right}
use lesch_os.Strings.{write}
use lesch_os.Strings.Mem.{within}
use lesch_os.Tty16.{
  Tty16, scrn_cells, attr_b, put_cell, cell_at, move_rows, fill_cells, tty16_scroll,
}

move_rows_lem :
    (left i xmax : ℕ) (vbuff : ℕ → ℕ)
    → 0 < xmax
    → left + i + xmax ≤ 2000
    → (v : ℕ → ℕ) × (move_rows left i xmax vbuff ≡ some v)
      × ((j : ℕ) → v j ≡ (if within i left j then vbuff (j + xmax) else vbuff j))
unfolding move_rows put_cell cell_at scrn_cells
move_rows_lem zero i xmax vbuff pos fits = (vbuff, refl, λ j. ground arith)
move_rows_lem (suc left) i xmax vbuff pos fits =
    let next = write vbuff i (vbuff (i + xmax)) in
    let (v, e, same) = move_rows_lem left (i + 1) xmax next pos (omega arith) in
    (v, ground (arith, e), λ j. ground (arith, same j))

fill_cells_lem :
    (left i cell : ℕ) (vbuff : ℕ → ℕ)
    → left + i ≤ 2000
    → (v : ℕ → ℕ) × (fill_cells left i cell vbuff ≡ some v)
      × ((j : ℕ) → v j ≡ (if within i left j then cell else vbuff j))
unfolding fill_cells put_cell scrn_cells
fill_cells_lem zero i cell vbuff fits = (vbuff, refl, λ j. ground arith)
fill_cells_lem (suc left) i cell vbuff fits =
    let next = write vbuff i cell in
    let (v, e, same) = fill_cells_lem left (i + 1) cell next (omega arith) in
    (v, ground (arith, e), λ j. ground (arith, same j))

-- A screen that its buffer can hold, of at most 254 columns and 255 rows.
pub record IsScreen (tty : Tty16) : Type 0 where
  pub wide : 0 < tty.xmax
  pub high : 0 < tty.ymax
  pub wide_byte : tty.xmax + 1 < 2 ^ 8
  pub high_byte : tty.ymax < 2 ^ 8
  pub fits : tty.ymax * tty.xmax ≤ 2000

-- The first cell of the last row, as the code computes it.
last_row :
    (tty : Tty16)
    → IsScreen tty
    → (sub32 tty.ymax 1 * tty.xmax % 2 ^ 32 ≡ (tty.ymax - 1) * tty.xmax)
      × ((tty.ymax - 1) * tty.xmax + tty.xmax ≡ tty.ymax * tty.xmax)
unfolding sub32
last_row tty h =
    let y : ℕ = tty.ymax - 1 in
    let before : sub32 tty.ymax 1 ≡ y = omega arith in
    let up : tty.ymax ≡ y + 1 = omega arith in
    let row : y * tty.xmax + tty.xmax ≡ tty.ymax * tty.xmax =
      sym (ap (λ (t : ℕ). t * tty.xmax) up ∙ omega arith) in
    (ap (λ (t : ℕ). t * tty.xmax % 2 ^ 32) before ∙ omega (arith, h.fits), row)

ymax_less : (tty : Tty16) → IsScreen tty → sub32 tty.ymax 1 % 2 ^ 8 ≡ tty.ymax - 1
unfolding sub32
ymax_less tty h = omega arith

-- On a screen that its buffer can hold, whose cursor is below the last row, `tty16_scroll` moves
-- every row up by one, fills the last row with one cell, and sets the cursor on it.
pub tty16_scroll_lem :
    (tty : Tty16)
    → IsScreen tty
    → tty.ymax ≤ tty.cur_y
    → (v : ℕ → ℕ) × (tty16_scroll tty ≡ some (record tty { vbuff = v; cur_y = tty.ymax - 1 }))
      × ((x y : ℕ)
          → x < tty.xmax
          → y + 1 < tty.ymax
          → v (y * tty.xmax + x) ≡ tty.vbuff ((y + 1) * tty.xmax + x))
      × ((x : ℕ) → x < tty.xmax → v ((tty.ymax - 1) * tty.xmax + x) ≡ bit_or 32 (attr_b tty))
unfolding tty16_scroll
tty16_scroll_lem tty h below =
    let (first, row) = last_row tty h in
    let p : ℕ = (tty.ymax - 1) * tty.xmax in
    let (moved, e, up) = move_rows_lem p 0 tty.xmax tty.vbuff h.wide (omega (arith, h.fits)) in
    let (filled, e', last) =
      fill_cells_lem (tty.ymax * tty.xmax - p) p (bit_or 32 (attr_b tty)) moved
        (omega (arith, h.fits)) in
    let ymax_wraps : sub32 tty.ymax 1 % 2 ^ 8 ≡ tty.ymax - 1 = ymax_less tty h in
    (
      filled,
      ground (arith, first, e, e', ymax_wraps),
      λ x y hx hy.
          let above : y + 1 ≤ tty.ymax - 1 = omega arith in
          let reach = mul-le-mul_right tty.xmax above in
          ground (arith, last (y * tty.xmax + x), up (y * tty.xmax + x)),
      λ x hx. ground (arith, last (p + x)),
    )
