-- ===== src/Drawing/Line.antt =====
-- pnt_line begins at the one end of the line and arrives at the other.
use lesch_os.Base.{
  ℕ, zero, suc, ◌+◌, ◌-◌, ◌*◌, ◌%◌, ◌^◌, ◌<◌, ◌≤◌, ◌≡◌, ◌≢◌, inl, inr, true, false, arith, refl, ap,
  ◌∙◌, sym, if◌then◌else◌, add32, sub32, ltb, eq→==, Bool-cases,
}
use mathlib.Core.Path.{subst}
use lesch_os.Drawing.{
  Canvas, raised, slt, get_pixel, set_pixel, abs, sign, rounds, line_loop, pnt_line,
}

-- `n` steps from `p`.
unfoldable pub walk : (n step p : ℕ) → ℕ
walk zero step p = p
walk (suc n) step p = walk n step (add32 p step)

slt-small : (a b : ℕ) → a < 2 ^ 31 → b < 2 ^ 31 → slt a b ≡ ltb a b
unfolding slt raised
slt-small a b ha hb = ground (arith, ha, hb)

-- A coordinate from -2^29 to below 2^29.
unfoldable pub IsCoord : ℕ → Type 0
IsCoord a = (a < 2 ^ 32) × (2 ^ 31 - 2 ^ 29 ≤ raised a) × (raised a < 2 ^ 31 + 2 ^ 29)

pub walk_up : (n p : ℕ) → p < 2 ^ 32 → walk n 1 p ≡ (p + n) % 2 ^ 32
unfolding walk add32
walk_up zero p h = omega (arith, h)
walk_up (suc n) p h = walk_up n ((p + 1) % 2 ^ 32) (omega arith) ∙ omega arith

walk_down : (n p : ℕ) → p < 2 ^ 32 → walk n 4294967295 p ≡ (p + 4294967295 * n) % 2 ^ 32
unfolding walk add32
walk_down zero p h = omega (arith, h)
walk_down (suc n) p h = walk_down n ((p + 4294967295) % 2 ^ 32) (omega arith) ∙ omega arith

down_back :
    (p q : ℕ) → p < 2 ^ 32 → q < 2 ^ 32 → (p + 4294967295 * sub32 0 (sub32 q p)) % 2 ^ 32 ≡ q
unfolding sub32
down_back p q hp hq = omega (arith, hp, hq)

up_back : (p q : ℕ) → p < 2 ^ 32 → q < 2 ^ 32 → (p + sub32 q p) % 2 ^ 32 ≡ q
unfolding sub32
up_back p q hp hq = omega (arith, hp, hq)

down_short :
    (p q : ℕ) → IsCoord p → IsCoord q → slt (sub32 q p) 0 ≡ true → sub32 0 (sub32 q p) < 2 ^ 30
unfolding IsCoord slt raised sub32
down_short p q (hp, lp, up) (hq, lq, uq) h = ground (arith, hp, lp, up, hq, lq, uq, h)

up_short : (p q : ℕ) → IsCoord p → IsCoord q → slt (sub32 q p) 0 ≡ false → sub32 q p < 2 ^ 30
unfolding IsCoord slt raised sub32
up_short p q (hp, lp, up) (hq, lq, uq) h = ground (arith, hp, lp, up, hq, lq, uq, h)

up_sign : (d : ℕ) → d < 2 ^ 30 → d ≢ 0 → slt 0 d ≡ true
unfolding slt raised
up_sign d h h' = ground (arith, h, h')

word : (p : ℕ) → p < 2 ^ 32 → p ≡ (p + 0) % 2 ^ 32
word p h = omega (arith, h)

-- The distance, walked in its direction, leads to the other end.
walk_distance :
    (p q : ℕ)
    → IsCoord p
    → IsCoord q
    → (walk (abs (sub32 q p)) (sign (sub32 q p)) p ≡ q) × (abs (sub32 q p) < 2 ^ 30)
unfolding IsCoord abs sign walk
walk_distance p q hp hq = elim (Bool-cases (slt (sub32 q p) 0)) [
  | inl h ↦ rw h (
    walk_down (sub32 0 (sub32 q p)) p (hp.0) ∙ down_back p q (hp.0) (hq.0),
    down_short p q hp hq h,
  )
  | inr h ↦ rw h (there (sub32 q p) refl (up_short p q hp hq h), up_short p q hp hq h)
]
  where
    there : (d : ℕ) → sub32 q p ≡ d → d < 2 ^ 30 → walk d (if slt 0 d then 1 else 0) p ≡ q
    there zero e few =
        word p (hp.0) ∙ ap (λ (t : ℕ). (p + t) % 2 ^ 32) (sym e) ∙ up_back p q (hp.0) (hq.0)
    there (suc d) e few = rw (up_sign (suc d) few (λ z. omega (arith, z))) (
        walk_up (suc d) p (hp.0)
        ∙ ap (λ (t : ℕ). (p + t) % 2 ^ 32) (sym e)
        ∙ up_back p q (hp.0) (hq.0))

-- The sum of distances in a round.
module _ (tmp d e : ℕ) (h : tmp < d) (flat : e ≤ d) (short : d < 2 ^ 30) where
  sum_exact : add32 tmp e ≡ tmp + e
  unfolding add32
  sum_exact = omega (arith, h, flat, short)

  sum_below : slt (add32 tmp e) d ≡ true → tmp + e < d
  unfolding add32 slt raised
  sum_below k = ground (arith, h, flat, short, k)

  sum_reached : slt (add32 tmp e) d ≡ false → d ≤ tmp + e
  unfolding add32 slt raised
  sum_reached k = ground (arith, h, flat, short, k)

  sum_rest : slt (add32 tmp e) d ≡ false → sub32 (add32 tmp e) d + d ≡ tmp + e
  unfolding add32 sub32
  sum_rest k = omega (arith, h, flat, short, sum_reached k)

module _ (put : (a b : ℕ) → Canvas → Canvas) (Keeps : Canvas → Type 0) where
  line_loop_keeps :
      (left tmp d e s t a b : ℕ) (c : Canvas)
      → ((a b : ℕ) (c : Canvas) → Keeps c → Keeps (put a b c))
      → Keeps c
      → Keeps (line_loop put left tmp d e s t a b c)
  unfolding line_loop
  line_loop_keeps zero tmp d e s t a b c step h = h
  line_loop_keeps (suc left) tmp d e s t a b c step h =
      line_loop_keeps left _ d e s t _ _ _ step (step _ _ c h)

module _ (put : (a b : ℕ) → Canvas → Canvas) (At : ℕ → ℕ → Canvas → Type 0)
    (arrive : (a b : ℕ) (c : Canvas) → At a b (put a b c)) (d e s t : ℕ) (short : d < 2 ^ 30)
    (flat : e ≤ d) where
  -- With `left` rounds to go, the loop takes `left` steps on the one axis and `turns` on the other.
  line_loop_end :
      (left turns tmp a b : ℕ) (c : Canvas)
      → tmp < d
      → tmp + left * e ≡ turns * d
      → At a b c
      → At (walk left s a) (walk turns t b) (line_loop put left tmp d e s t a b c)
  unfolding line_loop walk
  line_loop_end zero zero tmp a b c h eq here = here
  line_loop_end zero (suc turns) tmp a b c h eq here = absurd (omega (arith, h, eq))
  line_loop_end (suc left) zero tmp a b c h eq here = elim (Bool-cases (slt (add32 tmp e) d)) [
    | inl k ↦
        let exact = sum_exact tmp d e h flat short in
        let few = sum_below tmp d e h flat short k in
        rw k (
          line_loop_end left zero (add32 tmp e) (add32 a s) b _ (omega (arith, exact, few))
            (omega (arith, exact, eq)) (arrive _ _ c))
    | inr k ↦ absurd (omega (arith, h, eq, sum_reached tmp d e h flat short k))
  ]
  line_loop_end (suc left) (suc turns) tmp a b c h eq here =
      let exact = sum_exact tmp d e h flat short in
      elim (Bool-cases (slt (add32 tmp e) d)) [
        | inl k ↦
            let few = sum_below tmp d e h flat short k in
            rw k (
              line_loop_end left (suc turns) (add32 tmp e) (add32 a s) b _
                (omega (arith, exact, few)) (omega (arith, exact, eq)) (arrive _ _ c))
        | inr k ↦
            let rest = sum_rest tmp d e h flat short k in
            rw k (
              line_loop_end left turns (sub32 (add32 tmp e) d) (add32 a s) (add32 b t) _
                (omega (arith, rest, h, flat)) (omega (arith, rest, eq)) (arrive _ _ c))
      ]

-- The pixel has the colour.
unfoldable pub IsColour : (val x y : ℕ) → Canvas → Type 0
IsColour val x y c = c.buff (get_pixel c.width x y) ≡ val

pub set_pixel-IsColour :
    (val x y a b : ℕ) (c : Canvas) → IsColour val x y c → IsColour val x y (set_pixel val a b c)
unfolding IsColour set_pixel
set_pixel-IsColour val x y a b c h = ground (arith, h)

pub drawn_at : (val x y : ℕ) (c : Canvas) → IsColour val x y (set_pixel val x y c)
unfolding IsColour set_pixel
drawn_at val x y c = rw (eq→== (get_pixel c.width x y) (get_pixel c.width x y) refl) refl

not_longer : (a b : ℕ) → a < 2 ^ 30 → b < 2 ^ 30 → slt a b ≡ false → b ≤ a
unfolding slt raised
not_longer a b ha hb h = ground (arith, ha, hb, h)

shorter : (a b : ℕ) → a < 2 ^ 30 → b < 2 ^ 30 → slt a b ≡ true → a < b
unfolding slt raised
shorter a b ha hb h = ground (arith, ha, hb, h)

rounds_lem : (d : ℕ) → d < 2 ^ 30 → rounds d ≡ d
unfolding rounds slt raised
rounds_lem d h = ground (arith, h)

module _ (put : (a b : ℕ) → Canvas → Canvas) (At : ℕ → ℕ → Canvas → Type 0)
    (arrive : (a b : ℕ) (c : Canvas) → At a b (put a b c)) where
  whole_loop :
      (d e s t a b : ℕ) (c : Canvas)
      → d < 2 ^ 30
      → e ≤ d
      → At a b c
      → At (walk d s a) (walk e t b) (line_loop put d 0 d e s t a b c)
  unfolding line_loop walk
  whole_loop zero zero s t a b c short flat here = here
  whole_loop zero (suc e) s t a b c short flat here = absurd (omega (arith, flat))
  whole_loop (suc d) e s t a b c short flat here =
      line_loop_end put At arrive (suc d) e s t short flat (suc d) e 0 a b c (omega arith)
        (omega arith) here

  -- From one end to the other, where the first axis is the longer.
  reaches :
      (p q u v : ℕ) (c : Canvas)
      → IsCoord p
      → IsCoord q
      → IsCoord u
      → IsCoord v
      → abs (sub32 v u) ≤ abs (sub32 q p)
      → At p u c
      → At q v (
          line_loop put
            (rounds (abs (sub32 q p)))
            0
            (abs (sub32 q p))
            (abs (sub32 v u))
            (sign (sub32 q p))
            (sign (sub32 v u))
            p
            u
            c)
  reaches p q u v c hp hq hu hv flat here =
      let (to_q, short) = walk_distance p q hp hq in
      let (to_v, small) = walk_distance u v hu hv in
      let d : ℕ = abs (sub32 q p) in
      let e : ℕ = abs (sub32 v u) in
      let s : ℕ = sign (sub32 q p) in
      let t : ℕ = sign (sub32 v u) in
      let drawn = whole_loop d e s t p u c short flat here in
      subst (λ (n : ℕ). At q v (line_loop put n 0 d e s t p u c)) (sym (rounds_lem d short))
        (subst (λ (b : ℕ). At q b (line_loop put d 0 d e s t p u c)) to_v
          (subst (λ (a : ℕ). At a (walk e t u) (line_loop put d 0 d e s t p u c)) to_q drawn))

-- For ends with coordinates from -2^29 to below 2^29: pnt_line gives the pixels at both ends of the line the
-- colour.
pub pnt_line_lem :
    (colour : ℕ) (c : Canvas) (x0 y0 x1 y1 : ℕ)
    → IsCoord x0
    → IsCoord y0
    → IsCoord x1
    → IsCoord y1
    → IsColour colour x0 y0 (pnt_line colour c x0 y0 x1 y1)
      × IsColour colour x1 y1 (pnt_line colour c x0 y0 x1 y1)
unfolding pnt_line
pnt_line_lem colour c x0 y0 x1 y1 hx0 hy0 hx1 hy1 =
    let begun = set_pixel colour x0 y0 c in
    let started : IsColour colour x0 y0 begun = drawn_at colour x0 y0 c in
    let short_x = (walk_distance x0 x1 hx0 hx1).1 in
    let short_y = (walk_distance y0 y1 hy0 hy1).1 in
    elim (Bool-cases (slt (abs (sub32 x1 x0)) (abs (sub32 y1 y0)))) [
      | inl h ↦
          let less = shorter (abs (sub32 x1 x0)) (abs (sub32 y1 y0)) short_x short_y h in
          rw h (
            line_loop_keeps (λ y x. set_pixel colour x y) (IsColour colour x0 y0) _ _ _ _ _ _ _ _
                begun (λ a b c' k. set_pixel-IsColour colour x0 y0 b a c' k) started,
            reaches (λ y x. set_pixel colour x y) (λ y x. IsColour colour x y)
                (λ a b c'. drawn_at colour b a c') y0 y1 x0 x1 begun hy0 hy1 hx0 hx1
                (omega (arith, less)) started,
          )
      | inr h ↦
          let less = not_longer (abs (sub32 x1 x0)) (abs (sub32 y1 y0)) short_x short_y h in
          rw h (
            line_loop_keeps (λ x y. set_pixel colour x y) (IsColour colour x0 y0) _ _ _ _ _ _ _ _
                begun (λ a b c' k. set_pixel-IsColour colour x0 y0 a b c' k) started,
            reaches (λ x y. set_pixel colour x y) (λ x y. IsColour colour x y)
                (λ a b c'. drawn_at colour a b c') x0 x1 y0 y1 begun hx0 hx1 hy0 hy1 less started,
          )
    ]
