-- ===== src/Base/BitAt.antt =====
-- Single bits of words, and what & and | do to them.
use Prim.Native.Nat.{ℕ, zero, suc, ◌-◌, ◌/◌, ◌%◌, ◌^◌, ◌≤◌, ◌<◌, min, max, bit_and, bit_or}
use mathlib.Core.Path.{◌≡◌, refl, ap, ◌∙◌, sym}
use mathlib.Core.Bool.{Bool, true}
use native.Mathlib.Nat.{pow-le-pow_right, pow-suc, div-div-eq-div-mul}
use native.Mathlib.Omega.{arith}
use lesch_os.Base.Bits.{and_halves, or_halves, and_low, zero_and}
use lesch_os.Base.Tests.{◌==◌, if◌then◌else◌, all_below, all_below_sound, ==→eq}

-- `(w >> n) & 1`, as a number.
unfoldable pub bit_at : ℕ → ℕ → ℕ
bit_at w n = w / 2 ^ n % 2

pub bit_at-zero : (w : ℕ) → bit_at w 0 ≡ w % 2
unfolding bit_at
bit_at-zero w = omega arith

pub bit_at-suc : (w n : ℕ) → bit_at w (suc n) ≡ bit_at (w / 2) n
unfolding bit_at
bit_at-suc w n =
    ap (λ t. w / t % 2) (pow-suc 2 n ∙ omega arith)
    ∙ ap (λ t. t % 2) (sym (div-div-eq-div-mul w 2 (2 ^ n)))

pub bit_at-and : (n w m : ℕ) → bit_at (bit_and w m) n ≡ min (bit_at w n) (bit_at m n)
bit_at-and zero w m =
    omega (arith, bit_at-zero (bit_and w m), bit_at-zero w, bit_at-zero m, and_halves w m)
bit_at-and (suc n) w m =
    let half : bit_and w m / 2 ≡ bit_and (w / 2) (m / 2) = omega (arith, and_halves w m) in
    rw (bit_at-suc (bit_and w m) n, bit_at-suc w n, bit_at-suc m n, half)
      (bit_at-and n (w / 2) (m / 2))

pub bit_at-or : (n w m : ℕ) → bit_at (bit_or w m) n ≡ max (bit_at w n) (bit_at m n)
bit_at-or zero w m =
    omega (arith, bit_at-zero (bit_or w m), bit_at-zero w, bit_at-zero m, or_halves w m)
bit_at-or (suc n) w m =
    let half : bit_or w m / 2 ≡ bit_or (w / 2) (m / 2) = omega (arith, or_halves w m) in
    rw (bit_at-suc (bit_or w m) n, bit_at-suc w n, bit_at-suc m n, half)
      (bit_at-or n (w / 2) (m / 2))

pub bit_at_low : (w n : ℕ) → bit_and (w / 2 ^ n) 1 ≡ bit_at w n
unfolding bit_at
bit_at_low w n = and_low 1 (w / 2 ^ n)

pub bit_at_small : (w n : ℕ) → bit_at w n ≤ 1
unfolding bit_at
bit_at_small w n = omega arith

-- The masks of one bit, and of all others, by evaluation.
ones_at : ℕ → ℕ → Bool
unfolding bit_at
ones_at k n = bit_at (2 ^ k) n == (if n == k then 1 else 0)

zero_at : ℕ → ℕ → Bool
unfolding bit_at
zero_at k n = bit_at (2 ^ 32 - 1 - 2 ^ k) n == (if n == k then 0 else 1)

ones_table : all_below 32 (λ k. all_below 32 (ones_at k)) ≡ true
unfolding all_below ones_at bit_at
ones_table = refl

zero_table : all_below 32 (λ k. all_below 32 (zero_at k)) ≡ true
unfolding all_below zero_at bit_at
zero_table = refl

pub bit_at-mask : (k n : ℕ) → k < 32 → n < 32 → bit_at (2 ^ k) n ≡ (if n == k then 1 else 0)
unfolding ones_at
bit_at-mask k n hk hn = ==→eq _ _ (
    all_below_sound 32 (ones_at k) n
      (all_below_sound 32 (λ k. all_below 32 (ones_at k)) k ones_table hk) hn)

pub bit_at-others :
    (k n : ℕ) → k < 32 → n < 32 → bit_at (2 ^ 32 - 1 - 2 ^ k) n ≡ (if n == k then 0 else 1)
unfolding zero_at
bit_at-others k n hk hn = ==→eq _ _ (
    all_below_sound 32 (zero_at k) n
      (all_below_sound 32 (λ k. all_below 32 (zero_at k)) k zero_table hk) hn)

pub bit_at-full : (n : ℕ) → n < 32 → bit_at 4294967295 n ≡ 1
unfolding bit_at all_below
bit_at-full n h = ==→eq _ _ (all_below_sound 32 (λ n. 4294967295 / 2 ^ n % 2 == 1) n refl h)

pub set_bit :
    (w k n : ℕ) → k < 32 → n < 32 → bit_at (bit_or w (2 ^ k)) n ≡ (if n == k then 1 else bit_at w n)
set_bit w k n hk hn = ground (arith, bit_at-or n w (2 ^ k), bit_at-mask k n, bit_at_small w n)

pub clear_bit :
    (w k n : ℕ)
    → k < 32
    → n < 32
    → bit_at (bit_and w (2 ^ 32 - 1 - 2 ^ k)) n ≡ (if n == k then 0 else bit_at w n)
clear_bit w k n hk hn =
    ground (arith, bit_at-and n w (2 ^ 32 - 1 - 2 ^ k), bit_at-others k n, bit_at_small w n)

pub or_bound : (k x y : ℕ) → x < 2 ^ k → y < 2 ^ k → bit_or x y < 2 ^ k
or_bound zero x y hx hy = ground (arith, or_halves x y)
or_bound (suc k) x y hx hy = omega (
  arith,
  or_halves x y,
  pow-suc 2 k,
  or_bound k (x / 2) (y / 2) (omega (arith, pow-suc 2 k)) (omega (arith, pow-suc 2 k)),
)

pub and_bound : (k x y : ℕ) → x < 2 ^ k → bit_and x y < 2 ^ k
and_bound zero x y hx = ground (arith, zero_and y)
and_bound (suc k) x y hx =
    omega
      (arith, and_halves x y, pow-suc 2 k, and_bound k (x / 2) (y / 2) (omega (arith, pow-suc 2 k)))

pub pow_below : (n : ℕ) → n < 32 → 2 ^ n < 2 ^ 32
pow_below n h = omega (arith, pow-le-pow_right {n = 2} (omega arith) {i = n} {j = 31} (omega arith))
