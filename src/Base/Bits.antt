-- ===== src/Base/Bits.antt =====
-- The C operators & and | as arithmetic: a low mask is a remainder, a high mask drops the low
-- digits, and | of two disjoint fields is their sum.
use Prim.Native.Nat.{
  ℕ, zero, suc, ◌+◌, ◌-◌, ◌*◌, ◌/◌, ◌%◌, ◌^◌, ◌≤◌, ◌<◌, min, max, bit_and, bit_or, digits,
  bit_and-bitwise, bit_or-bitwise,
}
use mathlib.Core.Path.{◌≡◌, refl, ap, ◌∙◌, sym}
use native.Mathlib.Nat.{pow-suc, one-le-pow}
use native.Mathlib.Omega.{arith}

module _ (z : ℕ → ℕ) (f : ℕ → ℕ → ℕ) where
  no_digits : (fuel y : ℕ) → digits z f fuel zero y ≡ z y
  no_digits zero y = refl
  no_digits (suc fuel) y = refl

  -- Two counts of digits that both cover the first number give the same.
  same_digits : (c d x y : ℕ) → x ≤ c → x ≤ d → digits z f c x y ≡ digits z f d x y
  same_digits c d zero y hc hd = no_digits c y ∙ sym (no_digits d y)
  same_digits zero d (suc x) y hc hd = absurd (omega arith)
  same_digits (suc c) zero (suc x) y hc hd = absurd (omega arith)
  same_digits (suc c) (suc d) (suc x) y hc hd =
      let tail = same_digits c d (suc x / 2) (y / 2) (omega arith) (omega arith) in rw tail

pub zero_and : (y : ℕ) → bit_and 0 y ≡ 0
zero_and y = bit_and-bitwise 0 y

pub zero_or : (y : ℕ) → bit_or 0 y ≡ y
zero_or y = bit_or-bitwise 0 y

pub and_halves : (x y : ℕ) → bit_and x y ≡ bit_and (x / 2) (y / 2) * 2 + min (x % 2) (y % 2)
and_halves zero y = omega (arith, zero_and y, zero_and (y / 2))
and_halves (suc x) y =
    let h : ℕ = suc x / 2 in
    let same = same_digits (λ t. 0) min x h h (y / 2) (omega arith) (omega arith) in
    bit_and-bitwise (suc x) y ∙ omega (arith, same, bit_and-bitwise h (y / 2))

pub or_halves : (x y : ℕ) → bit_or x y ≡ bit_or (x / 2) (y / 2) * 2 + max (x % 2) (y % 2)
or_halves zero y = omega (arith, zero_or y, zero_or (y / 2))
or_halves (suc x) y =
    let h : ℕ = suc x / 2 in
    let same = same_digits (λ t. t) max x h h (y / 2) (omega arith) (omega arith) in
    bit_or-bitwise (suc x) y ∙ omega (arith, same, bit_or-bitwise h (y / 2))

and_zero_upto : (n a : ℕ) → a ≤ n → bit_and a 0 ≡ 0
and_zero_upto n zero h = refl
and_zero_upto zero (suc a) h = absurd (omega arith)
and_zero_upto (suc n) (suc a) h =
    omega (arith, and_halves (suc a) 0, and_zero_upto n (suc a / 2) (omega arith))

or_zero_upto : (n a : ℕ) → a ≤ n → bit_or a 0 ≡ a
or_zero_upto n zero h = refl
or_zero_upto zero (suc a) h = absurd (omega arith)
or_zero_upto (suc n) (suc a) h =
    omega (arith, or_halves (suc a) 0, or_zero_upto n (suc a / 2) (omega arith))

pub and-zero : (a : ℕ) → bit_and a 0 ≡ 0
and-zero a = and_zero_upto a a (omega arith)

pub or-zero : (a : ℕ) → bit_or a 0 ≡ a
or-zero a = or_zero_upto a a (omega arith)

double_pow : (q k : ℕ) → q * 2 ^ suc k ≡ 2 * (q * 2 ^ k)
double_pow q k = omega (arith, ap (λ (t : ℕ). q * t) (pow-suc 2 k))

-- Both operators work on the fields above and below bit k separately.
pub and_fields :
    (k q r p s : ℕ)
    → r < 2 ^ k
    → s < 2 ^ k
    → bit_and (q * 2 ^ k + r) (p * 2 ^ k + s) ≡ bit_and q p * 2 ^ k + bit_and r s
and_fields zero q r p s hr hs = ground arith
and_fields (suc k) q r p s hr hs = ground (
  arith,
  and_halves (q * 2 ^ suc k + r) (p * 2 ^ suc k + s),
  and_halves r s,
  double_pow q k,
  double_pow p k,
  double_pow (bit_and q p) k,
  pow-suc 2 k,
  and_fields k q (r / 2) p (s / 2) (omega arith) (omega arith),
)

pub or_fields :
    (k q r p s : ℕ)
    → r < 2 ^ k
    → s < 2 ^ k
    → bit_or (q * 2 ^ k + r) (p * 2 ^ k + s) ≡ bit_or q p * 2 ^ k + bit_or r s
or_fields zero q r p s hr hs = ground arith
or_fields (suc k) q r p s hr hs = ground (
  arith,
  or_halves (q * 2 ^ suc k + r) (p * 2 ^ suc k + s),
  or_halves r s,
  double_pow q k,
  double_pow p k,
  double_pow (bit_or q p) k,
  pow-suc 2 k,
  or_fields k q (r / 2) p (s / 2) (omega arith) (omega arith),
)

-- A number all of whose digits are ones is neutral for &.
pub and_ones : (k a : ℕ) → a < 2 ^ k → bit_and a (2 ^ k - 1) ≡ a
and_ones zero a h = ground (arith, and-zero a)
and_ones (suc k) a h = ground (
  arith,
  and_halves a (2 ^ suc k - 1),
  pow-suc 2 k,
  one-le-pow k 2,
  and_ones k (a / 2) (omega arith),
)

-- A mask of k low ones keeps the remainder.
pub and_low : (k a : ℕ) → bit_and a (2 ^ k - 1) ≡ a % 2 ^ k
and_low k a = ground (
  arith,
  one-le-pow k 2,
  and_fields k (a / 2 ^ k) (a % 2 ^ k) 0 (2 ^ k - 1),
  and-zero (a / 2 ^ k),
  and_ones k (a % 2 ^ k),
)

-- A mask that starts at bit k looks only at what stands from bit k on.
pub and_shifted : (k m a : ℕ) → bit_and a (m * 2 ^ k) ≡ bit_and (a / 2 ^ k) m * 2 ^ k
and_shifted k m a =
    ground (arith, one-le-pow k 2, and_fields k (a / 2 ^ k) (a % 2 ^ k) m 0, and-zero (a % 2 ^ k))

-- Fields that do not meet are joined by a sum.
pub or_sum : (k q r : ℕ) → r < 2 ^ k → bit_or (q * 2 ^ k) r ≡ q * 2 ^ k + r
or_sum k q r h = ground (arith, one-le-pow k 2, or_fields k q 0 0 r, or-zero q, zero_or r)

pub sum_or : (k q r : ℕ) → r < 2 ^ k → bit_or r (q * 2 ^ k) ≡ q * 2 ^ k + r
sum_or k q r h = ground (arith, one-le-pow k 2, or_fields k 0 r q 0, or-zero r, zero_or q)
