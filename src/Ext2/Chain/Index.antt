-- ===== src/Ext2/Chain/Index.antt =====
-- The arithmetic that get_disk_block_number and set_disk_block_number share: from the number of a
-- block in its file to the words on its path.
use lesch_os.Base.{
  ℕ, suc, ◌+◌, ◌*◌, ◌/◌, ◌%◌, ◌^◌, ◌≤◌, ◌<◌, ◌≡◌, ◌∙◌, ap, refl, arith, true, false, sub32,
}
use lesch_os.Ext2.{mul32, is_neg}
use native.Mathlib.Nat.{
  add-mul, mul_assoc, suc-mul, mul-le-mul_right, mul-le-mul, mul-add-div_right, div-eq_of_lt,
}

div_of : (c d p : ℕ) → d < p → (c * p + d) / p ≡ c
div_of c d p h = mul-add-div_right {m = p} (omega arith) c d ∙ omega (arith, div-eq_of_lt h)

row : (c d n p : ℕ) → c < n → d < p → c * p + d < n * p
row c d n p hc hd = omega (arith, suc-mul c p, mul-le-mul_right {m = suc c} {n = n} p hc)

pub minus_neg : (x y : ℕ) → x < y → y ≤ 2 ^ 31 → is_neg (sub32 x y) ≡ true
unfolding is_neg sub32
minus_neg x y h hy = ground arith

minus_pos : (x y : ℕ) → y ≤ x → x < 2 ^ 31 → is_neg (sub32 x y) ≡ false
unfolding is_neg sub32
minus_pos x y h hx = ground arith

minus : (x y z : ℕ) → x ≡ y + z → x < 2 ^ 31 → sub32 x y ≡ z
unfolding sub32
minus x y z h hx = omega arith

product : (x y : ℕ) → x * y < 2 ^ 32 → mul32 x y ≡ x * y
unfolding mul32
product x y h = omega arith

-- The products that the code forms do not wrap.
record Powers (p : ℕ) : Type 0 where
  square : mul32 p p ≡ p * p
  cube : mul32 (mul32 p p) p ≡ p * p * p
  square_bound : p * p ≤ 2 ^ 20
  cube_bound : p * p * p ≤ 2 ^ 30

powers : (p : ℕ) → p ≤ 1024 → Powers p
unfolding mul32
powers p h =
    let sq = mul-le-mul h h in
    let cu = mul-le-mul {n₁ = p * p} {n₂ = 2 ^ 20} (omega (arith, sq)) h in
    let e : p * p % 2 ^ 32 ≡ p * p = omega (arith, sq) in
    record {
      square = e;
      cube = ap (λ t. t * p % 2 ^ 32) e ∙ omega (arith, cu);
      square_bound = omega (arith, sq);
      cube_bound = omega (arith, cu);
    }

-- What the code computes at the place of each path.
pub record Single (p a : ℕ) : Type 0 where
  pub not_direct : is_neg (sub32 (12 + a) 12) ≡ false
  pub behind : sub32 (12 + a) 12 ≡ a
  pub is_single : is_neg (sub32 a p) ≡ true

pub record Double (p c d : ℕ) : Type 0 where
  pub not_direct : is_neg (sub32 (12 + (p + (c * p + d))) 12) ≡ false
  pub behind : sub32 (12 + (p + (c * p + d))) 12 ≡ p + (c * p + d)
  pub not_single : is_neg (sub32 (p + (c * p + d)) p) ≡ false
  pub behind_single : sub32 (p + (c * p + d)) p ≡ c * p + d
  pub is_double : is_neg (sub32 (c * p + d) (p * p)) ≡ true
  pub first : (c * p + d) / p ≡ c
  pub first_words : mul32 c p ≡ c * p
  pub second : sub32 (c * p + d) (c * p) ≡ d

pub record Triple (p e f g : ℕ) : Type 0 where
  pub not_direct : is_neg (sub32 (12 + (p + (p * p + ((e * p + f) * p + g)))) 12) ≡ false
  pub behind :
      sub32 (12 + (p + (p * p + ((e * p + f) * p + g)))) 12 ≡ p + (p * p + ((e * p + f) * p + g))
  pub not_single : is_neg (sub32 (p + (p * p + ((e * p + f) * p + g))) p) ≡ false
  pub behind_single : sub32 (p + (p * p + ((e * p + f) * p + g))) p ≡ p * p + ((e * p + f) * p + g)
  pub not_double : is_neg (sub32 (p * p + ((e * p + f) * p + g)) (p * p)) ≡ false
  pub behind_double : sub32 (p * p + ((e * p + f) * p + g)) (p * p) ≡ (e * p + f) * p + g
  pub cube : mul32 (p * p) p ≡ p * p * p
  pub is_triple : is_neg (sub32 ((e * p + f) * p + g) (p * p * p)) ≡ true
  pub first : ((e * p + f) * p + g) / (p * p) ≡ e
  pub first_row : mul32 e p ≡ e * p
  pub first_words : mul32 (e * p) p ≡ e * p * p
  pub behind_first : sub32 ((e * p + f) * p + g) (e * p * p) ≡ f * p + g
  pub second : (f * p + g) / p ≡ f
  pub second_words : mul32 f p ≡ f * p
  pub third : sub32 (f * p + g) (f * p) ≡ g

module _ (p : ℕ) (some_words : 1 ≤ p) (few : p ≤ 1024) where
  pw : Powers p
  pw = powers p few

  pub square_lem : mul32 p p ≡ p * p
  square_lem = pw.square

  pub single_lem : (a : ℕ) → a < p → Single p a
  single_lem a ha = record {
    not_direct = minus_pos (12 + a) 12 (omega arith) (omega arith);
    behind = minus (12 + a) 12 a refl (omega arith);
    is_single = minus_neg a p ha (omega arith);
  }

  pub double_lem : (c d : ℕ) → c < p → d < p → Double p c d
  double_lem c d hc hd =
      let below = row c d p p hc hd in
      let bound = pw.square_bound in
      let rest : ℕ = c * p + d in
      record {
        not_direct = minus_pos (12 + (p + rest)) 12 (omega arith) (omega arith);
        behind = minus (12 + (p + rest)) 12 (p + rest) refl (omega arith);
        not_single = minus_pos (p + rest) p (omega arith) (omega arith);
        behind_single = minus (p + rest) p rest refl (omega arith);
        is_double = minus_neg rest (p * p) below (omega arith);
        first = div_of c d p hd;
        first_words = product c p (omega arith);
        second = minus rest (c * p) d refl (omega arith);
      }

  pub triple_lem : (e f g : ℕ) → e < p → f < p → g < p → Triple p e f g
  triple_lem e f g he hf hg =
      let top = row e f p p he hf in
      let low = row f g p p hf hg in
      let below = row (e * p + f) g (p * p) p top hg in
      let bound = pw.square_bound in
      let bound' = pw.cube_bound in
      let rest : ℕ = (e * p + f) * p + g in
      let split : rest ≡ e * p * p + (f * p + g) = omega (arith, add-mul (e * p) f p) in
      let split' : rest ≡ e * (p * p) + (f * p + g) = omega (arith, split, mul_assoc e p p) in
      let all = p + (p * p + rest) in
      record {
        not_direct = minus_pos (12 + all) 12 (omega arith) (omega arith);
        behind = minus (12 + all) 12 all refl (omega arith);
        not_single = minus_pos all p (omega arith) (omega arith);
        behind_single = minus all p (p * p + rest) refl (omega arith);
        not_double = minus_pos (p * p + rest) (p * p) (omega arith) (omega arith);
        behind_double = minus (p * p + rest) (p * p) rest refl (omega arith);
        cube = product (p * p) p (omega arith);
        is_triple = minus_neg rest (p * p * p) below (omega arith);
        first = ap (λ t. t / (p * p)) split' ∙ div_of e (f * p + g) (p * p) low;
        first_row = product e p (omega arith);
        first_words = product (e * p) p (omega arith);
        behind_first = minus rest (e * p * p) (f * p + g) split (omega arith);
        second = div_of f g p hg;
        second_words = product f p (omega arith);
        third = minus (f * p + g) (f * p) g refl (omega arith);
      }
