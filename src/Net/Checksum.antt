-- ===== src/Net/Checksum.antt =====
-- The checksum of a packet that carries its checksum.
use lesch_os.Base.{
  ℕ, zero, suc, ◌+◌, ◌-◌, ◌*◌, ◌/◌, ◌%◌, ◌^◌, ◌≤◌, ◌<◌, ◌≡◌, refl, ap, ◌∙◌, sym, arith, some, ◌==◌,
  if◌then◌else◌, bit_and, bit_or, add32_exact, ne→==, eq→==, ltb, ltb→lt, not-ltb→le, Bool-cases,
  inl, inr,
}
use mathlib.Core.Path.{fun_ext}
use lesch_os.Base.Bits.{and_low, or_sum}
use lesch_os.Descriptor.Laws.{htonw_digits}
use lesch_os.Net.{sum_words, fold, ip_calc_checksum}

-- The sum of the words, without a wrap.
unfoldable pub total : (len : ℕ) → (pack : ℕ → ℕ) → ℕ
total zero pack = 0
total (suc zero) pack = pack 0 * 256
total (suc (suc len)) pack = pack 0 * 256 + pack 1 + total len (λ i. pack (i + 2))

total_bound : (len : ℕ) (pack : ℕ → ℕ) → ((i : ℕ) → pack i < 256) → total len pack ≤ len * 65280
unfolding total
total_bound zero pack h = omega arith
total_bound (suc zero) pack h = omega (arith, h 0)
total_bound (suc (suc len)) pack h =
    omega (arith, h 0, h 1, total_bound len (λ i. pack (i + 2)) (λ i. h (i + 2)))

sum_words_lem :
    (len sum : ℕ) (pack : ℕ → ℕ)
    → ((i : ℕ) → pack i < 256)
    → sum + total len pack < 2 ^ 32
    → sum_words len sum pack ≡ sum + total len pack
unfolding sum_words total
sum_words_lem zero sum pack h small = omega arith
sum_words_lem (suc zero) sum pack h small = add32_exact sum (pack 0 * 256) small
sum_words_lem (suc (suc len)) sum pack h small =
    let word : bit_or (pack 0 * 256) (pack 1) ≡ pack 0 * 256 + pack 1 =
      or_sum 8 (pack 0) (pack 1) (h 1) in
    let exact = add32_exact sum (pack 0 * 256 + pack 1) (omega arith) in
    rw (word, exact)
      (sum_words_lem len (sum + (pack 0 * 256 + pack 1)) (λ i. pack (i + 2)) (λ i. h (i + 2))
          (omega arith)
        ∙ omega arith)

-- What the folding of a sum leaves: 16 bits, the same remainder by 65535, and 0 only from 0.
pub record Folded (s f : ℕ) : Type 0 where
  pub bits : f < 2 ^ 16
  pub parts : ℕ
  pub same : s ≡ 65535 * parts + f
  pub not_zero : 1 ≤ s → 1 ≤ f

fold_step :
    (fuel s : ℕ)
    → s < 2 ^ 32
    → 1 ≤ s / 2 ^ 16
    → fold (suc fuel) s ≡ fold fuel (s % 2 ^ 16 + s / 2 ^ 16)
unfolding fold
fold_step fuel s h big =
    let low : bit_and s 65535 ≡ s % 2 ^ 16 = and_low 16 s in
    let exact = add32_exact (s % 2 ^ 16) (s / 2 ^ 16) (omega arith) in
    rw (low, exact) (rw (ne→== (s / 2 ^ 16) 0 (omega arith)) refl)

fold_last : (fuel s : ℕ) → s < 2 ^ 16 → fold (suc fuel) s ≡ some s
unfolding fold
fold_last fuel s h = rw (eq→== (s / 2 ^ 16) 0 (omega arith)) refl

Folded-step : (s f : ℕ) → Folded (s % 2 ^ 16 + s / 2 ^ 16) f → Folded s f
Folded-step s f h = record {
  bits = h.bits;
  parts = s / 2 ^ 16 + h.parts;
  same = omega (arith, h.same);
  not_zero = λ pos. h.not_zero (omega arith);
}

Folded-self : (s : ℕ) → s < 2 ^ 16 → Folded s s
Folded-self s h = record { bits = h; parts = 0; same = omega arith; not_zero = λ pos. pos }

-- Three rounds are enough for a sum of 32 bits.
pub fold_lem : (s : ℕ) → s < 2 ^ 32 → (f : ℕ) × (fold 3 s ≡ some f) × Folded s f
fold_lem s h =
    let s₁ : ℕ = s % 2 ^ 16 + s / 2 ^ 16 in
    let s₂ : ℕ = s₁ % 2 ^ 16 + s₁ / 2 ^ 16 in
    elim (Bool-cases (ltb s (2 ^ 16))) [
      | inl t ↦ (s, fold_last 2 s (ltb→lt _ _ t), Folded-self s (ltb→lt _ _ t))
      | inr f ↦
          let first = fold_step 2 s h (omega (arith, not-ltb→le _ _ f)) in
          elim (Bool-cases (ltb s₁ (2 ^ 16))) [
            | inl t ↦ (
              s₁,
              first ∙ fold_last 1 s₁ (ltb→lt _ _ t),
              Folded-step s s₁ (Folded-self s₁ (ltb→lt _ _ t)),
            )
            | inr f₁ ↦
                let second = fold_step 1 s₁ (omega arith) (omega (arith, not-ltb→le _ _ f₁)) in
                let small : s₂ < 2 ^ 16 = omega (arith, not-ltb→le _ _ f₁) in
                (
                  s₂,
                  first ∙ (second ∙ fold_last 0 s₂ small),
                  Folded-step s s₂ (Folded-step s₁ s₂ (Folded-self s₂ small)),
                )
          ]
    ]

-- The checksum stored in the two bytes from `2 * k` on, as the processor stores a word.
unfoldable pub with_checksum : (k c : ℕ) → (pack : ℕ → ℕ) → ℕ → ℕ
with_checksum k c pack i =
    if i == 2 * k then c % 256 else if i == 2 * k + 1 then c / 256 else pack i

with_checksum_next :
    (k c : ℕ) (pack : ℕ → ℕ)
    → (λ i. with_checksum (suc k) c pack (i + 2)) ≡ with_checksum k c (λ i. pack (i + 2))
unfolding with_checksum
with_checksum_next k c pack = fun_ext λ i. ground arith

with_checksum_first :
    (c : ℕ) (pack : ℕ → ℕ)
    → ◌≡◌ {A = ℕ → ℕ} (λ i. with_checksum 0 c pack (i + 2)) (λ i. pack (i + 2))
unfolding with_checksum
with_checksum_first c pack = fun_ext λ i. ground arith

at_first :
    (c : ℕ) (pack : ℕ → ℕ)
    → (with_checksum 0 c pack 0 ≡ c % 256) × (with_checksum 0 c pack 1 ≡ c / 256)
unfolding with_checksum
at_first c pack = (refl, refl)

at_later : (k c i : ℕ) (pack : ℕ → ℕ) → i < 2 → with_checksum (suc k) c pack i ≡ pack i
unfolding with_checksum
at_later k c i pack h = ground arith

total-with_checksum :
    (k len c : ℕ) (pack : ℕ → ℕ)
    → 2 * k + 2 ≤ len
    → pack (2 * k) ≡ 0
    → pack (2 * k + 1) ≡ 0
    → total len (with_checksum k c pack) ≡ total len pack + (c % 256 * 256 + c / 256)
unfolding total
total-with_checksum zero zero c pack h z z' = absurd (omega arith)
total-with_checksum zero (suc zero) c pack h z z' = absurd (omega arith)
total-with_checksum zero (suc (suc len)) c pack h z z' =
    let (low, high) = at_first c pack in
    omega (arith, low, high, z, z', ap (total len) (with_checksum_first c pack))
total-with_checksum (suc k) zero c pack h z z' = absurd (omega arith)
total-with_checksum (suc k) (suc zero) c pack h z z' = absurd (omega arith)
total-with_checksum (suc k) (suc (suc len)) c pack h z z' =
    let shifted : 2 * suc k ≡ 2 * k + 2 = omega arith in
    let shifted' : 2 * suc k + 1 ≡ 2 * k + 1 + 2 = omega arith in
    let rest =
      total-with_checksum k len c (λ i. pack (i + 2)) (omega arith) (ap pack (sym shifted) ∙ z)
        (ap pack (sym shifted') ∙ z') in
    omega (
      arith,
      at_later k c 0 pack (omega arith),
      at_later k c 1 pack (omega arith),
      rest,
      ap (total len) (with_checksum_next k c pack),
    )

checksum_step :
    (sum : ℕ) (pack : ℕ → ℕ) (len f : ℕ)
    → fold 3 (sum_words len sum pack) ≡ some f
    → f < 2 ^ 16
    → ip_calc_checksum 3 sum pack len ≡ some (65535 - (f % 256 * 256 + f / 256))
unfolding ip_calc_checksum
checksum_step sum pack len f e h =
    let low : f % 2 ^ 16 ≡ f = omega arith in rw (e, ip_calc_checksum, low, htonw_digits f h) refl

checksum_zero :
    (sum : ℕ) (pack : ℕ → ℕ) (len f : ℕ)
    → fold 3 (sum_words len sum pack) ≡ some f
    → f ≡ 65535
    → ip_calc_checksum 3 sum pack len ≡ some 0
checksum_zero sum pack len f e ones =
    checksum_step sum pack len 65535 (e ∙ ap some ones) (omega arith)

with_bytes :
    (k c : ℕ) (pack : ℕ → ℕ)
    → c < 2 ^ 16
    → ((i : ℕ) → pack i < 256)
    → (i : ℕ) → with_checksum k c pack i < 256
unfolding with_checksum
with_bytes k c pack hc h i = ground (arith, h i)

-- For a packet of at most 65535 bytes below 256, with zeros where the checksum belongs, at an even
-- place within it, and a first sum below 2^17: `ip_calc_checksum` ends, in three rounds of its last
-- loop, and of the packet that carries the result there it is 0.
pub ip_calc_checksum_lem :
    (k sum len : ℕ) (pack : ℕ → ℕ)
    → ((i : ℕ) → pack i < 256)
    → pack (2 * k) ≡ 0
    → pack (2 * k + 1) ≡ 0
    → 2 * k + 2 ≤ len
    → len < 2 ^ 16
    → sum < 2 ^ 17
    → (c : ℕ) × (ip_calc_checksum 3 sum pack len ≡ some c)
      × (ip_calc_checksum 3 sum (with_checksum k c pack) len ≡ some 0)
ip_calc_checksum_lem k sum len pack bytes z z' inside short small =
    let bound = total_bound len pack bytes in
    let s : ℕ = sum_words len sum pack in
    let s_eq = sum_words_lem len sum pack bytes (omega arith) in
    let (f, e, folded) = fold_lem s (omega arith) in
    let c : ℕ = 65535 - (f % 256 * 256 + f / 256) in
    let bits = folded.bits in
    let word : c % 256 * 256 + c / 256 ≡ 65535 - f = omega arith in
    let carried = with_checksum k c pack in
    let more = total-with_checksum k len c pack inside z z' in
    let s' : ℕ = sum_words len sum carried in
    let s'_eq =
      sum_words_lem len sum carried (with_bytes k c pack (omega arith) bytes) (omega arith) in
    let (f', e', folded') = fold_lem s' (omega arith) in
    let all_ones : f' ≡ 65535 =
      omega (arith, folded.same, folded'.same, folded'.bits, folded'.not_zero (omega arith)) in
    (c, checksum_step sum pack len f e bits, checksum_zero sum carried len f' e' all_ones)
