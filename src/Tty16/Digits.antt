-- ===== src/Tty16/Digits.antt =====
-- The digits that tty16_hex and tty16_dec print.
use lesch_os.Base.{
  ℕ, zero, suc, ◌+◌, ◌-◌, ◌*◌, ◌/◌, ◌%◌, ◌^◌, ◌<◌, ◌≡◌, Bool, true, false, ◌&&◌, some, arith,
  if◌then◌else◌, leb, ◌==◌, ◌>>=◌, ap, sym, ◌∙◌, List, [], ◌∷◌, ◌++◌, Bool-cases, inl, inr,
}
use native.Mathlib.Nat.{pow-suc, div-div-eq-div-mul}
use lesch_os.Base.Bits.{and_low}
use lesch_os.Strings.{write_digits, itoa}
use lesch_os.Strings.Number.{digits_text-write_digits}
use lesch_os.Tty16.{hex_digit, hex_loop, dec_loop, dec_chars}

-- The number that hexadecimal digits spell, read after `acc`.
abbrev pub hex_value : ℕ → ℕ
hex_value c = if leb b'A' c then c + 10 - b'A' else c - b'0'

abbrev pub read_hex : (acc : ℕ) → List ℕ → ℕ
read_hex acc [] = acc
read_hex acc (c ∷ s) = read_hex (acc * 16 + hex_value c) s

dec_loop_lem :
    (fuel ac : ℕ) (cc : List ℕ)
    → 0 < ac
    → write_digits fuel ac (cc ++ 0 ∷ []) ≡ (dec_loop (suc fuel) ac cc >>= λ s. some (s ++ 0 ∷ []))
unfolding write_digits dec_loop
dec_loop_lem zero ac cc h = ground arith
dec_loop_lem (suc fuel) ac cc h =
    ground (arith, dec_loop_lem fuel (ac / 10) ((b'0' + ac % 10) ∷ cc))

-- Of an int that is not negative `tty16_dec` prints what `itoa` writes.
pub itoa-dec_chars : (n : ℕ) → n < 2 ^ 31 → itoa n ≡ (dec_chars n >>= λ s. some (s ++ 0 ∷ []))
unfolding itoa dec_chars write_digits
itoa-dec_chars n h =
    ground (arith, digits_text-write_digits n (omega (arith, h)), dec_loop_lem 10 n [])

hex_value-hex_digit : (d : ℕ) → d < 16 → hex_value (hex_digit d) ≡ d
unfolding hex_digit
hex_value-hex_digit d h = ground arith

read_hex_step :
    (acc d : ℕ) (s : List ℕ) → d < 16 → read_hex acc (hex_digit d ∷ s) ≡ read_hex (acc * 16 + d) s
read_hex_step acc d s h = ap (λ v. read_hex (acc * 16 + v) s) (hex_value-hex_digit d h)

place_power : (k : ℕ) → 2 ^ (4 * suc k) ≡ 2 ^ (4 * k) * 16
place_power k =
    let x : ℕ = 4 * k in
    let e : 4 * suc k ≡ suc (suc (suc (suc x))) = omega arith in
    ap (λ (t : ℕ). 2 ^ t) e
    ∙ omega (
      arith,
      pow-suc 2 x,
      pow-suc 2 (suc x),
      pow-suc 2 (suc (suc x)),
      pow-suc 2 (suc (suc (suc x))),
    )

-- What stands above a place is a sixteenth of what stands above the next.
place_above : (k n : ℕ) → n / 2 ^ (4 * suc k) ≡ n / 2 ^ (4 * k) / 16
place_above k n =
    ap (λ (p : ℕ). n / p) (place_power k) ∙ sym (div-div-eq-div-mul n (2 ^ (4 * k)) 16)

&&-right : (a b : Bool) → (a && b) ≡ true → b ≡ true
&&-right true b e = e
&&-right false b e = cc

-- The digits printed from some place on go on with what stands above that place.
hex_loop_lem :
    (left n : ℕ) (noZer : Bool)
    → (noZer ≡ true → n / 2 ^ (4 * suc left) ≡ 0)
    → read_hex (n / 2 ^ (4 * suc left)) (hex_loop left n noZer) ≡ n
unfolding hex_loop
hex_loop_lem zero n noZer h =
    rw (and_low 4 n) (read_hex_step (n / 16) (n % 16) [] (omega arith) ∙ omega arith)
hex_loop_lem (suc left) n noZer h =
    let m : ℕ = n / 2 ^ (4 * suc left) in
    let above : n / 2 ^ (4 * suc (suc left)) ≡ m / 16 = place_above (suc left) n in
    rw (and_low 4 m) (elim (Bool-cases (m % 16 == 0 && noZer)) [
      | inl skip ↦ rw skip (
          let none_above = h (&&-right (m % 16 == 0) noZer skip) in
          let here : m ≡ 0 = ground arith in
          rw (none_above) (
            ap (λ a. read_hex a (hex_loop left n noZer)) (sym here)
            ∙ hex_loop_lem left n noZer (λ e. here)))
      | inr print ↦ rw print (
          read_hex_step (n / 2 ^ (4 * suc (suc left))) (m % 16) (hex_loop left n false)
            (omega arith)
          ∙ (ap (λ a. read_hex a (hex_loop left n false)) (omega (arith, above))
              ∙ hex_loop_lem left n false (λ e. absurd (cc))))
    ])

-- `tty16_hex` of a word prints digits that spell it.
pub read_hex-hex_loop : (n : ℕ) → n < 2 ^ 32 → read_hex 0 (hex_loop 7 n true) ≡ n
read_hex-hex_loop n h =
    let low : n / 2 ^ 32 ≡ 0 = omega arith in
    ap (λ a. read_hex a (hex_loop 7 n true)) (sym low) ∙ hex_loop_lem 7 n true (λ e. low)
