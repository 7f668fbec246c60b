-- ===== src/Strings/Number.antt =====
-- itoa and atoi.
use lesch_os.Base.{
  ℕ, zero, suc, ◌+◌, ◌-◌, ◌*◌, ◌/◌, ◌%◌, ◌^◌, ◌<◌, ◌≤◌, ◌≡◌, refl, true, false, some, List, [], ◌∷◌,
  arith, ◌==◌, length, Bool-cases, inl, inr, ap, ◌∙◌, sym, eq→==,
}
use native.Mathlib.Nat.{pow-suc}
use lesch_os.Strings.{write_digits, count_digits, digits_text, itoa, atoi_loop, atoi}

abbrev IsDigit : ℕ → Type 0
IsDigit c = (b'0' ≤ c) × (c ≤ b'9')

abbrev StartsByDigit : List ℕ → Type 0
StartsByDigit [] = ⊥
StartsByDigit (c ∷ s) = IsDigit c

-- What the two loops of `itoa` do with `i`: the digits are written in front of the text, as many as
-- counted, and `atoi` reads them as `i`.
record Written (fuel i : ℕ) (text : List ℕ) : Type 0 where
  out : List ℕ
  done : write_digits fuel i text ≡ some out
  count : ℕ
  counted : count_digits fuel i ≡ some count
  long : length out ≡ count + length text
  first : StartsByDigit out
  read : i < 2 ^ 31 → atoi_loop 0 out ≡ atoi_loop i text

read_digit :
    (res d : ℕ) (text : List ℕ)
    → d < 10
    → res * 10 + d < 2 ^ 32
    → atoi_loop res ((b'0' + d) ∷ text) ≡ atoi_loop (res * 10 + d) text
unfolding atoi_loop
read_digit res d text hd small = ground arith

Written-last : (fuel i : ℕ) (text : List ℕ) → (i / 10 == 0) ≡ true → Written (suc fuel) i text
unfolding write_digits count_digits
Written-last fuel i text last = record {
  out = (b'0' + i % 10) ∷ text;
  done = rw last;
  count = 1;
  counted = rw last;
  long = omega arith;
  first = omega arith;
  read = λ small. read_digit 0 (i % 10) text (omega arith) (omega arith) ∙ ground arith;
}

Written-more :
    (fuel i : ℕ) (text : List ℕ)
    → (i / 10 == 0) ≡ false
    → Written fuel (i / 10) ((b'0' + i % 10) ∷ text)
    → Written (suc fuel) i text
unfolding write_digits count_digits
Written-more fuel i text more w = record {
  out = w.out;
  done = rw more w.done;
  count = suc w.count;
  counted = rw (more, w.counted);
  long = omega (arith, w.long);
  first = w.first;
  read = λ small.
      w.read (omega arith)
      ∙ read_digit (i / 10) (i % 10) text (omega arith) (omega arith)
      ∙ ap (λ n. atoi_loop n text) (omega arith);
}

written : (fuel i : ℕ) (text : List ℕ) → i < 10 ^ suc fuel → Written (suc fuel) i text
written zero i text h = Written-last zero i text (ground arith)
written (suc fuel) i text h = elim (Bool-cases (i / 10 == 0)) [
  | inl last ↦ Written-last (suc fuel) i text last
  | inr more ↦
      Written-more (suc fuel) i text more
        (written fuel (i / 10) ((b'0' + i % 10) ∷ text) (omega (arith, pow-suc 10 (suc fuel))))
]

-- The digits are as many as counted, so the text begins at its first byte.
digits_text_lem : (i : ℕ) (w : Written 10 i (0 ∷ [])) → digits_text i ≡ some w.out
unfolding digits_text
digits_text_lem i w =
    rw (w.counted, w.done, eq→== (length w.out) (w.count + 1) (omega (arith, w.long))) refl

pub digits_text-write_digits : (i : ℕ) → i < 10 ^ 10 → digits_text i ≡ write_digits 10 i (0 ∷ [])
digits_text-write_digits i h = let w = written 9 i (0 ∷ []) h in digits_text_lem i w ∙ sym w.done

-- `atoi` reads what `itoa` writes of an int that is not negative.
atoi_digits :
    (out : List ℕ) (n : ℕ) → StartsByDigit out → atoi_loop 0 out ≡ some n → atoi out ≡ some n
unfolding atoi
atoi_digits [] n h e = absurd h
atoi_digits (c ∷ s) n h e = ground arith

read_end : (n : ℕ) → atoi_loop n (0 ∷ []) ≡ some n
unfolding atoi_loop
read_end n = refl

-- `itoa` of an int that is not negative writes its text, and `atoi` reads it as that int.
pub atoi-itoa : (i : ℕ) → i < 2 ^ 31 → (text : List ℕ) × (itoa i ≡ some text) × (atoi text ≡ some i)
unfolding itoa
atoi-itoa i h =
    let w = written 9 i (0 ∷ []) (omega arith) in
    (
      w.out,
      ground (arith, digits_text_lem i w),
      atoi_digits w.out i w.first (w.read h ∙ read_end i),
    )

-- `atoi` passes over the sign that `itoa` writes: the text of -n is read as n.
pub atoi-itoa_neg :
    (n : ℕ)
    → 0 < n
    → n < 2 ^ 31
    → (text : List ℕ) × (itoa (2 ^ 32 - n) ≡ some (b'-' ∷ text)) × (atoi (b'-' ∷ text) ≡ some n)
unfolding itoa atoi
atoi-itoa_neg n pos h =
    let w = written 9 n (0 ∷ []) (omega arith) in
    let back : 2 ^ 32 - (2 ^ 32 - n) ≡ n = omega arith in
    (w.out, ground (arith, digits_text_lem n w, back), w.read h ∙ read_end n)

-- The text of an int has as many digits as the first loop of `itoa` counts, so the zero that it
-- writes first stands right behind the digits.
pub itoa-count_digits :
    (i : ℕ)
    → i < 2 ^ 31
    → (text : List ℕ) × (count : ℕ) × (itoa i ≡ some text)
      × (count_digits 10 i ≡ some count)
      × (length text ≡ count + 1)
unfolding itoa
itoa-count_digits i h =
    let w = written 9 i (0 ∷ []) (omega arith) in
    (w.out, w.count, ground (arith, digits_text_lem i w), w.counted, w.long)
