-- ===== src/Strings/Search.antt =====
-- strncmp and strstr: a search for one string in another.
use lesch_os.Base.{
  ℕ, Option-cases, length-append, zero, suc, ◌<◌, ◌≡◌, ◌≢◌, refl, Bool, true, false, Option, none,
  some, List, [], ◌∷◌, ◌++◌, arith, if◌then◌else◌, ◌==◌, length, Bool-cases, inl, inr,
}
use lesch_os.Strings.{strncmp_is_zero, skip_to, strstr_loop, strstr}
use lesch_os.Strings.Compare.{NonZero, strlen-strcpy}

-- The string `xs` begins with `ys`.
abbrev pub begins : (xs ys : List ℕ) → Bool
begins xs [] = true
begins [] (y ∷ ys) = false
begins (x ∷ xs) (y ∷ ys) = let rest = begins xs ys in if x == y then rest else false

-- `strncmp(s, str, strlen(str))` is 0 exactly when the string at `s` begins with `str`.
strncmp-begins :
    (xs ys r t : List ℕ)
    → NonZero xs
    → NonZero ys
    → strncmp_is_zero (xs ++ 0 ∷ r) (ys ++ 0 ∷ t) (length ys) ≡ some (begins xs ys)
unfolding strncmp_is_zero
strncmp-begins xs [] r t hx hy = refl
strncmp-begins [] (y ∷ ys) r t hx hy = ground arith
strncmp-begins (x ∷ xs) (y ∷ ys) r t hx hy = ground (arith, strncmp-begins xs ys r t hx.1 hy.1)

-- The first place in `xs` where `c ∷ ys` stands, given by what follows `c` there.
abbrev pub first_match : (c : ℕ) (ys xs : List ℕ) → Option (List ℕ)
first_match c ys [] = none
first_match c ys (x ∷ xs) =
    let rest = first_match c ys xs in
    if x == c then (if begins xs ys then some xs else rest) else rest

-- One round: the next `c`.
next : (c : ℕ) → List ℕ → Option (List ℕ)
next c [] = none
next c (x ∷ xs) = let rest = next c xs in if x == c then some xs else rest

abbrev end_string : List ℕ → Option (List ℕ) → Option (List ℕ)
end_string r none = none
end_string r (some xs) = some (xs ++ 0 ∷ r)

skip_to-next :
    (c : ℕ) (xs r : List ℕ)
    → c ≢ 0
    → NonZero xs
    → skip_to c (xs ++ 0 ∷ r) ≡ some (end_string r (next c xs))
unfolding skip_to next
skip_to-next c [] r hc h = refl
skip_to-next c (x ∷ xs) r hc h = ground (arith, skip_to-next c xs r hc h.1)

-- What `next` finds is a shorter string without zeros, and the first match lies there or behind.
record Found (c : ℕ) (ys xs s : List ℕ) : Type 0 where
  short : length s < length xs
  clean : NonZero s
  onward : first_match c ys xs ≡ (if begins s ys then some s else first_match c ys s)

next-Found : (c : ℕ) (ys xs s : List ℕ) → NonZero xs → next c xs ≡ some s → Found c ys xs s
unfolding next
next-Found c ys [] s h e = cc
next-Found c ys (x ∷ xs) s h e = elim (Bool-cases (x == c)) [
  | inl hit ↦
      let here : xs ≡ s = ground arith in
      rw (← here) (record { short = omega arith; clean = h.1; onward = rw hit })
  | inr miss ↦
      let there = next-Found c ys xs s h.1 (rw miss at e) in
      record {
        short = omega (arith, there.short);
        clean = there.clean;
        onward = rw (miss, there.onward);
      }
]

next-none : (c : ℕ) (ys xs : List ℕ) → next c xs ≡ none → first_match c ys xs ≡ none
unfolding next
next-none c ys [] e = refl
next-none c ys (x ∷ xs) e = ground (arith, next-none c ys xs)

strstr_loop_lem :
    (fuel c : ℕ) (ys xs r t : List ℕ)
    → c ≢ 0
    → NonZero xs
    → NonZero ys
    → length xs < fuel
    → strstr_loop fuel c (ys ++ 0 ∷ t) (length ys) (xs ++ 0 ∷ r)
      ≡ some (end_string r (first_match c ys xs))
unfolding strstr_loop
strstr_loop_lem zero c ys xs r t hc hx hy enough = absurd (omega arith)
strstr_loop_lem (suc fuel) c ys xs r t hc hx hy enough = elim (Option-cases (next c xs)) [
  | inl e ↦ rw (skip_to-next c xs r hc hx, e, next-none c ys xs e)
  | inr (s, e) ↦
      let f = next-Found c ys xs s hx e in
      rw (skip_to-next c xs r hc hx, e, strncmp-begins s ys r t f.clean hy, f.onward)
        (ground (arith, strstr_loop_lem fuel c ys s r t hc f.clean hy (omega (arith, f.short))))
]

-- The first place in `xs` where the string `str` stands.
abbrev pub first_place : (xs str : List ℕ) → Option (List ℕ)
first_place xs [] = some xs
first_place xs (c ∷ ys) = elim (first_match c ys xs) [
  | none ↦ none
  | some behind ↦ some (c ∷ behind)
]

-- `strstr` returns, within one round for each byte, the first place in the one string where the
-- other stands, and NULL if it stands nowhere.
pub strstr_lem :
    (xs str r t : List ℕ)
    → NonZero xs
    → NonZero str
    → strstr (xs ++ 0 ∷ r) (str ++ 0 ∷ t) ≡ some (end_string r (first_place xs str))
unfolding strstr
strstr_lem xs [] r t hx hs = refl
strstr_lem xs (c ∷ ys) r t hx hs = ground (
  arith,
  (strlen-strcpy ys t hs.1).0,
  strstr_loop_lem (length (xs ++ 0 ∷ r)) c ys xs r t hs.0 hx hs.1
      (omega (arith, length-append xs (0 ∷ r))),
)
