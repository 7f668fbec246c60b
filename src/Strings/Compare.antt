-- ===== src/Strings/Compare.antt =====
-- strlen, strcmp, strcpy and strncmp on strings that end with a zero.
use lesch_os.Base.{
  ℕ, ◌≡◌, ◌≢◌, ◌↔◌, refl, some, List, [], ◌∷◌, ◌++◌, arith, if◌then◌else◌, ◌==◌, length, All,
  Bool-cases, inl, inr, ap,
}
use lesch_os.Strings.{strlen, Comparison, equal, shorter, longer, no_return, strcmp, strcpy}

-- The bytes of a string: no zero among them.
abbrev pub NonZero : List ℕ → Type 0
NonZero = All (λ c. c ≢ 0)

-- `strlen` counts the bytes before the zero, and `strcpy` writes them and the zero.
pub strlen-strcpy :
    (xs rest : List ℕ)
    → NonZero xs
    → (strlen (xs ++ 0 ∷ rest) ≡ some (length xs)) × (strcpy (xs ++ 0 ∷ rest) ≡ some (xs ++ 0 ∷ []))
unfolding strlen strcpy
strlen-strcpy [] rest h = (refl, refl)
strlen-strcpy (x ∷ xs) rest h = let ih = strlen-strcpy xs rest h.1 in ground (arith, ih.0, ih.1)

-- What `strcmp` makes of two strings.
outcome : (xs ys : List ℕ) → Comparison
outcome [] [] = equal
outcome [] (y ∷ ys) = shorter
outcome (x ∷ xs) [] = longer
outcome (x ∷ xs) (y ∷ ys) = let rest = outcome xs ys in if x == y then rest else no_return

strcmp-outcome :
    (xs ys r t : List ℕ)
    → NonZero xs
    → NonZero ys
    → strcmp (xs ++ 0 ∷ r) (ys ++ 0 ∷ t) ≡ some (outcome xs ys)
unfolding strcmp outcome
strcmp-outcome [] [] r t hx hy = refl
strcmp-outcome [] (y ∷ ys) r t hx hy = ground arith
strcmp-outcome (x ∷ xs) [] r t hx hy = ground arith
strcmp-outcome (x ∷ xs) (y ∷ ys) r t hx hy = ground (arith, strcmp-outcome xs ys r t hx.1 hy.1)

outcome_iff : (xs ys : List ℕ) → (outcome xs ys ≡ equal) ↔ (xs ≡ ys)
unfolding outcome
outcome_iff [] [] = (λ e. refl, λ e. refl)
outcome_iff [] (y ∷ ys) = (λ e. cc, λ e. cc)
outcome_iff (x ∷ xs) [] = (λ e. cc, λ e. cc)
outcome_iff (x ∷ xs) (y ∷ ys) =
    let ih = outcome_iff xs ys in
    elim (Bool-cases (x == y)) [
      | inl e ↦ rw e (λ h. ground (arith, ih.0 h), λ h. ih.1 (cc))
      | inr e ↦ rw e (λ h. cc, λ h. ground arith)
    ]

-- `strcmp` of two strings returns 0 exactly when they are the same.
pub strcmp-eq-equal :
    (xs ys r t : List ℕ)
    → NonZero xs
    → NonZero ys
    → (strcmp (xs ++ 0 ∷ r) (ys ++ 0 ∷ t) ≡ some equal) ↔ (xs ≡ ys)
strcmp-eq-equal xs ys r t hx hy =
    rw (strcmp-outcome xs ys r t hx hy)
      (λ e. (outcome_iff xs ys).0 (cc), λ e. ap some ((outcome_iff xs ys).1 e))

-- `strcmp` of two strings that differ first at two bytes, neither of them a zero, ends with no
-- `return`.
pub strcmp-no_return :
    (p : List ℕ) (x y : ℕ) (s t : List ℕ)
    → NonZero p
    → x ≢ 0
    → y ≢ 0
    → x ≢ y
    → strcmp (p ++ x ∷ s) (p ++ y ∷ t) ≡ some no_return
unfolding strcmp
strcmp-no_return [] x y s t hp hx hy ne = ground arith
strcmp-no_return (c ∷ p) x y s t hp hx hy ne =
    ground (arith, strcmp-no_return p x y s t hp.1 hx hy ne)
