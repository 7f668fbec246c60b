-- ===== src/Strings/Token.antt =====
-- src/help_func.c: strsep on the names of a path.
use lesch_os.Base.{
  ℕ, zero, suc, ◌+◌, ◌≤◌, ◌≡◌, ◌≢◌, refl, true, Option, none, some, List, [], ◌∷◌, ◌++◌, arith,
  if◌then◌else◌, ◌==◌, length, All, ◌>>=◌, ◌||◌,
}
use lesch_os.Strings.{is_delim, strsep_loop, strsep}

-- The string "/".
abbrev pub slash : List ℕ
slash = b'/' ∷ 0 ∷ []

-- A name in a path: neither a zero nor a slash.
abbrev pub IsName : List ℕ → Type 0
IsName = All (λ c. (c ≢ 0) × (c ≢ b'/'))

is_delim-slash : (c : ℕ) → is_delim c slash ≡ some (c == b'/' || c == 0)
unfolding is_delim
is_delim-slash c = ground arith

strsep_loop_lem :
    (xs : List ℕ) (d : ℕ) (rest : List ℕ)
    → IsName xs
    → (d == b'/' || d == 0) ≡ true
    → strsep_loop (xs ++ d ∷ rest) slash ≡ some (xs, (if d == 0 then none else some rest))
unfolding strsep_loop
strsep_loop_lem [] d rest h e = rw (is_delim-slash d, e)
strsep_loop_lem (x ∷ xs) d rest h e =
    rw (is_delim-slash x) (ground (arith, strsep_loop_lem xs d rest h.1 e))

-- `strsep(&path, "/")` returns the bytes in front of the first slash, or of the string's end. What
-- is left is what follows the slash, or NULL at the end.
pub strsep_lem :
    (xs rest : List ℕ)
    → IsName xs
    → (strsep (some (xs ++ b'/' ∷ rest)) slash ≡ some (some xs, some rest))
      × (strsep (some (xs ++ 0 ∷ rest)) slash ≡ some (some xs, none))
unfolding strsep
strsep_lem xs rest h =
    (rw (strsep_loop_lem xs b'/' rest h refl) refl, rw (strsep_loop_lem xs 0 rest h refl) refl)

-- The tokens that the callers' loops take from a path until NULL is returned, one round for each.
unfoldable pub tokens : (fuel : ℕ) → Option (List ℕ) → Option (List (List ℕ))
tokens zero path = none
tokens (suc fuel) none = some []
tokens (suc fuel) (some s) = do
  r ← strsep (some s) slash
  elim r.0 [ none ↦ some [] | some tok ↦ tokens fuel r.1 >>= λ rest. some (tok ∷ rest) ]

-- The names joined by slashes, as a string.
abbrev pub join : (first : List ℕ) (names : List (List ℕ)) → List ℕ
join first [] = first ++ 0 ∷ []
join first (n ∷ names) = first ++ b'/' ∷ join n names

-- From names joined by slashes the calls of `strsep` return just these names in order and then
-- NULL, in as many rounds and one more.
pub tokens-join :
    (first : List ℕ) (names : List (List ℕ)) (fuel : ℕ)
    → IsName first
    → All IsName names
    → length names + 2 ≤ fuel
    → tokens fuel (some (join first names)) ≡ some (first ∷ names)
unfolding tokens
tokens-join first names zero hf hn enough = absurd (omega arith)
tokens-join first names (suc zero) hf hn enough = absurd (omega arith)
tokens-join first [] (suc (suc fuel)) hf hn enough = rw ((strsep_lem first [] hf).1)
tokens-join first (n ∷ names) (suc (suc fuel)) hf hn enough =
    rw (
      (strsep_lem first (join n names) hf).0,
      tokens-join n names (suc fuel) hn.0 hn.1 (omega arith),
    )
