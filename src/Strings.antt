-- ===== src/Strings.antt =====
-- src/help_func.c: the strings and the numbers in text. A string that is only read is the list of
-- bytes from its pointer to the end of its array; `none` is a read past that end. memcpy and memset
-- write to a memory, a function from addresses to bytes.
pub mod Mem
pub mod Compare
pub mod Number
pub mod Token
pub mod Search
mod Tests
use lesch_os.Base.{
  ℕ, zero, suc, ◌+◌, ◌-◌, ◌*◌, ◌/◌, ◌%◌, ◌^◌, Bool, true, false, ◌&&◌, ◌||◌, Option, none, some,
  List, [], ◌∷◌, ◌++◌, if◌then◌else◌, leb, ltb, ◌==◌, ◌>>=◌, not, length,
}

abbrev pub Memory : Type 0
Memory = ℕ → ℕ

abbrev pub write : Memory → (address byte : ℕ) → Memory
write mem address byte a = if a == address then byte else mem a

-- The rounds left are `size - i`.
unfoldable pub memcpy_loop : (left i : ℕ) → (str2 str1 : ℕ) → Memory → Memory
memcpy_loop zero i str2 str1 mem = mem
memcpy_loop (suc left) i str2 str1 mem =
    memcpy_loop left (i + 1) str2 str1 (write mem (str2 + i) (mem (str1 + i)))

-- `memcpy(str2, str1, size)` copies from `str1` to `str2`.
unfoldable pub memcpy : (str2 str1 size : ℕ) → Memory → Memory
memcpy str2 str1 size mem = if size == 0 then mem else memcpy_loop size 0 str2 str1 mem

unfoldable pub memset_loop : (left i : ℕ) → (str2 sign : ℕ) → Memory → Memory
memset_loop zero i str2 sign mem = mem
memset_loop (suc left) i str2 sign mem =
    memset_loop left (i + 1) str2 sign (write mem (str2 + i) sign)

unfoldable pub memset : (str2 sign size : ℕ) → Memory → Memory
memset str2 sign size mem = memset_loop size 0 str2 sign mem

-- `memcmp` returns 1 for equal bytes, 0 for others.
unfoldable pub memcmp : (a b : ℕ) (len : ℕ) → Memory → ℕ
memcmp a b zero mem = 1
memcmp a b (suc len) mem =
    let rest = memcmp (a + 1) (b + 1) len mem in if mem a == mem b then rest else 0

unfoldable pub strlen : List ℕ → Option ℕ
strlen [] = none
strlen (c ∷ s) = let rest = strlen s in if c == 0 then some 0 else rest >>= λ n. some (suc n)

-- The results of `strcmp`: 0, -1, 1, and what the register holds where the function ends without a
-- `return`.
pub data Comparison : Type 0 where
  equal shorter longer no_return : Comparison

unfoldable pub strcmp : (str1 str2 : List ℕ) → Option Comparison
strcmp [] str2 = none
strcmp (a ∷ s) [] = none
strcmp (a ∷ s) (b ∷ t) =
    let rest = strcmp s t in
    if a == b
    then (if a == 0 then some equal else rest)
    else if a == 0
    then some shorter
    else if b == 0
    then some longer
    else some no_return

-- Whether `strncmp(str1, str2, count)` is 0, all that the kernel asks of it.
unfoldable pub strncmp_is_zero : (str1 str2 : List ℕ) (count : ℕ) → Option Bool
strncmp_is_zero str1 str2 zero = some true
strncmp_is_zero [] str2 (suc count) = none
strncmp_is_zero (a ∷ s) [] (suc count) = none
strncmp_is_zero (a ∷ s) (b ∷ t) (suc count) =
    let rest = strncmp_is_zero s t count in
    if not (a == b) then some false else if a == 0 then some true else rest

-- The bytes that `strcpy` writes, its zero included. It returns one less than their number.
unfoldable pub strcpy : (str2 : List ℕ) → Option (List ℕ)
strcpy [] = none
strcpy (c ∷ s) = let rest = strcpy s in if c == 0 then some (0 ∷ []) else rest >>= λ t. some (c ∷ t)

-- Does `c` stand in the string of delimiters, or end it?
unfoldable pub is_delim : (c : ℕ) (delim : List ℕ) → Option Bool
is_delim c [] = none
is_delim c (sc ∷ delim) =
    let rest = is_delim c delim in
    if sc == c then some true else if sc == 0 then some false else rest

-- `strsep` returns the token, and what is left in `*stringp`: NULL (`none`) at the string's end.
unfoldable pub strsep_loop : (s delim : List ℕ) → Option (List ℕ × Option (List ℕ))
strsep_loop [] delim = none
strsep_loop (c ∷ s) delim = do
  let rest = strsep_loop s delim
  found ← is_delim c delim
  if found then some ([], (if c == 0 then none else some s)) else rest >>= λ r. some (c ∷ r.0, r.1)

unfoldable pub strsep :
    (stringp : Option (List ℕ)) (delim : List ℕ) → Option (Option (List ℕ) × Option (List ℕ))
strsep none delim = some (none, none)
strsep (some s) delim = strsep_loop s delim >>= λ r. some (some r.0, r.1)

-- The second loop of `itoa`, which writes the digits from the last to the first.
unfoldable pub write_digits : (fuel i : ℕ) → List ℕ → Option (List ℕ)
write_digits zero i text = none
write_digits (suc fuel) i text =
    let text' = (b'0' + i % 10) ∷ text in
    let rest = write_digits fuel (i / 10) text' in if i / 10 == 0 then some text' else rest

-- The first loop, which finds how far the text reaches.
unfoldable pub count_digits : (fuel shift : ℕ) → Option ℕ
count_digits zero shift = none
count_digits (suc fuel) shift =
    let rest = count_digits fuel (shift / 10) in
    if shift / 10 == 0 then some 1 else rest >>= λ n. some (suc n)

-- Both loops: the zero is put as far behind as the digits were counted, and the digits in front of it.
-- `none` where they would not begin at the text's first byte.
unfoldable pub digits_text : ℕ → Option (List ℕ)
digits_text i = count_digits 10 i >>= λ n.
    (write_digits 10 i (0 ∷ []) >>= λ text. if length text == n + 1 then some text else none)

-- `itoa` of an int, given by its bit pattern: the text with its zero. The sign is written first.
-- `none` for the least int, whose digits are read from in front of the table.
unfoldable pub itoa : ℕ → Option (List ℕ)
itoa i =
    if i == 2 ^ 31
    then none
    else if ltb i (2 ^ 31)
    then digits_text i
    else digits_text (2 ^ 32 - i) >>= λ text. some (b'-' ∷ text)

-- The loop of `atoi`; `res` wraps as an int does.
unfoldable pub atoi_loop : (res : ℕ) → List ℕ → Option ℕ
atoi_loop res [] = none
atoi_loop res (c ∷ str) =
    let rest = atoi_loop ((res * 10 + c - b'0') % 2 ^ 32) str in
    if leb b'0' c && leb c b'9' then rest else some res

unfoldable pub atoi : List ℕ → Option ℕ
atoi [] = none
atoi (c ∷ str) = if c == b'-' || c == b'+' then atoi_loop 0 str else atoi_loop 0 (c ∷ str)

-- The inner loop of `strstr`: what stands behind the next `c`, `none` at the string's end.
unfoldable pub skip_to : (c : ℕ) → List ℕ → Option (Option (List ℕ))
skip_to c [] = none
skip_to c (sc ∷ s) =
    let rest = skip_to c s in if sc == 0 then some none else if sc == c then some (some s) else rest

-- The outer loop of `strstr`, on `in`. The result is what stands behind the first byte of the match.
unfoldable pub strstr_loop :
    (fuel c : ℕ) (str : List ℕ) (len : ℕ) → List ℕ → Option (Option (List ℕ))
strstr_loop zero c str len s = none
strstr_loop (suc fuel) c str len s = do
  found ← skip_to c s
  elim found [
    | none ↦ some none
    | some behind ↦ strncmp_is_zero behind str len >>= λ same.
        let rest = strstr_loop fuel c str len behind in if same then some (some behind) else rest
  ]

-- `strstr(in, str)`: the first place in `in` where `str` stands, NULL (`none`) if there is none. One
-- round for each byte of `in`.
unfoldable pub strstr : (s str : List ℕ) → Option (Option (List ℕ))
strstr s [] = none
strstr s (c ∷ str) =
    let search = strlen str >>= λ len. strstr_loop (length s) c str len s in
    if c == 0
    then some (some s)
    else (search >>= λ r. elim r [ none ↦ some none | some behind ↦ some (some (c ∷ behind)) ])
