-- ===== src/Strings/Tests.antt =====
-- The strings of src/help_func.c at concrete texts.
use lesch_os.Base.{ℕ, ◌≡◌, refl, some, List, [], ◌∷◌, arith}
use lesch_os.Strings.{Memory, itoa, atoi, digits_text, count_digits, write_digits}
use lesch_os.Strings.Number.{atoi-itoa}
use lesch_os.Strings.Token.{tokens, tokens-join}

-- Each address holds its number.
abbrev counting : Memory
counting a = a

abbrev dev : List ℕ
dev = b'd' ∷ b'e' ∷ b'v' ∷ []

abbrev hda : List ℕ
hda = b'h' ∷ b'd' ∷ b'a' ∷ []

atoi-itoa_example : (text : List ℕ) × (itoa 1024 ≡ some text) × (atoi text ≡ some 1024)
atoi-itoa_example = atoi-itoa 1024 (omega arith)

itoa_1024 : itoa 1024 ≡ some (b'1' ∷ b'0' ∷ b'2' ∷ b'4' ∷ 0 ∷ [])
unfolding itoa digits_text count_digits write_digits
itoa_1024 = refl

tokens-join_example :
    tokens 3 (some (b'd' ∷ b'e' ∷ b'v' ∷ b'/' ∷ b'h' ∷ b'd' ∷ b'a' ∷ 0 ∷ []))
    ≡ some (dev ∷ hda ∷ [])
tokens-join_example = tokens-join dev (hda ∷ []) 3 (omega arith) (omega arith) (omega arith)
