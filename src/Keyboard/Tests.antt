-- ===== src/Keyboard/Tests.antt =====
-- src/keyboard.c at concrete strokes.
use lesch_os.Base.{ℕ, ◌≡◌, refl, List, [], ◌∷◌, replicate}
use lesch_os.Keyboard.{Keyboard, get_keyboard, get_asc2, decode, asc_buff_sh}
use lesch_os.Keyboard.Queue.{Event, key, get, reads, queue_reads, power_up, reads_refine}

abbrev blank : List ℕ
blank = replicate 32 0

-- Shift, the key of the letter A, and one read too many.
abbrev typing : List Event
typing = key 0x2a ∷ key 0x1e ∷ get ∷ get ∷ get ∷ []

reads_refine_example : reads typing (power_up blank) ≡ 0x2a ∷ 0x1e ∷ 0 ∷ []
unfolding queue_reads
reads_refine_example = reads_refine typing blank (0x2a ∷ 0x1e ∷ 0 ∷ []) refl refl

-- The keyboard with 31 codes in wait from index 1 on.
abbrev crowded : Keyboard
crowded = record { key_buff = replicate 32 0x1e; kb_start = 1; kb_end = 32; shift = 0 }

-- The key of the letter A in wait.
abbrev letter_a : Keyboard
letter_a = record { key_buff = 0x1e ∷ blank; kb_start = 0; kb_end = 1; shift = 0 }

shifted_a : (get_asc2 (record letter_a { shift = 1 })).0 ≡ b'A'
unfolding get_asc2 decode get_keyboard asc_buff_sh
shifted_a = refl
