-- ===== src/Keyboard.antt =====
-- src/keyboard.c: the ring of scan codes between the interrupt and the reader, and the decoding of
-- a scan code with the state of the shift key.
pub mod Queue
pub mod Decode
mod Tests
use lesch_os.Base.{
  ℕ, suc, ◌+◌, Bool, List, [], ◌∷◌, if◌then◌else◌, leb, ltb, ◌==◌, ◌&&◌, ◌||◌, not, get_or, set,
  bit_and,
}

abbrev pub keyb_buff_size : ℕ
keyb_buff_size = 32

-- The globals `key_buff`, `kb_start`, `kb_end` and `shift`.
pub record Keyboard : Type 0 where
  pub key_buff : List ℕ
  pub kb_start : ℕ
  pub kb_end : ℕ
  pub shift : ℕ

-- `keyboard_handler`; `stat` and `code` are what the ports 0x64 and 0x60 deliver.
unfoldable pub keyboard_handler : (stat code : ℕ) → Keyboard → Keyboard
keyboard_handler stat code kb =
    if bit_and stat 1 == 0
    then kb
    else (let end = if leb keyb_buff_size kb.kb_end then 0 else kb.kb_end in
        record kb { key_buff = set kb.key_buff end code; kb_end = end + 1 })

-- `get_keyboard`
unfoldable pub get_keyboard : Keyboard → ℕ × Keyboard
get_keyboard kb =
    if kb.kb_start == kb.kb_end
    then (0, kb)
    else (let start = if leb keyb_buff_size kb.kb_start then 0 else kb.kb_start in
        (get_or kb.key_buff start 0, record kb { kb_start = start + 1 }))

-- `asc_buff`
unfoldable pub asc_buff : List ℕ
asc_buff =
    0 ∷ 0 ∷ 49 ∷ 50 ∷ 51 ∷ 52 ∷ 53 ∷ 54 ∷ 55 ∷ 56 ∷ 57 ∷ 48 ∷ 45 ∷ 61 ∷ 8 ∷ 9 ∷ 113 ∷ 119 ∷ 101
    ∷ 114 ∷ 116 ∷ 121 ∷ 117 ∷ 105 ∷ 111 ∷ 112 ∷ 91 ∷ 93 ∷ 10 ∷ 0 ∷ 97 ∷ 115 ∷ 100 ∷ 102 ∷ 103 ∷ 104
    ∷ 106 ∷ 107 ∷ 108 ∷ 59 ∷ 39 ∷ 96 ∷ 0 ∷ 92 ∷ 122 ∷ 120 ∷ 99 ∷ 118 ∷ 98 ∷ 110 ∷ 109 ∷ 44 ∷ 46 ∷ 47
    ∷ 0 ∷ 42 ∷ 0 ∷ 32 ∷ 0 ∷ 0 ∷ 0 ∷ 0 ∷ 0 ∷ 0 ∷ 0 ∷ 0 ∷ 0 ∷ 0 ∷ 0 ∷ 0 ∷ 0 ∷ 0 ∷ 0 ∷ 0 ∷ 45 ∷ 0 ∷ 0
    ∷ 0 ∷ 43 ∷ 0 ∷ 0 ∷ 0 ∷ 0 ∷ 0 ∷ 0 ∷ 0 ∷ 0 ∷ 0 ∷ 0 ∷ 0 ∷ 0 ∷ 0 ∷ 0 ∷ 0 ∷ 0 ∷ 0 ∷ 0 ∷ 0 ∷ 0 ∷ 0 ∷ 0
    ∷ 0 ∷ 0 ∷ 0 ∷ 0 ∷ 0 ∷ 0 ∷ 0 ∷ 0 ∷ []

-- `asc_buff_sh`
unfoldable pub asc_buff_sh : List ℕ
asc_buff_sh =
    0 ∷ 0 ∷ 33 ∷ 64 ∷ 35 ∷ 36 ∷ 37 ∷ 94 ∷ 38 ∷ 42 ∷ 40 ∷ 41 ∷ 95 ∷ 43 ∷ 8 ∷ 9 ∷ 81 ∷ 87 ∷ 69 ∷ 82
    ∷ 84 ∷ 89 ∷ 85 ∷ 73 ∷ 79 ∷ 80 ∷ 123 ∷ 125 ∷ 10 ∷ 0 ∷ 65 ∷ 83 ∷ 68 ∷ 70 ∷ 71 ∷ 72 ∷ 74 ∷ 75 ∷ 76
    ∷ 58 ∷ 34 ∷ 126 ∷ 0 ∷ 124 ∷ 90 ∷ 88 ∷ 67 ∷ 86 ∷ 66 ∷ 78 ∷ 77 ∷ 60 ∷ 62 ∷ 63 ∷ 0 ∷ 42 ∷ 0 ∷ 32
    ∷ 0 ∷ 0 ∷ 0 ∷ 0 ∷ 0 ∷ 0 ∷ 0 ∷ 0 ∷ 0 ∷ 0 ∷ 0 ∷ 0 ∷ 0 ∷ 0 ∷ 0 ∷ 0 ∷ 45 ∷ 0 ∷ 0 ∷ 0 ∷ 43 ∷ 0 ∷ 0
    ∷ 0 ∷ 0 ∷ 0 ∷ 0 ∷ 0 ∷ 0 ∷ 0 ∷ 0 ∷ 0 ∷ 0 ∷ 0 ∷ 0 ∷ 0 ∷ 0 ∷ 0 ∷ 0 ∷ 0 ∷ 0 ∷ 0 ∷ 0 ∷ 0 ∷ 0 ∷ 0 ∷ 0
    ∷ 0 ∷ 0 ∷ 0 ∷ 0 ∷ []

-- The ladder of `get_asc2` on a scan code: the character, and the keyboard with its shift flag.
unfoldable pub decode : (res : ℕ) → Keyboard → ℕ × Keyboard
decode res kb =
    if res == 0x36 || res == 0x2a
    then (0, record kb { shift = 1 })
    else if res == 0x36 + 0x80 || res == 0x2a + 0x80
    then (0, record kb { shift = 0 })
    else if ltb res 0x48
    then (if kb.shift == 0 then get_or asc_buff res 0 else get_or asc_buff_sh res 0, kb)
    else if leb 0x48 res && leb res 0x50
    then (res, kb)
    else (0, kb)

unfoldable pub get_asc2 : Keyboard → ℕ × Keyboard
get_asc2 keyb = let (res, kb) = get_keyboard keyb in decode res kb
