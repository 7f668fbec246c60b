-- ===== src/Keyboard/Decode.antt =====
-- `get_asc2`: the shift key as a state machine, and capitals.
use lesch_os.Base.{
  ℕ, ◌+◌, ◌<◌, ◌≡◌, Bool, true, ◌&&◌, ◌||◌, not, arith, ltb, leb, ◌==◌, get_or, all_below,
  all_below_sound, if◌then◌else◌, refl,
}
use lesch_os.Keyboard.{Keyboard, get_keyboard, asc_buff, asc_buff_sh, decode, get_asc2}

-- The scan codes of the two shift keys when they are pressed, and when they are released.
abbrev pub shift_down : ℕ → Bool
shift_down res = res == 0x36 || res == 0x2a

abbrev pub shift_up : ℕ → Bool
shift_up res = res == 0xb6 || res == 0xaa

-- The shift flag follows the shift keys and nothing else, their codes decode to no character, and
-- a code from 0x51 on that is none of theirs decodes to none.
pub get_asc2-shift :
    (kb : Keyboard)
    → let res = (get_keyboard kb).0 in
      ((get_asc2 kb).1.shift
        ≡ (if shift_down res then 1 else if shift_up res then 0 else (get_keyboard kb).1.shift))
      × ((shift_down res || (shift_up res || ltb 0x50 res)) ≡ true → (get_asc2 kb).0 ≡ 0)
unfolding get_asc2 decode
get_asc2-shift kb = (ground arith, ground arith)

abbrev pub letter : ℕ → Bool
letter c = leb b'a' c && leb c b'z'

abbrev capital : ℕ → Bool
capital res =
    not (letter (get_or asc_buff res 0)) || get_or asc_buff_sh res 0 + 32 == get_or asc_buff res 0

capitals_table : all_below 0x48 capital ≡ true
unfolding all_below asc_buff asc_buff_sh
capitals_table = refl

capital_of :
    (res : ℕ)
    → res < 0x48
    → letter (get_or asc_buff res 0) ≡ true
    → get_or asc_buff_sh res 0 + 32 ≡ get_or asc_buff res 0
capital_of res h l =
    tell (letter (get_or asc_buff res 0)) _ _ l (all_below_sound 0x48 capital res capitals_table h)
  where
    tell : (b : Bool) (x y : ℕ) → b ≡ true → (not b || x == y) ≡ true → x ≡ y
    tell b x y p q = ground arith

get_keyboard-shift :
    (kb : Keyboard) (s : ℕ)
    → get_keyboard (record kb { shift = s })
      ≡ ((get_keyboard kb).0, record (get_keyboard kb).1 { shift = s })
unfolding get_keyboard
get_keyboard-shift kb s = ground arith

decode-capital :
    (res : ℕ) (kb : Keyboard)
    → kb.shift ≡ 0
    → letter (decode res kb).0 ≡ true
    → (decode res (record kb { shift = 1 })).0 + 32 ≡ (decode res kb).0
unfolding decode
decode-capital res kb clear l = ground (arith, capital_of res)

-- With a shift key held, `get_asc2` decodes a letter's key to the capital of the letter that it
-- decodes to without.
pub get_asc2-capital :
    (kb : Keyboard)
    → (get_keyboard kb).1.shift ≡ 0
    → letter (get_asc2 kb).0 ≡ true
    → (get_asc2 (record kb { shift = 1 })).0 + 32 ≡ (get_asc2 kb).0
unfolding get_asc2
get_asc2-capital kb clear l =
    rw (get_keyboard-shift kb 1) (decode-capital (get_keyboard kb).0 (get_keyboard kb).1 clear l)
