-- ===== src/Descriptor/Laws.antt =====
-- src/tables_descript.c and src/common.c: what the processor reads from a descriptor, and the byte orders.
use lesch_os.Base.{
  all_below, all_below_sound, ==→eq, ◌==◌, true, ℕ, ◌+◌, ◌*◌, ◌/◌, ◌%◌, ◌^◌, ◌<◌, ◌≤◌, ◌≡◌, refl,
  arith, bit_and, bit_or, ap, ◌∙◌,
}
use lesch_os.Base.Bits.{and_low, and_shifted, or_sum, or_fields, or-zero, zero_or}
use lesch_os.Descriptor.{
  GdtStr, gdt_set, idt_set, tss_size, tss_set, flip_dword, flip_word, htondw, ntohdw, htonw, ntohw,
  htonb, ntohb,
}

-- Base, limit and flags as the processor puts them together from the fields of an entry.
abbrev pub segment_base : GdtStr → ℕ
segment_base g = g.base_low + g.base_middle * 2 ^ 16 + g.base_high * 2 ^ 24

abbrev pub segment_limit : GdtStr → ℕ
segment_limit g = g.limit_low + g.granularity % 2 ^ 4 * 2 ^ 16

abbrev pub segment_flags : GdtStr → ℕ
segment_flags g = g.granularity / 2 ^ 4

-- The low and the high half of a byte, joined by |.
halves : (a b : ℕ) → bit_or (bit_and a 0x0f) (bit_and b 0xf0) ≡ a % 16 + b / 16 % 16 * 16
halves a b = ground (
  arith,
  and_low 4 a,
  and_shifted 4 15 b,
  and_low 4 (b / 16),
  or_fields 4 0 (a % 16) (b / 16 % 16) 0 (omega arith) (omega arith),
  zero_or (b / 16 % 16),
  or-zero (a % 16),
)

-- An entry that `gdt_set` fills gives back the whole base, the low 20 bits of the limit, the access
-- byte and the high half of the granularity.
pub gdt_set_fields :
    (base limit access gran : ℕ)
    → base < 2 ^ 32
    → gran < 2 ^ 8
    → let g = gdt_set base limit access gran in
      (segment_base g ≡ base)
      × (segment_limit g ≡ limit % 2 ^ 20)
      × (segment_flags g ≡ gran / 2 ^ 4)
      × (g.access ≡ access)
unfolding gdt_set
gdt_set_fields base limit access gran hb hg = (
  omega (arith, and_low 16 base, and_low 8 (base / 2 ^ 16), and_low 8 (base / 2 ^ 24)),
  ground (arith, and_low 16 limit, halves (limit / 2 ^ 16) gran),
  ground (arith, halves (limit / 2 ^ 16) gran),
  refl,
)

-- A gate that `idt_set` fills gives back the handler's address, the selector and the flags.
pub idt_set_fields :
    (base sel flags : ℕ)
    → base < 2 ^ 32
    → let g = idt_set base sel flags in
      (g.base_lo + g.base_hi * 2 ^ 16 ≡ base) × (g.sel ≡ sel) × (g.flags ≡ flags) × (g.always0 ≡ 0)
unfolding idt_set
idt_set_fields base sel flags h = ground (arith, and_low 16 base, and_low 16 (base / 2 ^ 16))

-- Four bytes joined by |.
or_bytes :
    (a b c d : ℕ)
    → b < 2 ^ 8
    → c < 2 ^ 8
    → d < 2 ^ 8
    → bit_or (bit_or (bit_or (a * 2 ^ 24) (b * 2 ^ 16)) (c * 2 ^ 8)) d
      ≡ a * 2 ^ 24 + b * 2 ^ 16 + c * 2 ^ 8 + d
or_bytes a b c d hb hc hd =
    ap (λ t. bit_or (bit_or t (c * 2 ^ 8)) d) (or_sum 24 a (b * 2 ^ 16) (omega arith) ∙ two)
    ∙ ap (λ t. bit_or t d) (or_sum 16 (a * 2 ^ 8 + b) (c * 2 ^ 8) (omega arith) ∙ three)
    ∙ or_sum 8 (a * 2 ^ 16 + b * 2 ^ 8 + c) d hd
    ∙ omega arith
  where
    two : a * 2 ^ 24 + b * 2 ^ 16 ≡ (a * 2 ^ 8 + b) * 2 ^ 16
    two = omega arith

    three : (a * 2 ^ 8 + b) * 2 ^ 16 + c * 2 ^ 8 ≡ (a * 2 ^ 16 + b * 2 ^ 8 + c) * 2 ^ 8
    three = omega arith

flip_dword_digits :
    (x : ℕ)
    → flip_dword x
      ≡ x % 256 * 2 ^ 24 + x / 2 ^ 8 % 256 * 2 ^ 16 + x / 2 ^ 16 % 256 * 2 ^ 8 + x / 2 ^ 24 % 256
unfolding flip_dword
flip_dword_digits x = ground (
  arith,
  and_low 8 x,
  and_shifted 8 255 x,
  and_low 8 (x / 2 ^ 8),
  and_shifted 16 255 x,
  and_low 8 (x / 2 ^ 16),
  and_shifted 24 255 x,
  and_low 8 (x / 2 ^ 24),
  or_bytes (x % 256) (x / 2 ^ 8 % 256) (x / 2 ^ 16 % 256) (x / 2 ^ 24 % 256),
)

-- `flip_dword` reverses the four bytes of a word.
pub flip_dword_bytes :
    (a b c d : ℕ)
    → a < 2 ^ 8
    → b < 2 ^ 8
    → c < 2 ^ 8
    → d < 2 ^ 8
    → flip_dword (a + b * 2 ^ 8 + c * 2 ^ 16 + d * 2 ^ 24) ≡ d + c * 2 ^ 8 + b * 2 ^ 16 + a * 2 ^ 24
flip_dword_bytes a b c d ha hb hc hd =
    omega (arith, flip_dword_digits (a + b * 2 ^ 8 + c * 2 ^ 16 + d * 2 ^ 24))

flip_word_digits : (x : ℕ) → x < 2 ^ 16 → flip_word x ≡ x % 256 * 2 ^ 8 + x / 2 ^ 8
unfolding flip_word
flip_word_digits x h = ground (arith, and_low 8 x, or_sum 8 (x % 256) (x / 2 ^ 8) (omega arith))

flip_dword_twice : (x : ℕ) → x < 2 ^ 32 → (flip_dword (flip_dword x) ≡ x) × (flip_dword x < 2 ^ 32)
flip_dword_twice x h = omega (arith, flip_dword_digits x, flip_dword_digits (flip_dword x))

pub htonw_digits : (x : ℕ) → x < 2 ^ 16 → htonw x ≡ x % 256 * 2 ^ 8 + x / 2 ^ 8
unfolding htonw
htonw_digits x h = flip_word_digits x h

flip_word_lt : (x : ℕ) → x < 2 ^ 16 → flip_word x < 2 ^ 16
flip_word_lt x h = omega (arith, flip_word_digits x h)

flip_word_twice : (x : ℕ) → x < 2 ^ 16 → flip_word (flip_word x) ≡ x
flip_word_twice x h =
    omega (arith, flip_word_digits x h, flip_word_digits (flip_word x) (flip_word_lt x h))

-- What `htondw` and `htonw` put in network order, `ntohdw` and `ntohw` give back; the results fit
-- their words.
pub network_order :
    (x y : ℕ)
    → x < 2 ^ 32
    → y < 2 ^ 16
    → (ntohdw (htondw x) ≡ x) × (htondw x < 2 ^ 32) × (ntohw (htonw y) ≡ y) × (htonw y < 2 ^ 16)
unfolding htondw ntohdw htonw ntohw
network_order x y hx hy =
    ((flip_dword_twice x hx).0, (flip_dword_twice x hx).1, flip_word_twice y hy, flip_word_lt y hy)

rotation_table : all_below 256 (λ byte. all_below 9 (λ n. ntohb (htonb byte n) n == byte)) ≡ true
unfolding all_below ntohb htonb
rotation_table = refl

-- `ntohb` undoes `htonb` on every byte and every number of bits up to eight.
pub ntohb-htonb :
    (byte num_bits : ℕ) → byte < 2 ^ 8 → num_bits ≤ 8 → ntohb (htonb byte num_bits) num_bits ≡ byte
ntohb-htonb byte num_bits hb hn = ==→eq _ byte (
    all_below_sound 9 (λ n. ntohb (htonb byte n) n == byte) num_bits
      (all_below_sound 256 (λ b. all_below 9 (λ n. ntohb (htonb b n) n == b)) byte rotation_table
        hb)
      (omega arith))

-- The entry of the GDT that `tss_set` fills describes the whole task state: its base, and its size
-- less one as the limit, in bytes. The map of ports lies at the last byte.
pub tss_set_fields :
    (base ss0 esp0 : ℕ)
    → base < 2 ^ 32
    → let (t, e) = tss_set base ss0 esp0 in
      (e.base_15_0 + e.base_23_16 * 2 ^ 16 + e.base_31_24 * 2 ^ 24 ≡ base)
      × (e.limit_15_0 + e.limit_19_16 * 2 ^ 16 + 1 ≡ tss_size)
      × (t.iomap_offset + 1 ≡ tss_size)
      × (t.esp0 ≡ esp0)
      × (t.ss0 ≡ ss0)
unfolding tss_set
tss_set_fields base ss0 esp0 h = (
  omega (arith, and_low 16 base, and_low 8 (base / 2 ^ 16), and_low 8 (base / 2 ^ 24)),
  refl,
  refl,
  refl,
  refl,
)
