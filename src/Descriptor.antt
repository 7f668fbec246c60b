-- ===== src/Descriptor.antt =====
-- src/tables_descript.c: the descriptors that the processor reads. `gdt_set` splits the base and the
-- limit of a segment over an entry of the GDT, `idt_set` a handler's address over a gate, and
-- `tss_set` the base and the limit of the task state.
-- src/common.c: `flip_dword` and `flip_word`, the change of byte order.
pub mod Laws
mod Tests
use lesch_os.Base.{ℕ, ◌-◌, ◌*◌, ◌/◌, ◌%◌, ◌^◌, bit_and, bit_or}

-- x >> k, and x << k in a w-bit integer.
abbrev pub shr : ℕ → ℕ → ℕ
shr x k = x / 2 ^ k

abbrev pub shl : ℕ → ℕ → ℕ → ℕ
shl w x k = x * 2 ^ k % 2 ^ w

-- `struct gdt_str`
pub record GdtStr : Type 0 where
  pub limit_low : ℕ
  pub base_low : ℕ
  pub base_middle : ℕ
  pub access : ℕ
  pub granularity : ℕ
  pub base_high : ℕ

unfoldable pub gdt_set : (base limit access gran : ℕ) → GdtStr
gdt_set base limit access gran = record {
  base_low = bit_and base 0xffff;
  base_middle = bit_and (shr base 16) 0xff;
  base_high = bit_and (shr base 24) 0xff;
  limit_low = bit_and limit 0xffff;
  granularity = bit_or (bit_and (shr limit 16) 0x0f) (bit_and gran 0xf0);
  access = access;
}

-- `struct idt_str`
pub record IdtStr : Type 0 where
  pub base_lo : ℕ
  pub sel : ℕ
  pub always0 : ℕ
  pub flags : ℕ
  pub base_hi : ℕ

unfoldable pub idt_set : (base sel flags : ℕ) → IdtStr
idt_set base sel flags = record {
  base_lo = bit_and base 0xffff;
  base_hi = bit_and (shr base 16) 0xffff;
  sel = sel;
  always0 = 0;
  flags = flags;
}

-- `struct tss_str`, with its bit fields.
pub record TssStr : Type 0 where
  pub limit_15_0 : ℕ
  pub base_15_0 : ℕ
  pub base_23_16 : ℕ
  pub seg_type : ℕ
  pub sys : ℕ
  pub dpl : ℕ
  pub present : ℕ
  pub limit_19_16 : ℕ
  pub avl : ℕ
  pub allways_zero : ℕ
  pub gran : ℕ
  pub base_31_24 : ℕ

-- The fields of `struct tss_ptr_str` that `tss_set` writes; the others are cleared.
pub record TssPtrStr : Type 0 where
  pub ss0 : ℕ
  pub esp0 : ℕ
  pub cs : ℕ
  pub ss : ℕ
  pub es : ℕ
  pub ds : ℕ
  pub gs : ℕ
  pub fs : ℕ
  pub iomap : ℕ
  pub iomap_offset : ℕ

-- `sizeof(tss_entr)` and the offset of its last byte, `iomap`: 25 words, 2 half words, one byte.
abbrev pub tss_size : ℕ
tss_size = 105

-- `tss_set` of the task state at address `base`, with the entry of the GDT that describes it.
unfoldable pub tss_set : (base ss0 esp0 : ℕ) → TssPtrStr × TssStr
tss_set base ss0 esp0 = (
  record {
    ss0 = ss0;
    esp0 = esp0;
    cs = 0x08;
    ss = 0x10;
    es = 0x10;
    ds = 0x10;
    gs = 0x10;
    fs = 0x10;
    iomap = 0xff;
    iomap_offset = 104;
  },
  record {
    base_15_0 = bit_and base 0xffff;
    base_23_16 = bit_and (shr base 16) 0xff;
    base_31_24 = bit_and (shr base 24) 0xff;
    limit_15_0 = bit_and (tss_size - 1) 0xffff;
    limit_19_16 = bit_and (shr (tss_size - 1) 16) 0x0f;
    present = 1;
    sys = 0;
    dpl = 0;
    seg_type = 9;
    avl = 0;
    allways_zero = 0;
    gran = 0;
  },
)

unfoldable pub flip_dword : ℕ → ℕ
flip_dword dword =
    let byte_1 = bit_and dword 0xff in
    let byte_2 = shr (bit_and dword 0x0000_ff00) 8 in
    let byte_3 = shr (bit_and dword 0x00ff_0000) 16 in
    let byte_4 = shr (bit_and dword 0xff00_0000) 24 in
    bit_or (bit_or (bit_or (shl 32 byte_1 24) (shl 32 byte_2 16)) (shl 32 byte_3 8)) byte_4

unfoldable pub flip_word : ℕ → ℕ
flip_word word =
    let byte_1 = bit_and word 0xff in
    let byte_2 = shr word 8 in bit_or (shl 32 byte_1 8) byte_2 % 2 ^ 16

-- `htondw`, `ntohdw`, `htonw` and `ntohw`
unfoldable pub htondw : ℕ → ℕ
unfolding flip_dword
htondw hostlong = flip_dword hostlong

unfoldable pub ntohdw : ℕ → ℕ
unfolding flip_dword
ntohdw netlong = flip_dword netlong

unfoldable pub htonw : ℕ → ℕ
unfolding flip_word
htonw hostshort = flip_word hostshort

unfoldable pub ntohw : ℕ → ℕ
unfolding flip_word
ntohw netword = flip_word netword

-- `flip_byte`, for `htonb` and `ntohb`
unfoldable pub flip_byte : (byte num_bits : ℕ) → ℕ
flip_byte byte num_bits =
    let tmp = byte * 2 ^ (8 - num_bits) % 2 ^ 8 in bit_or tmp (shr byte num_bits) % 2 ^ 8

unfoldable pub htonb : (byte num_bits : ℕ) → ℕ
unfolding flip_byte
htonb byte num_bits = flip_byte byte num_bits

unfoldable pub ntohb : (byte num_bits : ℕ) → ℕ
unfolding flip_byte
ntohb byte num_bits = flip_byte byte (8 - num_bits)
