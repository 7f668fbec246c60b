-- ===== src/Descriptor/Tests.antt =====
-- The descriptors of src/tables_descript.c and the byte orders of src/common.c at concrete values.
use lesch_os.Base.{◌+◌, ◌*◌, ◌^◌, ◌≡◌, arith}
use lesch_os.Descriptor.{gdt_set, idt_set}
use lesch_os.Descriptor.Laws.{
  segment_base, segment_limit, segment_flags, gdt_set_fields, idt_set_fields,
}

-- the kernel's code segment
gdt_set_fields_example :
    let g = gdt_set 0 0xffff_ffff 0x9a 0xcf in
    (segment_base g ≡ 0)
    × (segment_limit g ≡ 0xf_ffff)
    × (segment_flags g ≡ 0xc)
    × (g.access ≡ 0x9a)
gdt_set_fields_example = gdt_set_fields 0 0xffff_ffff 0x9a 0xcf (omega arith) (omega arith)

idt_set_fields_example :
    let g = idt_set 0x0020_1234 0x08 0x8e in
    (g.base_lo + g.base_hi * 2 ^ 16 ≡ 0x0020_1234)
    × (g.sel ≡ 0x08)
    × (g.flags ≡ 0x8e)
    × (g.always0 ≡ 0)
idt_set_fields_example = idt_set_fields 0x0020_1234 0x08 0x8e (omega arith)
