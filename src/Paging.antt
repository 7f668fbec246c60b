-- ===== src/Paging.antt =====
-- src/memory.c: the page tables. An entry is found by the frame of its table and its index; a free
-- page's header and a table's entries are kept apart. `none` is a search of free pages out of fuel.
pub mod Entry
pub mod Translate
mod Tests
use lesch_os.Base.{
  ℕ, zero, suc, ◌+◌, ◌*◌, ◌/◌, ◌^◌, Bool, true, false, ◌&&◌, Option, none, some, if◌then◌else◌, ltb,
  ◌==◌, ◌>>=◌, bit_and, bit_or, add32,
}
use lesch_os.Pages.{PhysMem, no_address, alloc_phys_pages}

pub record Paging : Type 0 where
  pub pmem : PhysMem
  pub entry : (frame indx : ℕ) → ℕ

-- `temp_map_page` makes the page of an address readable: its flags do not count.
abbrev pub frame_of : ℕ → ℕ
frame_of paddr = paddr / 2 ^ 12

-- PAGE_TABLE_INDEX_MASK, PAGE_OFFSET_MASK, PAGE_PRESENT, and the flags of a table.
unfoldable pub table_indx : (vaddr : ℕ) → ℕ
table_indx vaddr = vaddr / 2 ^ 22

unfoldable pub page_indx : (vaddr : ℕ) → ℕ
page_indx vaddr = bit_and (vaddr / 2 ^ 12) 1023

unfoldable pub page_offset : (vaddr : ℕ) → ℕ
page_offset vaddr = bit_and vaddr 4095

-- `& ~PAGE_OFFSET_MASK`
unfoldable pub page_of : ℕ → ℕ
page_of paddr = bit_and paddr 4294963200

unfoldable pub is_present : ℕ → Bool
is_present e = if bit_and e 1 == 0 then false else true

abbrev pub put_entry : (frame indx e : ℕ) → (ℕ → ℕ → ℕ) → (ℕ → ℕ → ℕ)
put_entry frame indx e entry = λ f i. if f == frame && i == indx then e else entry f i

-- `memset(tmp_page, 0, PAGE_SIZE)`
abbrev pub clear_page : (frame : ℕ) → (ℕ → ℕ → ℕ) → (ℕ → ℕ → ℕ)
clear_page frame entry = λ f i. if f == frame && ltb i 1024 then 0 else entry f i

unfoldable pub virt2phys : (page_dir vaddr : ℕ) → Paging → ℕ
virt2phys page_dir vaddr m =
    let table = m.entry (frame_of page_dir) (table_indx vaddr) in
    add32 (page_of (m.entry (frame_of table) (page_indx vaddr))) (page_offset vaddr)

-- `get_page_info`: its loop makes two rounds, on the directory and on the table.
unfoldable pub get_page_info : (page_dir vaddr : ℕ) → Paging → ℕ
get_page_info page_dir vaddr m =
    let page_table = m.entry (frame_of page_dir) (bit_and (vaddr / 2 ^ 22) 1023) in
    if is_present page_table
    then m.entry (frame_of (page_of page_table)) (bit_and (vaddr / 2 ^ 12) 1023)
    else 0

-- One round of `phys2virt`: the table, a new one if there is none, and the entry.
unfoldable pub get_table : (fuel page_dir vaddr : ℕ) → Paging → Option (Option ℕ × Paging)
get_table fuel page_dir vaddr m =
    let table = m.entry (frame_of page_dir) (table_indx vaddr) in
    if is_present table
    then some (some table, m)
    else alloc_phys_pages fuel 1 m.pmem >>= λ r. some (
        if r.0 == no_address then (none, record m { pmem = r.1 }) else (
          some r.0,
          record {
            pmem = r.1;
            entry =
                put_entry (frame_of page_dir) (table_indx vaddr) (bit_or (page_of r.0) 7)
                  (clear_page (frame_of r.0) m.entry);
          },
        ))

unfoldable pub map_page : (fuel page_dir vaddr paddr flags : ℕ) → Paging → Option (Bool × Paging)
map_page fuel page_dir vaddr paddr flags m = get_table fuel page_dir vaddr m >>= λ r. elim r.0 [
  | none ↦ some (false, r.1)
  | some table ↦ some (
    true,
    record r.1 {
      entry =
          put_entry (frame_of (page_of table)) (page_indx vaddr) (bit_or (page_of paddr) flags)
            (r.1).entry;
    },
  )
]

unfoldable pub phys2virt :
    (fuel page_dir vaddr paddr count flags : ℕ) → Paging → Option (Bool × Paging)
phys2virt fuel page_dir vaddr paddr zero flags m = some (true, m)
phys2virt fuel page_dir vaddr paddr (suc count) flags m =
    map_page fuel page_dir vaddr paddr flags m >>= λ r. elim r.0 [
      | false ↦ some (false, r.1)
      | true ↦ phys2virt fuel page_dir (add32 vaddr 4096) (add32 paddr 4096) count flags r.1
    ]
