-- ===== src/Pages.antt =====
-- src/memory.c: the free physical pages, a ring of blocks whose headers lie in the pages themselves.
-- `none` is a loop that runs out of fuel. The mutex is released on every path, and left out.
pub mod Search
pub mod Return
pub mod Broken
mod Tests
use lesch_os.Base.{
  ℕ, zero, suc, ◌+◌, ◌-◌, ◌*◌, ◌/◌, ◌%◌, ◌^◌, Bool, true, false, ◌&&◌, not, Option, none, some,
  if◌then◌else◌, ltb, leb, ◌==◌, ◌>>=◌, add32, sub32,
}

-- `struct phys_memory_block`, at the start of a block's first page.
pub record BlockPmem : Type 0 where
  pub prev : ℕ
  pub next : ℕ
  pub size : ℕ

-- `free_pcount`, `free_pmem_pointer` and the headers, by the address of the page.
pub record PhysMem : Type 0 where
  pub free_pcount : ℕ
  pub free_pmem_pointer : ℕ
  pub header : ℕ → BlockPmem

-- The address -1.
abbrev pub no_address : ℕ
no_address = 2 ^ 32 - 1

-- The bytes of some pages, `count << 12`.
abbrev pub bytes_of : ℕ → ℕ
bytes_of count = count * 2 ^ 12 % 2 ^ 32

-- Writes through the pointer of `get_free_block`.
abbrev pub put_header : (p : ℕ) → BlockPmem → (ℕ → BlockPmem) → (ℕ → BlockPmem)
put_header p block header = λ a. if a == p then block else header a

abbrev pub put_prev : (p prev : ℕ) → (ℕ → BlockPmem) → (ℕ → BlockPmem)
put_prev p prev header = put_header p (record (header p) { prev = prev }) header

abbrev pub put_next : (p next : ℕ) → (ℕ → BlockPmem) → (ℕ → BlockPmem)
put_next p next header = put_header p (record (header p) { next = next }) header

abbrev pub put_size : (p size : ℕ) → (ℕ → BlockPmem) → (ℕ → BlockPmem)
put_size p size header = put_header p (record (header p) { size = size }) header

-- The four cases of `free_phys_pages`, at the block `cur`. Behind it:
unfoldable pub merge_behind : (base count cur : ℕ) → PhysMem → PhysMem
merge_behind base count cur mem =
    let h₁ = put_size cur (add32 (mem.header cur).size count) mem.header in
    let next_old = (h₁ cur).next in
    let next_new = (h₁ next_old).next in
    let h₂ = put_next cur next_new h₁ in
    let h₃ = put_size cur (add32 (h₂ cur).size (h₁ next_old).size) h₂ in
    if next_old == add32 base (bytes_of count)
    then record mem { header = put_prev next_new cur h₃ }
    else record mem { header = h₁ }

-- In front of it: the header at `base` holds what the page holds, and the size is added to that.
unfoldable pub merge_front : (base count cur : ℕ) → PhysMem → PhysMem
merge_front base count cur mem =
    let old = mem.header cur in
    let h₁ = put_prev base old.prev mem.header in
    let h₂ = put_next base old.next h₁ in
    let h₃ = put_size base (add32 (h₂ base).size old.size) h₂ in
    let h₄ = put_prev old.next base h₃ in record mem { header = put_next old.prev base h₄ }

-- Below it: `prev` is read from the field `next`.
unfoldable pub insert_below : (base count cur : ℕ) → PhysMem → PhysMem
insert_below base count cur mem =
    let prev = (mem.header cur).next in
    let h₁ = put_prev cur base mem.header in
    let h₂ = put_next prev base h₁ in
    record mem { header = put_header base (record { prev = prev; next = cur; size = count }) h₂ }

-- Behind the last block.
unfoldable pub insert_last : (base count cur : ℕ) → PhysMem → PhysMem
insert_last base count cur mem =
    let h₁ = put_prev cur base mem.header in
    let h₂ = put_next cur base h₁ in
    record mem { header = put_header base (record { prev = cur; next = cur; size = count }) h₂ }

-- The loop. Its own test never ends it: the last case has made that test before.
unfoldable pub free_loop : (fuel base count cur : ℕ) → PhysMem → Option PhysMem
free_loop zero base count cur mem = none
free_loop (suc fuel) base count cur mem =
    let tmp_block = mem.header cur in
    let rest = free_loop fuel base count tmp_block.next mem in
    if base == add32 cur (bytes_of tmp_block.size)
    then some (merge_behind base count cur mem)
    else if cur == add32 base (bytes_of count)
    then some (merge_front base count cur mem)
    else if ltb base cur
    then some (insert_below base count cur mem)
    else if tmp_block.next == mem.free_pmem_pointer
    then some (insert_last base count cur mem)
    else rest

unfoldable pub free_phys_pages : (fuel base count : ℕ) → PhysMem → Option PhysMem
free_phys_pages fuel base count mem = do
  m ←
      if mem.free_pmem_pointer == no_address
      then some (record mem {
        header = put_header base (record { prev = base; next = base; size = count }) mem.header;
        free_pmem_pointer = base;
      })
      else free_loop fuel base count mem.free_pmem_pointer mem >>= λ m.
          some (if ltb base m.free_pmem_pointer then record m { free_pmem_pointer = base } else m)
  some (record m { free_pcount = add32 m.free_pcount count })

-- A block of just the size leaves the ring.
unfoldable pub unlink : (cur : ℕ) → PhysMem → PhysMem
unlink cur mem =
    let tmp_block = mem.header cur in
    let h₁ = put_prev tmp_block.next tmp_block.prev mem.header in
    let h₂ = put_next tmp_block.prev tmp_block.next h₁ in
    if cur == mem.free_pmem_pointer
    then record mem {
      header = h₂;
      free_pmem_pointer = (if tmp_block.next == cur then no_address else tmp_block.next);
    }
    else record mem { header = h₂ }

-- The loop of `alloc_phys_pages`: the address, `no_address` when it has come round.
unfoldable pub alloc_loop : (fuel count cur : ℕ) → PhysMem → Option (ℕ × PhysMem)
alloc_loop zero count cur mem = none
alloc_loop (suc fuel) count cur mem =
    let tmp_block = mem.header cur in
    let left = tmp_block.size - count in
    let rest = alloc_loop fuel count tmp_block.next mem in
    if tmp_block.size == count
    then some (cur, unlink cur mem)
    else if ltb count tmp_block.size
    then some (add32 cur (bytes_of left), record mem { header = put_size cur left mem.header })
    else if tmp_block.next == mem.free_pmem_pointer
    then some (no_address, mem)
    else rest

unfoldable pub alloc_phys_pages : (fuel count : ℕ) → PhysMem → Option (ℕ × PhysMem)
alloc_phys_pages fuel count mem =
    if ltb mem.free_pcount count
    then some (no_address, mem)
    else if mem.free_pmem_pointer == no_address
    then some (no_address, mem)
    else alloc_loop fuel count mem.free_pmem_pointer mem >>= λ r. some (
      r.0,
      (if r.0 == no_address
          then r.1
          else record r.1 { free_pcount = sub32 (r.1).free_pcount count }),
    )
