-- ===== src/Heap.antt =====
-- src/memory.c, the kernel heap: `kheap`, `kmalloc_common`, `kfree` and `get_kheap_block`.
-- src/schedul.c, the user heap: `umalloc_common` and `ufree`.
-- An address is a number below 2^32. A call that spins for ever returns `none`.
pub mod Gap
pub mod Valid
pub mod Free
pub mod Laws
mod Tests
use lesch_os.Base.{
  ℕ, zero, suc, ◌+◌, Bool, true, false, ◌&&◌, ◌||◌, Option, none, some, List, [], ◌∷◌,
  if◌then◌else◌, ltb, leb, ◌==◌, length, bit_and, add32, sub32, ◌>>=◌,
}
use lesch_os.Sync.{acquire, clean_mtx}

-- `struct heap_memory_block`
pub record Block : Type 0 where
  pub base : ℕ
  pub size : ℕ

-- `struct heap_str`. `blocks` holds the first `count` entries of the C array, so that `count` is
-- its length.
pub record HeapStr : Type 0 where
  pub blocks : List Block
  pub start : ℕ
  pub end : ℕ
  pub size : ℕ
  pub heap_mtx : Bool

abbrev pub page_size : ℕ
page_size = 0x1000

-- `sizeof(heap_s)`
abbrev pub heap_header : ℕ
heap_header = 24

unfoldable pub overlapped_blocks : ℕ → ℕ → ℕ → ℕ → Bool
unfolding add32
overlapped_blocks base1 size1 base2 size2 =
    (leb base2 base1 && ltb base1 (add32 base2 size2))
    || (leb base1 base2 && ltb base2 (add32 base1 size1))

-- Under `align`, the address moved up to a page's start.
unfoldable pub align_page : Bool → ℕ → ℕ
unfolding add32
align_page align vaddr =
    if align && (ltb 0 (bit_and vaddr 0x0fff))
    then add32 (bit_and vaddr 0xffff_f000) page_size
    else vaddr

-- The inner loop, from the last block to the first, on `vaddr` and `overlap`.
unfoldable pub pass : List Block → (size vaddr : ℕ) → ℕ × Bool
unfolding overlapped_blocks add32
pass [] size vaddr = (vaddr, false)
pass (b ∷ bs) size vaddr =
    let (v, overlap) = pass bs size vaddr in
    if overlapped_blocks b.base b.size v size then (add32 b.base b.size, true) else (v, overlap)

-- The outer loop: passes until one moves nothing.
unfoldable pub find_gap : (fuel : ℕ) → Bool → List Block → (size vaddr : ℕ) → Option ℕ
unfolding pass align_page
find_gap zero align blocks size vaddr = none
find_gap (suc fuel) align blocks size vaddr =
    let (v, overlap) = pass blocks size (align_page align vaddr) in
    let again = find_gap fuel align blocks size v in if overlap then again else some v

-- The block is put first in the array, and its size is taken from what is left.
unfoldable pub push_block : HeapStr → (vaddr size : ℕ) → HeapStr
unfolding sub32
push_block h vaddr size = record h {
  blocks = record { base = vaddr; size = size } ∷ h.blocks;
  size = sub32 h.size size;
  heap_mtx = clean_mtx;
}

-- One round for each block, and one that finds the gap.
abbrev pub rounds : HeapStr → ℕ
rounds h = suc (length h.blocks)

-- `kmalloc_common` returns the address, what is written through `phys_addr` if that is not NULL
-- (`want`), and the heap. `page_entry` is `get_page_info` of the kernel's page directory.
unfoldable pub kmalloc_common :
    (page_entry : ℕ → ℕ)
    → HeapStr
    → (size : ℕ) (align want : Bool) → Option (ℕ × Option ℕ × HeapStr)
unfolding acquire find_gap push_block
kmalloc_common page_entry h size align want = do
  locked ← acquire h.heap_mtx
  vaddr ← find_gap (rounds h) align h.blocks size (h.start + heap_header)
  let phys = if want then some (bit_and (page_entry vaddr) 0xffff_f000) else none
  some (vaddr, phys, push_block h vaddr size)

-- The index of the first block at `vaddr`, or the number of blocks.
unfoldable pub block_index : ℕ → List Block → ℕ
block_index vaddr [] = 0
block_index vaddr (b ∷ bs) = if vaddr == b.base then 0 else suc (block_index vaddr bs)

-- The blocks behind index `i` move down by one.
unfoldable pub shift_down : ℕ → List Block → List Block
shift_down i [] = []
shift_down zero (b ∷ bs) = bs
shift_down (suc i) (b ∷ bs) = b ∷ shift_down i bs

unfoldable pub size_at : List Block → ℕ → ℕ
size_at [] i = 0
size_at (b ∷ bs) zero = b.size
size_at (b ∷ bs) (suc i) = size_at bs i

unfoldable pub kfree : HeapStr → (vaddr : ℕ) → Option HeapStr
unfolding acquire block_index shift_down size_at add32
kfree h vaddr = do
  locked ← acquire h.heap_mtx
  let i = block_index vaddr h.blocks
  if vaddr == 0 || i == length h.blocks
      then some (record h { heap_mtx = clean_mtx })
      else some (record h {
        blocks = shift_down i h.blocks;
        size = add32 h.size (size_at h.blocks i);
        heap_mtx = clean_mtx;
      })

-- `get_kheap_block`: the index of a block, `none` for -1. The two early returns keep the mutex.
unfoldable pub get_kheap_block : HeapStr → (vaddr : ℕ) → Option (Option ℕ × HeapStr)
unfolding acquire block_index
get_kheap_block h vaddr = do
  locked ← acquire h.heap_mtx
  let i = block_index vaddr h.blocks
  if vaddr == 0 || i == length h.blocks
      then some (none, record h { heap_mtx = true })
      else some (some i, record h { heap_mtx = clean_mtx })

-- `umalloc_common` takes the user heap through the same steps, and has no `phys_addr`.
unfoldable pub umalloc_common : HeapStr → (size : ℕ) (align : Bool) → Option (ℕ × HeapStr)
unfolding acquire find_gap push_block
umalloc_common h size align = do
  locked ← acquire h.heap_mtx
  vaddr ← find_gap (rounds h) align h.blocks size (h.start + heap_header)
  some (vaddr, push_block h vaddr size)

-- `ufree`. Its loop compares `size == blocks[i].size` where `kfree` assigns, so `size` stays 0.
unfoldable pub ufree : HeapStr → (vaddr : ℕ) → Option HeapStr
unfolding acquire block_index shift_down add32
ufree h vaddr = do
  locked ← acquire h.heap_mtx
  let i = block_index vaddr h.blocks
  if vaddr == 0 || i == length h.blocks
      then some (record h { heap_mtx = clean_mtx })
      else some
          (record h { blocks = shift_down i h.blocks; size = add32 h.size 0; heap_mtx = clean_mtx })
