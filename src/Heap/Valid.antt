-- ===== src/Heap/Valid.antt =====
-- The invariant of a heap of src/memory.c and src/schedul.c, and that the allocators keep it.
use lesch_os.Base.{
  ℕ, ◌+◌, ◌%◌, ◌^◌, ◌≤◌, ◌<◌, ◌≡◌, refl, Bool, false, Option, some, List, [], ◌∷◌, arith,
  if◌then◌else◌, All, bit_and, sub32,
}
use lesch_os.Heap.{Block, HeapStr, page_size, heap_header, rounds, push_block, kmalloc_common}
use lesch_os.Heap.Gap.{Apart, Below, IsGap, ahead-le-length, find_gap-IsGap}

abbrev pub Disjoint : List Block → Type 0
Disjoint [] = Unit
Disjoint (b ∷ bs) = All (Apart b.base b.size) bs × Disjoint bs

unfoldable pub total : List Block → ℕ
total [] = 0
total (b ∷ bs) = b.size + total bs

abbrev pub floor : HeapStr → ℕ
floor h = h.start + heap_header

-- The blocks are not empty, do not meet, and lie between the heap's header and `limit`; the mutex
-- is free.
pub record IsValid (limit : ℕ) (h : HeapStr) : Type 0 where
  pub unlocked : h.heap_mtx ≡ false
  pub low : floor h ≤ limit
  pub above : All (λ b. floor h ≤ b.base) h.blocks
  pub below : All (Below limit) h.blocks
  pub disjoint : Disjoint h.blocks

-- The bytes left and those given out make up `cap`, in the arithmetic of the machine.
abbrev pub Accounted : ℕ → HeapStr → Type 0
Accounted cap h = (h.size + total h.blocks) % 2 ^ 32 ≡ cap % 2 ^ 32

pub block : ℕ → ℕ → Block
block v n = record { base = v; size = n }

Below-mono : (a b : ℕ) (bs : List Block) → a ≤ b → All (Below a) bs → All (Below b) bs
Below-mono a b [] h p = p
Below-mono a b (x ∷ bs) h p = (omega arith, Below-mono a b bs h p.1)

-- The limit below which the blocks lie once `size` bytes more are given out.
abbrev pub raised : ℕ → ℕ → ℕ
raised limit size = limit + page_size + size

pub push_block-IsValid :
    (limit size v : ℕ) (align : Bool) (h : HeapStr)
    → 0 < size
    → IsValid limit h
    → IsGap size limit align h.blocks (floor h) v
    → IsValid (raised limit size) (push_block h v size)
unfolding push_block
push_block-IsValid limit size v align h pos valid gap = record {
  unlocked = refl;
  low = omega (arith, valid.low);
  above = (gap.from, valid.above);
  below = (
    (pos, omega (arith, gap.under)),
    Below-mono limit (raised limit size) h.blocks (omega arith) valid.below,
  );
  disjoint = (gap.apart, valid.disjoint);
}

pub push_block-Accounted :
    (cap v size : ℕ) (h : HeapStr)
    → size < 2 ^ 32
    → Accounted cap h
    → Accounted cap (push_block h v size)
unfolding push_block total sub32
push_block-Accounted cap v size h small acc = omega arith

module _ (page_entry : ℕ → ℕ) (limit size : ℕ) (align want : Bool) (h : HeapStr) where
  -- On a valid heap where all blocks end by `limit` and `limit`, a page and the request together
  -- stay below 2^32, `kmalloc_common` of one or more bytes returns: its passes end. The address
  -- is the lowest one from the heap's header on that lies on a page if asked for and whose bytes
  -- meet no block; the block is put first in the array.
  pub kmalloc_common_lem :
      0 < size
      → limit + page_size + size < 2 ^ 32
      → IsValid limit h
      → (v : ℕ) × (kmalloc_common page_entry h size align want
          ≡ some (
            v,
            (if want then some (bit_and (page_entry v) 0xffff_f000) else Option.none),
            push_block h v size,
          ))
        × IsGap size limit align h.blocks (floor h) v
  unfolding kmalloc_common
  kmalloc_common_lem pos room valid =
      let (v, e, gap) =
        find_gap-IsGap size limit pos room (rounds h) align h.blocks (floor h) valid.below valid.low
          (omega (arith, ahead-le-length h.blocks (floor h))) in
      (v, rw (valid.unlocked, e), gap)
