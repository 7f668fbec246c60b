-- ===== src/Heap/Laws.antt =====
-- What the callers of the allocators of src/memory.c and src/schedul.c may rely on, and may not.
use lesch_os.Base.{ℕ, ◌+◌, ◌^◌, ◌≤◌, ◌<◌, ◌≡◌, Bool, false, Option, none, some, [], arith}
use lesch_os.Heap.{
  HeapStr, page_size, rounds, find_gap, push_block, kmalloc_common, kfree, umalloc_common, ufree,
}
use lesch_os.Heap.Gap.{ahead-le-length, find_gap-IsGap}
use lesch_os.Heap.Valid.{
  IsValid, Accounted, floor, raised, push_block-IsValid, push_block-Accounted, kmalloc_common_lem,
}
use lesch_os.Heap.Free.{kfree-push_block, ufree-push_block, find_gap_zero_block}

module _ (page_entry : ℕ → ℕ) (limit size : ℕ) (align want : Bool) (h : HeapStr) (pos : 0 < size)
    (room : limit + page_size + size < 2 ^ 32) (valid : IsValid limit h) where
  -- On a valid heap where all blocks end by `limit` and `limit`, a page and the request together
  -- stay below 2^32, `kmalloc_common` of one or more bytes leaves a valid heap, whose blocks end
  -- by the sum of the three, so that the blocks given out do not meet, and keeps the account of
  -- bytes left and bytes given out.
  pub kmalloc_common-IsValid :
      (capacity : ℕ)
      → Accounted capacity h
      → (v : ℕ) (phys : Option ℕ) (h' : HeapStr)
      → kmalloc_common page_entry h size align want ≡ some (v, phys, h')
      → IsValid (raised limit size) h' × Accounted capacity h'
  kmalloc_common-IsValid capacity acc v phys h' e =
      let (u, is, gap) = kmalloc_common_lem page_entry limit size align want h pos room valid in
      let same : h' ≡ push_block h u size = cc in
      rw same (
        push_block-IsValid limit size u align h pos valid gap,
        push_block-Accounted capacity u size h (omega arith) acc,
      )

  -- On a valid heap where all blocks end by `limit` and `limit`, a page and the request together
  -- stay below 2^32, and with bytes left below 2^32: `kmalloc_common` of one or more bytes
  -- followed by `kfree` of the address gives back the heap, its blocks in order and its bytes
  -- left.
  pub kmalloc_common-kfree :
      h.size < 2 ^ 32
      → (v : ℕ) (phys : Option ℕ) (h' : HeapStr)
      → kmalloc_common page_entry h size align want ≡ some (v, phys, h')
      → kfree h' v ≡ some h
  kmalloc_common-kfree small v phys h' e =
      let (u, is, gap) = kmalloc_common_lem page_entry limit size align want h pos room valid in
      let same : h' ≡ push_block h u size = cc in
      let at : v ≡ u = cc in
      rw (same, at)
        (kfree-push_block u size h valid.unlocked (omega (arith, gap.from)) small (omega arith))

  -- `kmalloc_common` never looks at the heap's end: it returns an address also for a request that
  -- does not fit, and the block then reaches past the end.
  pub kmalloc_common_past_end :
      h.end < floor h + size
      → (v : ℕ) × (phys : Option ℕ) × (h' : HeapStr) × (kmalloc_common page_entry h size align want
          ≡ some (v, phys, h'))
        × (h'.end < v + size)
  unfolding push_block
  kmalloc_common_past_end large =
      let (u, is, gap) = kmalloc_common_lem page_entry limit size align want h pos room valid in
      (u, _, push_block h u size, is, past u gap.from)
    where
      past : (u : ℕ) → floor h ≤ u → (push_block h u size).end < u + size
      past u le = omega (arith, large)

-- On a valid user heap where all blocks end by `limit` and `limit`, a page and the request
-- together stay below 2^32, with bytes left below 2^32: `umalloc_common` of one or more bytes,
-- but no more than are left, and then `ufree` of the address leave the same blocks, but size
-- stays short by the bytes of the request.
pub umalloc_common-ufree :
    (limit size : ℕ) (align : Bool) (h : HeapStr)
    → 0 < size
    → limit + page_size + size < 2 ^ 32
    → IsValid limit h
    → size ≤ h.size
    → h.size < 2 ^ 32
    → (v : ℕ) × (h₁ : HeapStr) × (h₂ : HeapStr) × (umalloc_common h size align ≡ some (v, h₁))
      × (ufree h₁ v ≡ some h₂)
      × (h₂.blocks ≡ h.blocks)
      × (h₂.size + size ≡ h.size)
unfolding umalloc_common
umalloc_common-ufree limit size align h pos room valid fits small =
    let (v, e, gap) =
      find_gap-IsGap size limit pos room (rounds h) align h.blocks (floor h) valid.below valid.low
        (omega (arith, ahead-le-length h.blocks (floor h))) in
    let (h₂, freed, blocks, left) =
      ufree-push_block v size h valid.unlocked (omega (arith, gap.from)) fits small in
    (v, push_block h v size, h₂, rw (valid.unlocked, e), freed, blocks, left)

-- On a valid heap with no block, whose first address is below 2^31: after `kmalloc_common` of 0
-- bytes, not aligned, the search for one or more bytes below 2^31, not aligned, finds no gap in
-- any number of rounds, and `kmalloc_common` of them does not return.
pub kmalloc_common_zero :
    (page_entry : ℕ → ℕ) (limit size : ℕ) (h : HeapStr)
    → IsValid limit h
    → h.blocks ≡ []
    → floor h < 2 ^ 31
    → 0 < size
    → size < 2 ^ 31
    → (v : ℕ) × (h' : HeapStr) × (kmalloc_common page_entry h 0 false false ≡ some (v, none, h'))
      × ((fuel : ℕ) → find_gap fuel false h'.blocks size (floor h') ≡ none)
      × (kmalloc_common page_entry h' size false false ≡ none)
unfolding kmalloc_common push_block
kmalloc_common_zero page_entry limit size h valid fresh low pos fits = (
  floor h,
  push_block h (floor h) 0,
  ground arith,
  λ fuel. rw fresh (find_gap_zero_block fuel (floor h) size low pos fits),
  rw fresh (ground (arith, find_gap_zero_block 2 (floor h) size low pos fits)),
)
