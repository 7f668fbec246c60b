-- ===== src/Pages/Search.antt =====
-- src/memory.c: the search of alloc_phys_pages round the ring.
use lesch_os.Base.{
  ℕ, zero, suc, ◌+◌, ◌-◌, ◌%◌, ◌^◌, ◌≤◌, ◌<◌, ◌≡◌, ◌≢◌, refl, true, false, Option, none, some, List,
  [], ◌∷◌, arith, if◌then◌else◌, ltb, leb, ◌==◌, add32, sub32, length, Bool-cases, inl, inr, ap,
  sym, ◌∙◌,
}
use lesch_os.Pages.{
  BlockPmem, PhysMem, no_address, bytes_of, put_size, unlink, alloc_loop, alloc_phys_pages,
}

-- The address of a page.
abbrev pub IsPage : ℕ → Type 0
IsPage p = (p < 2 ^ 32) × (p % 2 ^ 12 ≡ 0)

-- The blocks from `cur` on, up to the one whose next is `stop`.
abbrev pub IsWalk : (header : ℕ → BlockPmem) (stop cur : ℕ) (later : List ℕ) → Type 0
IsWalk header stop cur [] = IsPage cur × ((header cur).next ≡ stop)
IsWalk header stop cur (n ∷ later) =
    IsPage cur × ((header cur).next ≡ n) × (n ≢ stop) × IsWalk header stop n later

-- The first block of them that has enough pages.
abbrev pub first_fit : (header : ℕ → BlockPmem) (count cur : ℕ) (later : List ℕ) → Option ℕ
first_fit header count cur [] = if leb count (header cur).size then some cur else none
first_fit header count cur (n ∷ later) =
    let rest = first_fit header count n later in
    if leb count (header cur).size then some cur else rest

-- The pages that `alloc_phys_pages` takes from a block: the last ones.
abbrev pub taken_from : (b count : ℕ) → PhysMem → ℕ × PhysMem
taken_from b count mem =
    let left = (mem.header b).size - count in
    (
      add32 b (bytes_of left),
      (if left == 0 then unlink b mem else record mem { header = put_size b left mem.header }),
    )

abbrev pub outcome : (count : ℕ) → PhysMem → Option ℕ → ℕ × PhysMem
outcome count mem none = (no_address, mem)
outcome count mem (some b) = taken_from b count mem

-- One round of the loop.
module _ (fuel count cur : ℕ) (mem : PhysMem) where
  round_fits :
      cur < 2 ^ 32
      → leb count (mem.header cur).size ≡ true
      → alloc_loop (suc fuel) count cur mem ≡ some (taken_from cur count mem)
  unfolding alloc_loop add32
  round_fits small h = elim (Bool-cases ((mem.header cur).size == count)) [
    | inl e ↦
        let left : (mem.header cur).size - count ≡ 0 = ground arith in
        let here : (cur + 0) % 2 ^ 32 ≡ cur = omega arith in rw (e, left, here) refl
    | inr e ↦
        let more : ltb count (mem.header cur).size ≡ true = ground arith in
        let left : ((mem.header cur).size - count == 0) ≡ false = ground arith in
        rw (e, more, left) refl
  ]

  round_ends :
      leb count (mem.header cur).size ≡ false
      → (mem.header cur).next ≡ mem.free_pmem_pointer
      → alloc_loop (suc fuel) count cur mem ≡ some (no_address, mem)
  unfolding alloc_loop
  round_ends h e = ground arith

  pub round_goes_on :
      (n : ℕ)
      → leb count (mem.header cur).size ≡ false
      → (mem.header cur).next ≡ n
      → n ≢ mem.free_pmem_pointer
      → alloc_loop (suc fuel) count cur mem ≡ alloc_loop fuel count n mem
  unfolding alloc_loop
  round_goes_on n h e ne = ground (arith, ap (λ k. alloc_loop fuel count k mem) e)

alloc_loop_lem :
    (fuel count cur : ℕ) (later : List ℕ) (mem : PhysMem)
    → IsWalk mem.header mem.free_pmem_pointer cur later
    → length later < fuel
    → alloc_loop fuel count cur mem
      ≡ some (outcome count mem (first_fit mem.header count cur later))
alloc_loop_lem zero count cur later mem w enough = absurd (omega arith)
alloc_loop_lem (suc fuel) count cur [] mem w enough =
    elim (Bool-cases (leb count (mem.header cur).size)) [
      | inl fits ↦ rw fits (round_fits fuel count cur mem w.0.0 fits)
      | inr short ↦ rw short (round_ends fuel count cur mem short w.1)
    ]
alloc_loop_lem (suc fuel) count cur (n ∷ later) mem w enough =
    elim (Bool-cases (leb count (mem.header cur).size)) [
      | inl fits ↦ rw fits (round_fits fuel count cur mem w.0.0 fits)
      | inr short ↦ rw short (
          round_goes_on fuel count cur mem n short w.1 w.2
          ∙ alloc_loop_lem fuel count n later mem w.3 (omega arith))
    ]

-- What is found is a page, and has enough pages.
first_fit-IsPage :
    (header : ℕ → BlockPmem) (stop count cur : ℕ) (later : List ℕ) (b : ℕ)
    → IsWalk header stop cur later
    → first_fit header count cur later ≡ some b
    → IsPage b × (count ≤ (header b).size)
first_fit-IsPage header stop count cur [] b w e = elim (Bool-cases (leb count (header cur).size)) [
  | inl fits ↦ let is : cur ≡ b = ground arith in rw (sym is) (w.0, ground arith)
  | inr short ↦ absurd (ground arith)
]
first_fit-IsPage header stop count cur (n ∷ later) b w e =
    elim (Bool-cases (leb count (header cur).size)) [
      | inl fits ↦ let is : cur ≡ b = ground arith in rw (sym is) (w.0, ground arith)
      | inr short ↦ first_fit-IsPage header stop count n later b w.3 (rw short at e)
    ]

walk_begins :
    (header : ℕ → BlockPmem) (stop cur : ℕ) (later : List ℕ)
    → IsWalk header stop cur later
    → IsPage cur
walk_begins header stop cur [] w = w.0
walk_begins header stop cur (n ∷ later) w = w.0

taken_from_count :
    (b count : ℕ) (mem : PhysMem)
    → count ≤ mem.free_pcount
    → mem.free_pcount < 2 ^ 32
    → sub32 (taken_from b count mem).1.free_pcount count ≡ mem.free_pcount - count
unfolding unlink sub32
taken_from_count b count mem few small = ground arith

-- On a ring of blocks that starts at `free_pmem_pointer`, each at the address of a page, with a
-- round for each block, `alloc_phys_pages` of no more pages than are counted returns. It takes the
-- last pages of the first block that has enough, and counts them off; where no block has enough it
-- returns -1 and changes nothing.
pub alloc_phys_pages_lem :
    (fuel count : ℕ) (later : List ℕ) (mem : PhysMem)
    → IsWalk mem.header mem.free_pmem_pointer mem.free_pmem_pointer later
    → length later < fuel
    → count ≤ mem.free_pcount
    → mem.free_pcount < 2 ^ 32
    → (first_fit mem.header count mem.free_pmem_pointer later ≡ none
        → alloc_phys_pages fuel count mem ≡ some (no_address, mem))
      × ((b : ℕ)
          → first_fit mem.header count mem.free_pmem_pointer later ≡ some b
          → alloc_phys_pages fuel count mem
            ≡ some (
              add32 b (bytes_of ((mem.header b).size - count)),
              record (taken_from b count mem).1 { free_pcount = mem.free_pcount - count },
            ))
unfolding alloc_phys_pages add32
alloc_phys_pages_lem fuel count later mem w enough few small =
    let counted : ltb mem.free_pcount count ≡ false = ground arith in
    let begins : (mem.free_pmem_pointer == no_address) ≡ false =
      ground (arith, walk_begins mem.header mem.free_pmem_pointer mem.free_pmem_pointer later w) in
    let loop = alloc_loop_lem fuel count mem.free_pmem_pointer later mem w enough in
    (
      λ e. rw (counted, begins, loop, e) refl,
      λ b e.
          let (page, has) =
            first_fit-IsPage mem.header mem.free_pmem_pointer count mem.free_pmem_pointer later b w
              e in
          let there : ((b + bytes_of ((mem.header b).size - count)) % 2 ^ 32 == no_address)
              ≡ false =
            ground arith in
          rw (counted, begins, loop, e, there)
            (ap
              (λ k. some (
                add32 b (bytes_of ((mem.header b).size - count)),
                record (taken_from b count mem).1 { free_pcount = k },
              ))
              (taken_from_count b count mem few small)),
    )
