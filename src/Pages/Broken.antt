-- ===== src/Pages/Broken.antt =====
-- src/memory.c: three free areas, one after the other.
use lesch_os.Base.{
  ℕ, zero, suc, ◌+◌, ◌-◌, ◌*◌, ◌^◌, ◌≤◌, ◌<◌, ◌≡◌, ◌≢◌, refl, false, none, some, arith, ltb, ◌==◌,
  ◌>>=◌, add32, ap, ◌∙◌,
}
use lesch_os.Pages.{
  PhysMem, no_address, put_header, insert_last, alloc_loop, alloc_phys_pages, free_loop,
  free_phys_pages,
}
use lesch_os.Pages.Search.{round_goes_on}
use lesch_os.Pages.Return.{area_put}

-- Two blocks that name each other as next, and the search never comes to the ring's start.
endless :
    (fuel count b c : ℕ) (mem : PhysMem)
    → (mem.header b).size < count
    → (mem.header c).size < count
    → (mem.header b).next ≡ c
    → (mem.header c).next ≡ b
    → b ≢ mem.free_pmem_pointer
    → c ≢ mem.free_pmem_pointer
    → (alloc_loop fuel count b mem ≡ none) × (alloc_loop fuel count c mem ≡ none)
unfolding alloc_loop
endless zero count b c mem sb sc nb nc hb hc = (refl, refl)
endless (suc fuel) count b c mem sb sc nb nc hb hc =
    let later = endless fuel count b c mem sb sc nb nc hb hc in
    (
      round_goes_on fuel count b mem c (ground arith) nb hc ∙ later.1,
      round_goes_on fuel count c mem b (ground arith) nc hb ∙ later.0,
    )

from_start :
    (fuel count a b c : ℕ) (mem : PhysMem)
    → (mem.header a).size < count
    → (mem.header a).next ≡ b
    → (mem.header b).size < count
    → (mem.header c).size < count
    → (mem.header b).next ≡ c
    → (mem.header c).next ≡ b
    → b ≢ mem.free_pmem_pointer
    → c ≢ mem.free_pmem_pointer
    → alloc_loop fuel count a mem ≡ none
unfolding alloc_loop
from_start zero count a b c mem sa na sb sc nb nc hb hc = refl
from_start (suc fuel) count a b c mem sa na sb sc nb nc hb hc =
    round_goes_on fuel count a mem b (ground arith) na hb
    ∙ (endless fuel count b c mem sb sc nb nc hb hc).0

-- Three areas of free memory, in order, with a gap between each and the next.
pub record Areas (a b c n m k : ℕ) : Type 0 where
  pub first_gap : a + n * 2 ^ 12 < b
  pub second_gap : b + m * 2 ^ 12 < c
  pub in_words : c + k * 2 ^ 12 < 2 ^ 32 - 1

first_area :
    (fuel a n : ℕ) (mem : PhysMem)
    → mem.free_pmem_pointer ≡ no_address
    → free_phys_pages fuel a n mem
      ≡ some (record mem {
        header = put_header a (record { prev = a; next = a; size = n }) mem.header;
        free_pmem_pointer = a;
        free_pcount = add32 mem.free_pcount n;
      })
unfolding free_phys_pages
first_area fuel a n mem e = rw e refl

-- One round of the loop for an area that lies behind the block, with a gap.
module _ (fuel base count cur : ℕ) (mem : PhysMem)
    (gap : cur + (mem.header cur).size * 2 ^ 12 < base)
    (words : base + count * 2 ^ 12 < 2 ^ 32 - 1) where
  goes_last :
      (mem.header cur).next ≡ mem.free_pmem_pointer
      → free_loop (suc fuel) base count cur mem ≡ some (insert_last base count cur mem)
  unfolding free_loop add32
  goes_last e = ground arith

  goes_on :
      (n : ℕ)
      → (mem.header cur).next ≡ n
      → n ≢ mem.free_pmem_pointer
      → free_loop (suc fuel) base count cur mem ≡ free_loop fuel base count n mem
  unfolding free_loop add32
  goes_on n e ne = ground (arith, ap (λ t. free_loop fuel base count t mem) e)

-- From no free memory, three areas are freed in order, with gaps between them. A later search for
-- more pages than each of them has, though together they have enough, runs out of any number of
-- rounds.
pub third_area_loops :
    (a b c n m k count : ℕ) (mem : PhysMem)
    → Areas a b c n m k
    → mem.free_pmem_pointer ≡ no_address
    → mem.free_pcount ≡ 0
    → n < count
    → m < count
    → k < count
    → count ≤ n + m + k
    → (mem' : PhysMem) × ((free_phys_pages 3 a n mem >>= λ m₁.
          free_phys_pages 3 b m m₁ >>= λ m₂. free_phys_pages 3 c k m₂)
        ≡ some mem')
      × ((fuel : ℕ) → alloc_phys_pages fuel count mem' ≡ none)
unfolding alloc_phys_pages insert_last add32
third_area_loops a b c n m k count mem h empty zero_free hn hm hk enough =
    let mem₁ = record mem {
      header = put_header a (record { prev = a; next = a; size = n }) mem.header;
      free_pmem_pointer = a;
      free_pcount = add32 mem.free_pcount n;
    } in
    let mem₂ = record (insert_last b m a mem₁) { free_pcount = add32 mem₁.free_pcount m } in
    let mem₃ = record (insert_last c k b mem₂) { free_pcount = add32 mem₂.free_pcount k } in
    let one = first_area 3 a n mem empty in
    let a₁ : ((mem₁.header a).size ≡ n) × ((mem₁.header a).next ≡ a) = ground arith in
    let two : free_phys_pages 3 b m mem₁ ≡ some mem₂ =
      area_put 3 b m mem₁ (insert_last b m a mem₁) (omega arith)
        (goes_last 2 b m a mem₁ (ground (arith, a₁)) (omega arith) a₁.1) (omega arith) in
    let a₂ : ((mem₂.header a).size ≡ n) × ((mem₂.header a).next ≡ b) = ground arith in
    let b₂ : ((mem₂.header b).size ≡ m) × ((mem₂.header b).next ≡ a) = ground arith in
    let three : free_phys_pages 3 c k mem₂ ≡ some mem₃ =
      area_put 3 c k mem₂ (insert_last c k b mem₂) (omega arith)
        (goes_on 2 c k a mem₂ (ground (arith, a₂)) (omega arith) b a₂.1 (omega arith)
          ∙ goes_last 1 c k b mem₂ (ground (arith, b₂)) (omega arith) b₂.1)
        (omega arith) in
    let a₃ : ((mem₃.header a).size ≡ n) × ((mem₃.header a).next ≡ b) = ground arith in
    let b₃ : ((mem₃.header b).size ≡ m) × ((mem₃.header b).next ≡ c) = ground arith in
    let c₃ : ((mem₃.header c).size ≡ k) × ((mem₃.header c).next ≡ b) = ground arith in
    let counted : ltb mem₃.free_pcount count ≡ false = ground arith in
    let begins : (a == no_address) ≡ false = ground arith in
    (
      mem₃,
      rw (one, two) three,
      λ fuel.
          rw
            (
              counted,
              begins,
              from_start fuel count a b c mem₃ (omega (arith, a₃)) a₃.1 (omega (arith, b₃))
                  (omega (arith, c₃)) b₃.1 c₃.1 (omega arith) (omega arith),
            )
            refl,
    )
