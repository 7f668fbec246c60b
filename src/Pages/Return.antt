-- ===== src/Pages/Return.antt =====
-- src/memory.c: free_phys_pages of what alloc_phys_pages took from the first block.
use lesch_os.Base.{
  ℕ, suc, ◌+◌, ◌-◌, ◌*◌, ◌%◌, ◌^◌, ◌≤◌, ◌<◌, ◌≡◌, ◌≢◌, refl, true, false, some, arith, ltb, ◌==◌,
  add32, sub32, eq→==, ==→eq, ne→==, Bool-cases, inl, inr, ap, sym, ◌∙◌,
}
use lesch_os.Pages.{
  BlockPmem, PhysMem, no_address, bytes_of, put_size, alloc_loop, alloc_phys_pages, merge_behind,
  free_loop, free_phys_pages,
}

-- The loop has put the area behind the last block.
pub area_put :
    (fuel base count : ℕ) (mem m : PhysMem)
    → mem.free_pmem_pointer ≢ no_address
    → free_loop fuel base count mem.free_pmem_pointer mem ≡ some m
    → m.free_pmem_pointer ≤ base
    → free_phys_pages fuel base count mem
      ≡ some (record m { free_pcount = add32 m.free_pcount count })
unfolding free_phys_pages
area_put fuel base count mem m ptr e below =
    let no : (mem.free_pmem_pointer == no_address) ≡ false = ground arith in
    let le : ltb base m.free_pmem_pointer ≡ false = ground arith in rw (no, e, le) refl

-- The loop at a block that ends where the pages begin.
meets :
    (fuel base count cur : ℕ) (mem : PhysMem)
    → base ≡ add32 cur (bytes_of (mem.header cur).size)
    → free_loop (suc fuel) base count cur mem ≡ some (merge_behind base count cur mem)
unfolding free_loop
meets fuel base count cur mem e = rw (eq→== base _ e) refl

merge_alone :
    (base count cur : ℕ) (mem : PhysMem)
    → (mem.header cur).next ≢ add32 base (bytes_of count)
    → merge_behind base count cur mem
      ≡ record mem { header = put_size cur (add32 (mem.header cur).size count) mem.header }
unfolding merge_behind
merge_alone base count cur mem ne =
    let same : (cur == cur) ≡ true = ground arith in
    let far = ne→== (mem.header cur).next (add32 base (bytes_of count)) ne in rw (same, far) refl

whole_lem : (n count : ℕ) → count ≤ n → n < 2 ^ 32 → add32 (n - count) count ≡ n
unfolding add32
whole_lem n count h small = omega arith

behind_lem :
    (p size count : ℕ)
    → p + size * 2 ^ 12 < 2 ^ 32
    → p + (size - count) * 2 ^ 12 ≡ add32 p (bytes_of (size - count))
unfolding add32
behind_lem p size count small = omega arith

end_lem :
    (p size count : ℕ)
    → count ≤ size
    → p + size * 2 ^ 12 < 2 ^ 32
    → add32 (p + (size - count) * 2 ^ 12) (bytes_of count) ≡ p + size * 2 ^ 12
unfolding add32
end_lem p size count h small = omega arith

put_back :
    (p a size : ℕ) (header : ℕ → BlockPmem)
    → put_size a (header a).size (put_size a size header) p ≡ header p
put_back p a size header = elim (Bool-cases (p == a)) [
  | inl e ↦
      let same : (a == a) ≡ true = ground arith in rw (e, same) (ap header (sym (==→eq p a e)))
  | inr ne ↦ rw ne refl
]

-- Asking for fewer pages than the first block has.
pub record Roomy (count : ℕ) (mem : PhysMem) : Type 0 where
  pub some_pages : 0 < count
  pub fewer : count < (mem.header mem.free_pmem_pointer).size
  pub in_words :
      mem.free_pmem_pointer + (mem.header mem.free_pmem_pointer).size * 2 ^ 12 < 2 ^ 32 - 1
  pub counted : count ≤ mem.free_pcount
  pub count_word : mem.free_pcount < 2 ^ 32
  pub apart :
      (mem.header mem.free_pmem_pointer).next
      ≢ mem.free_pmem_pointer + (mem.header mem.free_pmem_pointer).size * 2 ^ 12

module _ (fuel count : ℕ) (mem : PhysMem) (h : Roomy count mem) where
  start : ℕ
  start = mem.free_pmem_pointer

  left : ℕ
  left = (mem.header start).size - count

  after_alloc : PhysMem
  after_alloc = record mem {
    header = put_size start left mem.header;
    free_pcount = mem.free_pcount - count;
  }

  alloc_first : alloc_phys_pages (suc fuel) count mem ≡ some (start + left * 2 ^ 12, after_alloc)
  unfolding alloc_phys_pages alloc_loop add32 sub32 start left after_alloc
  alloc_first =
      let size : ℕ = (mem.header mem.free_pmem_pointer).size in
      let enough : ltb mem.free_pcount count ≡ false = ground (arith, h.counted) in
      let begins : (mem.free_pmem_pointer == no_address) ≡ false = ground (arith, h.in_words) in
      let other : (size == count) ≡ false = ground (arith, h.fewer) in
      let more : ltb count size ≡ true = ground (arith, h.fewer) in
      let there : (mem.free_pmem_pointer + (size - count) * 2 ^ 12 % 2 ^ 32) % 2 ^ 32
          ≡ mem.free_pmem_pointer + (size - count) * 2 ^ 12 =
        omega (arith, h.in_words, h.fewer) in
      let found : (mem.free_pmem_pointer + (size - count) * 2 ^ 12 == no_address) ≡ false =
        ground (arith, h.in_words, h.fewer) in
      let charged : (mem.free_pcount + 2 ^ 32 - count) % 2 ^ 32 ≡ mem.free_pcount - count =
        omega (arith, h.counted, h.count_word) in
      rw (enough, begins, other, more, there, found, charged) refl

  free_first :
      free_phys_pages (suc fuel) (start + left * 2 ^ 12) count after_alloc
      ≡ some (record mem {
        header = put_size start (mem.header start).size (put_size start left mem.header);
      })
  unfolding start left after_alloc
  free_first =
      let p : ℕ = mem.free_pmem_pointer in
      let size : ℕ = (mem.header p).size in
      let base : ℕ = p + (size - count) * 2 ^ 12 in
      let at : (after_alloc.header p).size ≡ size - count = ground arith in
      let nx : (after_alloc.header p).next ≡ (mem.header p).next = ground arith in
      let behind : base ≡ add32 p (bytes_of (after_alloc.header p).size) =
        behind_lem p size count (omega (arith, h.in_words))
        ∙ ap (λ s. add32 p (bytes_of s)) (sym at) in
      let whole : add32 (after_alloc.header p).size count ≡ size =
        ap (λ s. add32 s count) at
        ∙ whole_lem size count (omega (arith, h.fewer)) (omega (arith, h.in_words)) in
      let far : (after_alloc.header p).next ≢ add32 base (bytes_of count) = λ e. h.apart (
        sym nx ∙ (e ∙ end_lem p size count (omega (arith, h.fewer)) (omega (arith, h.in_words)))) in
      let m = record after_alloc { header = put_size p size after_alloc.header } in
      let merged : merge_behind base count p after_alloc ≡ m =
        merge_alone base count p after_alloc far
        ∙ ap (λ s. record after_alloc { header = put_size p s after_alloc.header }) whole in
      let back : add32 (mem.free_pcount - count) count ≡ mem.free_pcount =
        whole_lem mem.free_pcount count h.counted h.count_word in
      area_put (suc fuel) base count after_alloc m (omega (arith, h.in_words))
        (meets fuel base count p after_alloc behind ∙ ap some merged) (omega arith)
      ∙ ap (λ c. some (record m { free_pcount = c })) back

-- For one page or more, where the first block has more pages than are asked for, ends below the
-- last address, and the next block does not lie right behind it, `alloc_phys_pages` takes its last
-- pages, and `free_phys_pages` of them gives back the counts, the start of the ring and every
-- header.
pub free_phys_pages-alloc_phys_pages :
    (fuel count : ℕ) (mem : PhysMem)
    → Roomy count mem
    → (base : ℕ) × (m₁ : PhysMem) × (m₂ : PhysMem) × (alloc_phys_pages (suc fuel) count mem
        ≡ some (base, m₁))
      × (free_phys_pages (suc fuel) base count m₁ ≡ some m₂)
      × (m₁.free_pcount + count ≡ mem.free_pcount)
      × (m₂.free_pcount ≡ mem.free_pcount)
      × (m₂.free_pmem_pointer ≡ mem.free_pmem_pointer)
      × ((p : ℕ) → m₂.header p ≡ mem.header p)
unfolding start left after_alloc
free_phys_pages-alloc_phys_pages fuel count mem h = (
  _,
  _,
  _,
  alloc_first fuel count mem h,
  free_first fuel count mem h,
  omega (arith, h.counted),
  refl,
  refl,
  λ p. put_back p mem.free_pmem_pointer _ mem.header,
)
