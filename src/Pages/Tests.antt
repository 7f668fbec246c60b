-- ===== src/Pages/Tests.antt =====
-- Free pages at concrete addresses.
use lesch_os.Base.{
  ℕ, ◌+◌, ◌-◌, ◌≡◌, refl, none, some, [], ◌∷◌, arith, if◌then◌else◌, ◌==◌, ◌>>=◌, add32,
}
use lesch_os.Pages.{BlockPmem, PhysMem, no_address, bytes_of, alloc_phys_pages, free_phys_pages}
use lesch_os.Pages.Search.{first_fit, taken_from, alloc_phys_pages_lem}
use lesch_os.Pages.Return.{Roomy, free_phys_pages-alloc_phys_pages}
use lesch_os.Pages.Broken.{Areas, third_area_loops}

abbrev nothing : BlockPmem
nothing = record { prev = 0; next = 0; size = 0 }

-- No free memory, and two blocks of 4 and 16 pages.
abbrev no_memory : PhysMem
no_memory = record { free_pcount = 0; free_pmem_pointer = no_address; header = λ a. nothing }

abbrev two_blocks : PhysMem
two_blocks = record {
  free_pcount = 20;
  free_pmem_pointer = 1048576;
  header = λ a.
      if a == 1048576
      then record { prev = 2097152; next = 2097152; size = 4 }
      else record { prev = 1048576; next = 1048576; size = 16 };
}

alloc_phys_pages_lem_example :
    (first_fit two_blocks.header 8 1048576 (2097152 ∷ []) ≡ none
      → alloc_phys_pages 2 8 two_blocks ≡ some (no_address, two_blocks))
    × ((b : ℕ)
        → first_fit two_blocks.header 8 1048576 (2097152 ∷ []) ≡ some b
        → alloc_phys_pages 2 8 two_blocks
          ≡ some (
            add32 b (bytes_of ((two_blocks.header b).size - 8)),
            record (taken_from b 8 two_blocks).1 { free_pcount = 12 },
          ))
alloc_phys_pages_lem_example =
    alloc_phys_pages_lem 2 8 (2097152 ∷ []) two_blocks (omega arith) (omega arith) (omega arith)
      (omega arith)

roomy : Roomy 3 two_blocks
roomy = record {
  some_pages = omega arith;
  fewer = omega arith;
  in_words = omega arith;
  counted = omega arith;
  count_word = omega arith;
  apart = omega arith;
}

free_phys_pages-alloc_phys_pages_example :
    (base : ℕ) × (m₁ : PhysMem) × (m₂ : PhysMem) × (alloc_phys_pages 1 3 two_blocks
      ≡ some (base, m₁))
    × (free_phys_pages 1 base 3 m₁ ≡ some m₂)
    × (m₁.free_pcount + 3 ≡ 20)
    × (m₂.free_pcount ≡ 20)
    × (m₂.free_pmem_pointer ≡ 1048576)
    × ((p : ℕ) → m₂.header p ≡ two_blocks.header p)
free_phys_pages-alloc_phys_pages_example = free_phys_pages-alloc_phys_pages 0 3 two_blocks roomy

areas : Areas 1048576 2097152 4194304 4 4 4
areas = record { first_gap = omega arith; second_gap = omega arith; in_words = omega arith }

third_area_loops_example :
    (mem' : PhysMem) × ((free_phys_pages 3 1048576 4 no_memory >>= λ m₁.
    free_phys_pages 3 2097152 4 m₁ >>= λ m₂. free_phys_pages 3 4194304 4 m₂)
      ≡ some mem')
    × ((fuel : ℕ) → alloc_phys_pages fuel 8 mem' ≡ none)
third_area_loops_example =
    third_area_loops 1048576 2097152 4194304 4 4 4 8 no_memory areas refl refl (omega arith)
      (omega arith) (omega arith) (omega arith)
