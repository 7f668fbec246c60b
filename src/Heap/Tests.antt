-- ===== src/Heap/Tests.antt =====
-- The allocators of src/memory.c and src/schedul.c at concrete heaps.
use lesch_os.Base.{ℕ, ◌+◌, ◌≡◌, refl, true, false, none, some, [], ◌∷◌, arith}
use lesch_os.Heap.{HeapStr, find_gap, push_block, kmalloc_common, kfree, umalloc_common, ufree}
use lesch_os.Heap.Gap.{IsGap}
use lesch_os.Heap.Valid.{IsValid, Accounted, floor, raised, total, kmalloc_common_lem}
use lesch_os.Heap.Free.{Unused, kfree-IsValid}
use lesch_os.Heap.Laws.{
  kmalloc_common-IsValid, kmalloc_common-kfree, umalloc_common-ufree, kmalloc_common_zero,
}

-- Two blocks with a gap between them.
abbrev used : HeapStr
used = record {
  blocks = record { base = 0x2000; size = 0x20 } ∷ record { base = 0x1018; size = 0x100 } ∷ [];
  start = 0x1000;
  end = 0x9000;
  size = 0x7ee0;
  heap_mtx = false;
}

abbrev fresh : HeapStr
fresh = record { blocks = []; start = 0x1000; end = 0x9000; size = 0x8000; heap_mtx = false }

-- The page table of the tests maps each page to the frame above it.
abbrev entries : ℕ → ℕ
entries v = v + 0x1003

used-IsValid : IsValid 0x3000 used
used-IsValid = record {
  unlocked = refl;
  low = omega arith;
  above = omega arith;
  below = omega arith;
  disjoint = omega arith;
}

fresh-IsValid : IsValid 0x3000 fresh
fresh-IsValid = record {
  unlocked = refl;
  low = omega arith;
  above = omega arith;
  below = omega arith;
  disjoint = omega arith;
}

used-Accounted : Accounted 0x8000 used
unfolding total
used-Accounted = refl

fits_between : umalloc_common used 0x40 false ≡ some (0x1118, push_block used 0x1118 0x40)
unfolding umalloc_common
fits_between = refl

aligned_behind :
    kmalloc_common entries used 0x40 true true
    ≡ some (0x3000, some 0x4000, push_block used 0x3000 0x40)
unfolding kmalloc_common
aligned_behind = refl

kmalloc_common_lem_example :
    (v : ℕ) × (kmalloc_common entries used 0x40 false false
      ≡ some (v, none, push_block used v 0x40))
    × IsGap 0x40 0x3000 false used.blocks 0x1018 v
kmalloc_common_lem_example =
    kmalloc_common_lem entries 0x3000 0x40 false false used (omega arith) (omega arith) used-IsValid

kmalloc_common-IsValid_example :
    IsValid (raised 0x3000 0x40) (push_block used 0x1118 0x40)
    × Accounted 0x8000 (push_block used 0x1118 0x40)
unfolding kmalloc_common
kmalloc_common-IsValid_example =
    kmalloc_common-IsValid entries 0x3000 0x40 false false used (omega arith) (omega arith)
      used-IsValid 0x8000 used-Accounted 0x1118 none (push_block used 0x1118 0x40) refl

kmalloc_common-kfree_example : kfree (push_block used 0x1118 0x40) 0x1118 ≡ some used
unfolding kmalloc_common
kmalloc_common-kfree_example =
    kmalloc_common-kfree entries 0x3000 0x40 false false used (omega arith) (omega arith)
      used-IsValid (omega arith) 0x1118 none (push_block used 0x1118 0x40) refl

kfree-IsValid_example :
    (h' : HeapStr) × (kfree used 0x2000 ≡ some h')
    × IsValid 0x3000 h'
    × Accounted 0x8000 h'
    × (Unused 0x2000 used.blocks → h' ≡ used)
kfree-IsValid_example = kfree-IsValid 0x3000 0x8000 0x2000 used used-IsValid used-Accounted

umalloc_common-ufree_example :
    (v : ℕ) × (h₁ : HeapStr) × (h₂ : HeapStr) × (umalloc_common used 0x40 false ≡ some (v, h₁))
    × (ufree h₁ v ≡ some h₂)
    × (h₂.blocks ≡ used.blocks)
    × (h₂.size + 0x40 ≡ 0x7ee0)
umalloc_common-ufree_example =
    umalloc_common-ufree 0x3000 0x40 false used (omega arith) (omega arith) used-IsValid
      (omega arith) (omega arith)

kmalloc_common_zero_example :
    (v : ℕ) × (h' : HeapStr) × (kmalloc_common entries fresh 0 false false ≡ some (v, none, h'))
    × ((fuel : ℕ) → find_gap fuel false h'.blocks 8 (floor h') ≡ none)
    × (kmalloc_common entries h' 8 false false ≡ none)
kmalloc_common_zero_example =
    kmalloc_common_zero entries 0x3000 8 fresh fresh-IsValid refl (omega arith) (omega arith)
      (omega arith)
