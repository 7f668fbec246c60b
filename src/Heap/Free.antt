-- ===== src/Heap/Free.antt =====
-- `kfree`, `ufree` and `get_kheap_block`: what they remove, what they give back, and the mutex.
use lesch_os.Base.{
  ℕ, zero, suc, ◌+◌, ◌^◌, ◌≤◌, ◌<◌, ◌≡◌, ◌≢◌, refl, ◌-◌, ◌||◌, inl, inr, Bool, true, false, none,
  some, List, [], ◌∷◌, arith, ◌==◌, length, All, sub32, add32, Bool-cases,
}
use lesch_os.Heap.{
  Block, HeapStr, block_index, shift_down, size_at, push_block, kfree, ufree, get_kheap_block,
  kmalloc_common, find_gap,
}
use lesch_os.Heap.Gap.{Apart, Below}
use lesch_os.Heap.Valid.{IsValid, Disjoint, total, Accounted, floor}

-- No block starts at `v`.
abbrev pub Unused : ℕ → List Block → Type 0
Unused v = All (λ b. v ≢ b.base)

index-Unused : (v : ℕ) (bs : List Block) → Unused v bs → block_index v bs ≡ length bs
unfolding block_index
index-Unused v [] h = refl
index-Unused v (b ∷ bs) h = ground (arith, index-Unused v bs h.1)

All-shift_down : (P : Block → Type 0) (i : ℕ) (bs : List Block) → All P bs → All P (shift_down i bs)
unfolding shift_down
All-shift_down P i [] h = h
All-shift_down P zero (b ∷ bs) h = h.1
All-shift_down P (suc i) (b ∷ bs) h = (h.0, All-shift_down P i bs h.1)

Disjoint-shift_down : (i : ℕ) (bs : List Block) → Disjoint bs → Disjoint (shift_down i bs)
unfolding shift_down
Disjoint-shift_down i [] h = h
Disjoint-shift_down zero (b ∷ bs) h = h.1
Disjoint-shift_down (suc i) (b ∷ bs) h =
    (All-shift_down (Apart b.base b.size) i bs h.0, Disjoint-shift_down i bs h.1)

total-shift_down : (i : ℕ) (bs : List Block) → total (shift_down i bs) + size_at bs i ≡ total bs
unfolding shift_down size_at total
total-shift_down i [] = refl
total-shift_down zero (b ∷ bs) = omega arith
total-shift_down (suc i) (b ∷ bs) = omega (arith, total-shift_down i bs)

-- `kfree` finds nothing to free at this address.
abbrev pub missing : ℕ → HeapStr → Bool
missing v h = v == 0 || block_index v h.blocks == length h.blocks

-- `kfree` of a valid heap, whatever the address, returns a valid heap and keeps the account of its
-- bytes. An address at which no block starts leaves the heap as it is.
pub kfree-IsValid :
    (limit capacity v : ℕ) (h : HeapStr)
    → IsValid limit h
    → Accounted capacity h
    → (h' : HeapStr) × (kfree h v ≡ some h')
      × IsValid limit h'
      × Accounted capacity h'
      × (Unused v h.blocks → h' ≡ h)
unfolding kfree add32
kfree-IsValid limit capacity v h valid acc = elim (Bool-cases (missing v h)) [
  | inl none_there ↦
      rw (valid.unlocked, none_there)
        (
          record h { heap_mtx = false },
          refl,
          record {
            unlocked = refl;
            low = valid.low;
            above = valid.above;
            below = valid.below;
            disjoint = valid.disjoint;
          },
          acc,
          λ u. refl,
        )
  | inr found ↦
      rw (valid.unlocked, found)
        (
          (record h {
            blocks = shift_down (block_index v h.blocks) h.blocks;
            size = add32 h.size (size_at h.blocks (block_index v h.blocks));
            heap_mtx = false;
          }),
          refl,
          record {
            unlocked = refl;
            low = valid.low;
            above = All-shift_down (λ b. floor h ≤ b.base) _ h.blocks valid.above;
            below = All-shift_down (Below limit) _ h.blocks valid.below;
            disjoint = Disjoint-shift_down _ h.blocks valid.disjoint;
          },
          omega (arith, total-shift_down (block_index v h.blocks) h.blocks),
          λ u. ground (arith, index-Unused v h.blocks u),
        )
]

pub kfree-push_block :
    (v size : ℕ) (h : HeapStr)
    → h.heap_mtx ≡ false
    → 0 < v
    → h.size < 2 ^ 32
    → size < 2 ^ 32
    → kfree (push_block h v size) v ≡ some h
unfolding kfree push_block
kfree-push_block v size h free pos small fits = ground arith

-- `get_kheap_block` leaves the mutex taken where it finds no block, and no later `kmalloc_common`
-- of that heap returns.
pub get_kheap_block_miss :
    (page_entry : ℕ → ℕ) (v size : ℕ) (align want : Bool) (h : HeapStr)
    → h.heap_mtx ≡ false
    → Unused v h.blocks
    → (h' : HeapStr) × (get_kheap_block h v ≡ some (none, h'))
      × (kmalloc_common page_entry h' size align want ≡ none)
unfolding get_kheap_block kmalloc_common
get_kheap_block_miss page_entry v size align want h free unused =
    (record h { heap_mtx = true }, rw (free, index-Unused v h.blocks unused) (ground arith), refl)

pub ufree-push_block :
    (v size : ℕ) (h : HeapStr)
    → h.heap_mtx ≡ false
    → 0 < v
    → size ≤ h.size
    → h.size < 2 ^ 32
    → (h' : HeapStr) × (ufree (push_block h v size) v ≡ some h')
      × (h'.blocks ≡ h.blocks)
      × (h'.size + size ≡ h.size)
unfolding ufree push_block add32 sub32
ufree-push_block v size h free pos fits small =
    (record h { size = h.size - size; heap_mtx = false }, ground arith, refl, omega arith)

-- A block of no bytes at the start of the search is met in every round, and moves nothing.
pub find_gap_zero_block :
    (fuel start size : ℕ)
    → start < 2 ^ 31
    → 0 < size
    → size < 2 ^ 31
    → find_gap fuel false (record { base = start; size = 0 } ∷ []) size start ≡ none
unfolding find_gap
find_gap_zero_block zero start size small pos fits = refl
find_gap_zero_block (suc fuel) start size small pos fits =
    ground (arith, find_gap_zero_block fuel start size small pos fits)
