-- ===== src/Ext2/Bitmap/Words.antt =====
-- The search for a free bit in the words of a bitmap, and what setting a bit leaves.
use lesch_os.Base.{
  ℕ, zero, suc, ◌+◌, ◌*◌, ◌/◌, ◌%◌, ◌^◌, ◌≤◌, ◌<◌, ◌≡◌, ◌⊎◌, inl, inr, refl, ap, ◌∙◌, arith, false,
  none, some, ◌==◌, if◌then◌else◌, ltb, Bool-cases, ltb→lt, not-ltb→le, ==→eq, ==→ne,
}
use lesch_os.Base.BitAt.{bit_at, bit_at_low, bit_at_small, bit_at-full}
use lesch_os.Ext2.{Buffer, get32, put32}
use lesch_os.Ext2.Blocks.{get32-put32, get32-put32_other}
use lesch_os.Ext2.Bitmap.{find_bit, find_free}

-- Bit `k` of a bitmap.
unfoldable pub bit_of : Buffer → ℕ → ℕ
bit_of buf k = bit_at (get32 buf (4 * (k / 32))) (k % 32)

step :
    (left n w : ℕ)
    → find_bit (suc left) n w ≡ (if bit_at w n == 0 then some n else find_bit left (n + 1) w)
unfolding find_bit
step left n w = ap (λ t. if t == 0 then some n else find_bit left (n + 1) w) (bit_at_low w n)

-- All bits from `n` on and below `m` are set.
unfoldable pub AllSet : (ℕ → ℕ) → (n m : ℕ) → Type 0
AllSet bit n m = (i : ℕ) → n ≤ i → i < m → bit i ≡ 1

join :
    (bit : ℕ → ℕ) (n k k' m m' : ℕ)
    → AllSet bit n k
    → AllSet bit k' m
    → k' ≤ k
    → m' ≤ m
    → AllSet bit n m'
unfolding AllSet
join bit n k k' m m' low high hk hm i h h' = elim (Bool-cases (ltb i k)) [
  | inl t ↦ low i h (ltb→lt _ _ t)
  | inr f ↦ high i (omega (arith, not-ltb→le _ _ f)) (omega arith)
]

one : (bit : ℕ → ℕ) (n : ℕ) → bit n ≡ 1 → AllSet bit n (n + 1)
unfolding AllSet
one bit n e i h h' = ap bit (omega arith) ∙ e

of_word :
    (buf : Buffer) (j n : ℕ)
    → n ≤ 32
    → AllSet (bit_at (get32 buf (4 * j))) 0 n
    → AllSet (bit_of buf) (j * 32) (j * 32 + n)
unfolding AllSet bit_of
of_word buf j n hn all i h h' =
    let at : i / 32 ≡ j = omega arith in
    ap (λ k. bit_at (get32 buf (4 * k)) (i % 32)) at ∙ all (i % 32) (omega arith) (omega arith)

-- Either all bits are set, or the search gives the first that is not.
pub FirstBit : (left n w : ℕ) → Type 0
FirstBit left n w =
    ((find_bit left n w ≡ none) × AllSet (bit_at w) n (n + left))
    ⊎ ((k : ℕ) × (find_bit left n w ≡ some k)
        × (k < n + left)
        × (bit_at w k ≡ 0)
        × AllSet (bit_at w) n k)

find_bit_lem : (left n w : ℕ) → FirstBit left n w
unfolding find_bit FirstBit AllSet
find_bit_lem zero n w = inl (refl, λ i h h'. absurd (omega arith))
find_bit_lem (suc left) n w = elim (Bool-cases (bit_at w n == 0)) [
  | inl t ↦
      inr (n, step left n w ∙ rw t refl, omega arith, ==→eq _ _ t, λ i h h'. absurd (omega arith))
  | inr f ↦
      let set = one (bit_at w) n (omega (arith, ==→ne _ _ f, bit_at_small w n)) in
      let here : find_bit (suc left) n w ≡ find_bit left (n + 1) w = step left n w ∙ rw f refl in
      elim (find_bit_lem left (n + 1) w) [
        | inl (e, all) ↦
            inl (here ∙ e, join (bit_at w) _ _ _ _ _ set all (omega arith) (omega arith))
        | inr (k, e, high, clear, all) ↦ inr (
          k,
          here ∙ e,
          omega arith,
          clear,
          join (bit_at w) _ _ _ _ _ set all (omega arith) (omega arith),
        )
      ]
]

unfoldable pub FirstFree : (left j : ℕ) → Buffer → Type 0
FirstFree left j buf =
    ((find_free left j buf ≡ none) × AllSet (bit_of buf) (j * 32) ((j + left) * 32))
    ⊎ ((k n : ℕ) × (find_free left j buf ≡ some (k, n))
        × (k < j + left)
        × (n < 32)
        × (bit_at (get32 buf (4 * k)) n ≡ 0)
        × AllSet (bit_of buf) (j * 32) (k * 32 + n))

find_free_next :
    (left j : ℕ) (buf : Buffer)
    → AllSet (bit_at (get32 buf (4 * j))) 0 32
    → find_free (suc left) j buf ≡ find_free left (j + 1) buf
    → FirstFree left (j + 1) buf
    → FirstFree (suc left) j buf
unfolding FirstFree
find_free_next left j buf full here (inl (e, all)) =
    let set = of_word buf j 32 (omega arith) full in
    inl (here ∙ e, join (bit_of buf) _ _ _ _ _ set all (omega arith) (omega arith))
find_free_next left j buf full here (inr (k, n, e, high, hn, clear, all)) =
    let set = of_word buf j 32 (omega arith) full in
    inr (
      k,
      n,
      here ∙ e,
      omega arith,
      hn,
      clear,
      join (bit_of buf) _ _ _ _ _ set all (omega arith) (omega arith),
    )

pub find_free_lem : (left j : ℕ) (buf : Buffer) → FirstFree left j buf
unfolding FirstFree FirstBit find_free AllSet
find_free_lem zero j buf = inl (refl, λ i h h'. absurd (omega arith))
find_free_lem (suc left) j buf =
    let rest = find_free_lem left (j + 1) buf in
    let w = get32 buf (4 * j) in
    elim (Bool-cases (w == 0xffffffff)) [
      | inl t ↦
          find_free_next left j buf
            (λ i h h'. ap (λ w. bit_at w i) (==→eq _ _ t) ∙ bit_at-full i h') (rw t refl) rest
      | inr f ↦ found (find_bit_lem 32 0 w) f rest
    ]
  where
    found :
        FirstBit 32 0 (get32 buf (4 * j))
        → (get32 buf (4 * j) == 0xffffffff) ≡ false
        → FirstFree left (j + 1) buf
        → FirstFree (suc left) j buf
    found (inl (e, all)) f rest = find_free_next left j buf all (rw (f, e) refl) rest
    found (inr (n, e, h, clear, all)) f rest =
        inr (j, n, rw (f, e) refl, omega arith, h, clear, of_word buf j n (omega arith) all)

-- The word with one bit changed, in its place among the others.
pub bit_of-put32 :
    (buf : Buffer) (j w i : ℕ)
    → w < 2 ^ 32
    → bit_of (put32 (4 * j) w buf) i ≡ (if i / 32 == j then bit_at w (i % 32) else bit_of buf i)
unfolding bit_of
bit_of-put32 buf j w i h = elim (Bool-cases (i / 32 == j)) [
  | inl t ↦ rw (t, ==→eq _ _ t, get32-put32 buf j w h) refl
  | inr f ↦ rw f (
      ap (λ w. bit_at w (i % 32))
        (get32-put32_other buf j (i / 32) w (λ e. ==→ne _ _ f (omega arith))))
]
