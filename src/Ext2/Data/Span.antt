-- ===== src/Ext2/Data/Span.antt =====
-- How the blocks of a range of bytes follow each other, and the buffer that they fill.
use lesch_os.Base.{
  ℕ, suc, ◌+◌, ◌-◌, ◌*◌, ◌/◌, ◌%◌, ◌^◌, ◌≤◌, ◌<◌, ◌≡◌, inl, inr, ap, ◌∙◌, arith, ◌==◌,
  if◌then◌else◌, ltb, Bool-cases, ltb→lt, not-ltb→le, ==→eq, ==→ne, add32, sub32,
}
use lesch_os.Ext2.{Buffer, Fs, copy, mul32}
use lesch_os.Ext2.Data.{Range, range, left_of, right_of, bytes_of}
use mathlib.Core.Path.{fun_ext}
use native.Mathlib.Omega.{div_any}
use native.Mathlib.Nat.{
  add-mul, mod-lt, mul_comm, suc-mul, mul-add-div_right, div-eq_of_lt, mul-le-mul_right,
}

-- The first `n` places as `f` says, the others as before.
unfoldable pub filled : ℕ → (f buff : Buffer) → Buffer
filled n f buff k = if ltb k n then f k else buff k

pub copy-filled :
    (f from buff : Buffer) (at start count : ℕ)
    → ((m : ℕ) → m < count → from (start + m) ≡ f (at + m))
    → copy at start count from (filled at f buff) ≡ filled (at + count) f buff
unfolding copy filled
copy-filled f from buff at start count h = fun_ext λ k. ground (arith, h (k - at))

-- The number of bytes of a block that lie in the range, without the wraps of the code.
unfoldable pub stop_of : Fs → Range → (i : ℕ) → ℕ
stop_of fs r i = if i == r.end_block then r.end_offset else fs.block_size

-- A range whose last byte is not before its first.
pub record InRange (fs : Fs) (r : Range) (offset last : ℕ) : Type 0 where
  pub some_bytes : 1 ≤ fs.block_size
  pub small : (fs.block_size < 2 ^ 32) × (last < 2 ^ 32)
  pub in_order : offset ≤ last
  pub first : offset ≡ r.start_block * fs.block_size + r.start_offset
  pub last_block : last ≡ r.end_block * fs.block_size + r.end_offset
  pub offsets : (r.start_offset < fs.block_size) × (r.end_offset < fs.block_size)
  pub blocks : r.start_block ≤ r.end_block

pub quotient : (a b : ℕ) → a ≡ a / b * b + a % b
quotient a b = omega (arith, div_any a b, mul_comm b (a / b))

pub quotient_of : (i r b : ℕ) → r < b → ((i * b + r) / b ≡ i) × ((i * b + r) % b ≡ r)
quotient_of i r b h =
    let q : (i * b + r) / b ≡ i =
      mul-add-div_right {m = b} (omega arith) i r ∙ omega (arith, div-eq_of_lt h) in
    (q, omega (arith, quotient (i * b + r) b, ap (λ t. t * b) q))

pub div_monotone : (a b s : ℕ) → a ≤ b → 1 ≤ s → a / s ≤ b / s
div_monotone a b s h hs = elim (Bool-cases (ltb (b / s) (a / s))) [
  | inl t ↦
      let later = mul-le-mul_right {m = suc (b / s)} {n = a / s} s (ltb→lt _ _ t) in
      absurd (omega (arith, later, suc-mul (b / s) s, quotient a s, quotient b s, mod-lt b hs))
  | inr f ↦ not-ltb→le _ _ f
]

tail : (a s : ℕ) → a < 2 ^ 32 → sub32 a (mul32 (a / s) s) ≡ a % s
unfolding sub32 mul32
tail a s h = omega (arith, quotient a s)

pub range_lem :
    (fs : Fs) (offset last : ℕ)
    → 1 ≤ fs.block_size
    → fs.block_size < 2 ^ 32
    → offset ≤ last
    → last < 2 ^ 32
    → InRange fs (range fs offset last) offset last
unfolding range
range_lem fs offset last hb hw h hl =
    let s : ℕ = fs.block_size in
    record {
      some_bytes = hb;
      small = (hw, hl);
      in_order = h;
      first = quotient offset s;
      last_block = omega (arith, quotient last s, tail last s hl);
      offsets = (mod-lt offset hb, omega (arith, tail last s hl, mod-lt last hb));
      blocks = div_monotone offset last s h hb;
    }

module _ (fs : Fs) (r : Range) (offset last : ℕ) (h : InRange fs r offset last) where
  -- In a block of the range the bytes to copy are those from `left_of` up to `stop_of`.
  pub left-le-stop :
      (i : ℕ)
      → r.start_block ≤ i
      → i ≤ r.end_block
      → (left_of r i ≤ stop_of fs r i) × (stop_of fs r i ≤ fs.block_size)
  unfolding left_of stop_of
  left-le-stop i low high = ground (arith, h.first, h.last_block, h.offsets, h.in_order, same_block)
    where
      same_block : i ≡ r.start_block → i ≡ r.end_block → r.start_offset ≤ r.end_offset
      same_block e e' = omega (
        arith,
        h.first,
        h.last_block,
        h.in_order,
        ap (λ t. t * fs.block_size) e,
        ap (λ t. t * fs.block_size) e',
      )

  pub bytes_lem :
      (i : ℕ) → r.start_block ≤ i → i ≤ r.end_block → left_of r i + bytes_of fs r i ≡ stop_of fs r i
  unfolding bytes_of right_of stop_of sub32 add32
  bytes_lem i low high =
      let (ordered, inside) = left-le-stop i low high in
      ground (arith, ordered, inside, h.small, h.offsets, h.some_bytes)

  -- Behind the last byte of one block stands the first of the next.
  pub next_block :
      (i : ℕ)
      → r.start_block ≤ i
      → i < r.end_block
      → i * fs.block_size + stop_of fs r i ≡ (i + 1) * fs.block_size + left_of r (i + 1)
  unfolding stop_of left_of
  next_block i low high = ground (arith, suc-mul i fs.block_size, add-mul i 1 fs.block_size)

  pub last_stop : r.end_block * fs.block_size + stop_of fs r r.end_block ≡ last
  unfolding stop_of
  last_stop = ground (arith, h.last_block)

  pub stop-le-last :
      (i : ℕ) → r.start_block ≤ i → i ≤ r.end_block → i * fs.block_size + stop_of fs r i ≤ last
  unfolding stop_of
  stop-le-last i low high = elim (Bool-cases (i == r.end_block)) [
    | inl t ↦ rw t (omega (arith, h.last_block, ap (λ t. t * fs.block_size) (==→eq _ _ t)))
    | inr f ↦
        let later =
          mul-le-mul_right {m = suc i} {n = r.end_block} fs.block_size
            (omega (arith, ==→ne _ _ f)) in
        rw f (omega (arith, h.last_block, later, suc-mul i fs.block_size))
  ]
