-- ===== src/Heap/Gap.antt =====
-- The search for a free gap of the heap: what one pass does, that the search ends, and that it ends
-- at the lowest suitable address.
use lesch_os.Base.{
  ℕ, zero, suc, ◌+◌, ◌-◌, ◌*◌, ◌/◌, ◌%◌, ◌^◌, ◌≤◌, ◌<◌, ◌≡◌, refl, ◌⊎◌, inl, inr, Bool, true, false,
  some, List, [], ◌∷◌, arith, if◌then◌else◌, length, All, bit_and, add32, add32_exact, Bool-cases,
  ltb,
}
use lesch_os.Base.Bits.{and_low, and_shifted}
use lesch_os.Heap.{Block, page_size, overlapped_blocks, align_page, pass, find_gap}

abbrev pub stop : Block → ℕ
stop b = b.base + b.size

-- The block does not meet the `size` bytes from `vaddr`.
abbrev pub Apart : (vaddr size : ℕ) → Block → Type 0
Apart vaddr size b = (vaddr + size ≤ b.base) ⊎ (stop b ≤ vaddr)

-- A block has bytes, and ends at or below `limit`.
abbrev pub Below : ℕ → Block → Type 0
Below limit b = (0 < b.size) × (stop b ≤ limit)

-- An address that `align` allows.
abbrev pub Aligned : Bool → ℕ → Type 0
Aligned true vaddr = vaddr % page_size ≡ 0
Aligned false vaddr = Unit

page_of : (v : ℕ) → v < 2 ^ 32 → bit_and v 0xffff_f000 ≡ v / 2 ^ 12 * 2 ^ 12
page_of v h = omega (arith, and_shifted 12 (2 ^ 20 - 1) v, and_low 20 (v / 2 ^ 12))

align_page_up :
    (v : ℕ)
    → v + page_size < 2 ^ 32
    → align_page true v ≡ (if ltb 0 (v % 2 ^ 12) then v / 2 ^ 12 * 2 ^ 12 + page_size else v)
unfolding align_page add32
align_page_up v h = ground (arith, page_of v, and_low 12 v)

pub align_page_lem :
    (align : Bool) (v : ℕ)
    → v + page_size < 2 ^ 32
    → (v ≤ align_page align v)
      × (align_page align v < v + page_size)
      × Aligned align (align_page align v)
      × ((w : ℕ) → v ≤ w → Aligned align w → align_page align v ≤ w)
unfolding align_page add32
align_page_lem true v h = (
  ground (arith, align_page_up v h),
  ground (arith, align_page_up v h),
  ground (arith, align_page_up v h),
  λ w p a. ground (arith, align_page_up v h),
)
align_page_lem false v h = (omega arith, omega arith, tt, λ w p a. p)

-- How many blocks end after `v`: the passes that may still move.
pub ahead : List Block → ℕ → ℕ
ahead [] v = 0
ahead (b ∷ bs) v = if ltb v (stop b) then suc (ahead bs v) else ahead bs v

pub ahead-le-length : (bs : List Block) (v : ℕ) → ahead bs v ≤ length bs
unfolding ahead
ahead-le-length [] v = omega arith
ahead-le-length (b ∷ bs) v = ground (arith, ahead-le-length bs v)

ahead_anti : (bs : List Block) (v w : ℕ) → v ≤ w → ahead bs w ≤ ahead bs v
unfolding ahead
ahead_anti [] v w h = omega arith
ahead_anti (b ∷ bs) v w h = ground (arith, ahead_anti bs v w h)

-- What `find_gap` promises of the address it returns, from `v`.
pub record IsGap (size limit : ℕ) (align : Bool) (blocks : List Block) (v gap : ℕ) : Type 0 where
  pub from : v ≤ gap
  pub under : gap < limit + page_size
  pub aligned : Aligned align gap
  pub apart : All (Apart gap size) blocks
  pub least : (w : ℕ) → v ≤ w → Aligned align w → All (Apart w size) blocks → gap ≤ w

module _ (size limit : ℕ) (pos : 0 < size) (room : limit + page_size + size < 2 ^ 32) where
  overlapped_true :
      (b : Block) (v : ℕ)
      → Below limit b
      → v < limit + page_size
      → overlapped_blocks b.base b.size v size ≡ true
      → (v < stop b) × (b.base < v + size)
  unfolding overlapped_blocks add32
  overlapped_true b v fits small h = ground arith

  overlapped_false :
      (b : Block) (v : ℕ)
      → Below limit b
      → v < limit + page_size
      → overlapped_blocks b.base b.size v size ≡ false
      → Apart v size b
  unfolding overlapped_blocks add32
  overlapped_false b v fits small h = ground arith

  -- One of the blocks ended after `v` and ends by `v'`.
  abbrev Passed : List Block → (v v' : ℕ) → Type 0
  Passed [] v v' = ⊥
  Passed (b ∷ bs) v v' = ((v < stop b) × (stop b ≤ v')) ⊎ Passed bs v v'

  -- What a pass over `blocks` from `v` has done.
  record PassOutcome (blocks : List Block) (v : ℕ) (out : ℕ × Bool) : Type 0 where
    grows : v ≤ out.0
    moved : out.1 ≡ true → Passed blocks v out.0 × (out.0 ≤ limit)
    still : out.1 ≡ false → (out.0 ≡ v) × All (Apart v size) blocks
    least : (w : ℕ) → v ≤ w → All (Apart w size) blocks → out.0 ≤ w

  Passed-later : (blocks : List Block) (v a b : ℕ) → a ≤ b → Passed blocks v a → Passed blocks v b
  Passed-later [] v a b h p = p
  Passed-later (x ∷ bs) v a b h (inl p) = inl (omega arith)
  Passed-later (x ∷ bs) v a b h (inr p) = inr (Passed-later bs v a b h p)

  reached :
      (blocks : List Block) (v : ℕ) (out : ℕ × Bool)
      → v < limit + page_size
      → PassOutcome blocks v out
      → out.0 < limit + page_size
  reached blocks v (a, true) small o = omega (arith, (o.moved refl).1)
  reached blocks v (a, false) small o = omega (arith, (o.still refl).0)

  module _ (b : Block) (bs : List Block) (v : ℕ) (out : ℕ × Bool) (fit : All (Below limit) (b ∷ bs))
      (small : v < limit + page_size) (before : PassOutcome bs v out) where
    outcome_hit :
        overlapped_blocks b.base b.size out.0 size ≡ true
        → PassOutcome (b ∷ bs) v (add32 b.base b.size, true)
    outcome_hit hit =
        let met = overlapped_true b out.0 fit.0 (reached bs v out small before) hit in
        let exact : add32 b.base b.size ≡ stop b = add32_exact b.base b.size (omega arith) in
        rw exact (record {
          grows = omega (arith, before.grows);
          moved = λ e. (inl (omega (arith, before.grows)), omega arith);
          still = λ e. cc;
          least = λ w le a. ground (arith, before.least w le a.1);
        })

    outcome_miss : overlapped_blocks b.base b.size out.0 size ≡ false → PassOutcome (b ∷ bs) v out
    outcome_miss miss =
        let apart = overlapped_false b out.0 fit.0 (reached bs v out small before) miss in
        record {
          grows = before.grows;
          moved = λ e. (inr (before.moved e).0, (before.moved e).1);
          still = λ e. ((before.still e).0, (rw (before.still e).0 at apart, (before.still e).1));
          least = λ w le a. before.least w le a.1;
        }

  pass_outcome :
      (blocks : List Block) (v : ℕ)
      → All (Below limit) blocks
      → v < limit + page_size
      → PassOutcome blocks v (pass blocks size v)
  unfolding pass
  pass_outcome [] v fit small = record {
    grows = omega arith;
    moved = λ e. cc;
    still = λ e. (refl, tt);
    least = λ w le a. le;
  }
  pass_outcome (b ∷ bs) v fit small =
      let before = pass_outcome bs v fit.1 small in
      elim (Bool-cases (overlapped_blocks b.base b.size (pass bs size v).0 size)) [
        | inl hit ↦ rw hit (outcome_hit b bs v (pass bs size v) fit small before hit)
        | inr miss ↦ rw miss (outcome_miss b bs v (pass bs size v) fit small before miss)
      ]

  ahead-Passed : (bs : List Block) (v w : ℕ) → v ≤ w → Passed bs v w → ahead bs w < ahead bs v
  unfolding ahead
  ahead-Passed [] v w le p = absurd p
  ahead-Passed (b ∷ bs) v w le (inl p) = ground (arith, ahead_anti bs v w le)
  ahead-Passed (b ∷ bs) v w le (inr p) = ground (arith, ahead-Passed bs v w le p)

  -- The search ends within one round for each block ahead and one more.
  pub find_gap-IsGap :
      (fuel : ℕ) (align : Bool) (blocks : List Block) (v : ℕ)
      → All (Below limit) blocks
      → v ≤ limit
      → ahead blocks v < fuel
      → (gap : ℕ) × (find_gap fuel align blocks size v ≡ some gap)
        × IsGap size limit align blocks v gap
  unfolding find_gap
  find_gap-IsGap zero align blocks v fit small enough = absurd (omega arith)
  find_gap-IsGap (suc fuel) align blocks v fit small enough =
      let up = align_page_lem align v (omega arith) in
      let a = align_page align v in
      let done = pass_outcome blocks a fit (omega arith) in
      elim (Bool-cases (pass blocks size a).1) [
        | inl moved ↦
            let onto = done.moved moved in
            let next = (pass blocks size a).0 in
            let (gap, e, is) = find_gap-IsGap fuel align blocks next fit onto.1 (
              omega (
                arith,
                ahead_anti blocks v a up.0,
                ahead-Passed blocks a next done.grows onto.0,
              )) in
            rw moved (
              gap,
              e,
              record {
                from = omega (arith, up.0, done.grows, is.from);
                under = is.under;
                aligned = is.aligned;
                apart = is.apart;
                least = λ w le al ap. is.least w (done.least w (up.3 w le al) ap) al ap;
              },
            )
        | inr rests ↦
            let onto = done.still rests in
            rw (rests, onto.0)
              (
                a,
                refl,
                record {
                  from = up.0;
                  under = omega arith;
                  aligned = up.2;
                  apart = onto.1;
                  least = λ w le al ap. up.3 w le al;
                },
              )
      ]
