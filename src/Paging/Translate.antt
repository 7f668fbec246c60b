-- ===== src/Paging/Translate.antt =====
-- src/memory.c: phys2virt, and virt2phys after it.
use lesch_os.Base.{
  ℕ, zero, suc, ◌+◌, ◌-◌, ◌*◌, ◌/◌, ◌%◌, ◌^◌, ◌≤◌, ◌<◌, ◌≡◌, ◌≢◌, ◌⊎◌, inl, inr, refl, true, some,
  arith, ◌==◌, bit_or, add32, add32_exact, Bool-cases, ◌∙◌, ap, sym, ==→eq, ==→ne,
}
use lesch_os.Paging.{
  Paging, frame_of, table_indx, page_of, is_present, put_entry, virt2phys, get_table, map_page,
  phys2virt,
}
use lesch_os.Paging.Entry.{
  dir_entry, slot, HasTable, Tables, page_of_lem, page_indx_lem, page_of-entry, virt2phys-slot,
  put_here, put_other, at_page,
}

-- A page whose table is present: what `map_page` does.
module _ (fuel page_dir v paddr flags : ℕ) (m : Paging) (h : Tables page_dir m) (hv : v < 2 ^ 32)
    (has : HasTable page_dir m (v / 2 ^ 12)) where
  mapped : Paging
  mapped = record m {
    entry =
        put_entry (frame_of (dir_entry page_dir m (v / 2 ^ 12 / 2 ^ 10))) (v / 2 ^ 12 % 2 ^ 10)
          (bit_or (page_of paddr) flags) m.entry;
  }

  map_page-mapped : map_page fuel page_dir v paddr flags m ≡ some (true, mapped)
  unfolding map_page get_table table_indx mapped dir_entry
  map_page-mapped =
      let table : ℕ = m.entry (frame_of page_dir) (v / 2 ^ 12 / 2 ^ 10) in
      let up : v / 2 ^ 22 ≡ v / 2 ^ 12 / 2 ^ 10 = omega arith in
      let frame : page_of table / 2 ^ 12 ≡ table / 2 ^ 12 =
        ap (λ (t : ℕ). t / 2 ^ 12) (page_of_lem table (h.word _)) ∙ omega arith in
      rw (up, has, frame, page_indx_lem v) refl

  dir_kept : (t : ℕ) → mapped.entry (frame_of page_dir) t ≡ m.entry (frame_of page_dir) t
  unfolding mapped dir_entry
  dir_kept t = put_other _ _ _ (frame_of page_dir) t m.entry (inl (λ e. h.apart_dir _ has (sym e)))

  mapped-Tables : Tables page_dir mapped
  mapped-Tables = record {
    word = λ t. omega (arith, dir_kept t, h.word t);
    apart_dir = λ t p e.
        h.apart_dir t (sym (ap is_present (dir_kept t)) ∙ p)
          (sym (ap (λ (x : ℕ). frame_of x) (dir_kept t)) ∙ e);
    apart = λ t u ne p q e.
        h.apart t u ne (sym (ap is_present (dir_kept t)) ∙ p) (sym (ap is_present (dir_kept u)) ∙ q)
          (sym (ap (λ (x : ℕ). frame_of x) (dir_kept t))
            ∙ (e ∙ ap (λ (x : ℕ). frame_of x) (dir_kept u)));
  }

  mapped-HasTable : (k : ℕ) → HasTable page_dir m k → HasTable page_dir mapped k
  mapped-HasTable k p = ap is_present (dir_kept (k / 2 ^ 10)) ∙ p

  mapped_here : slot page_dir mapped (v / 2 ^ 12) ≡ bit_or (page_of paddr) flags
  unfolding slot dir_entry mapped
  mapped_here =
      ap (λ (t : ℕ). mapped.entry (frame_of t) (v / 2 ^ 12 % 2 ^ 10))
        (dir_kept (v / 2 ^ 12 / 2 ^ 10))
      ∙ put_here (frame_of (dir_entry page_dir m (v / 2 ^ 12 / 2 ^ 10))) (v / 2 ^ 12 % 2 ^ 10)
          (bit_or (page_of paddr) flags) m.entry

  mapped_other :
      (k : ℕ) → k ≢ v / 2 ^ 12 → HasTable page_dir m k → slot page_dir mapped k ≡ slot page_dir m k
  unfolding slot dir_entry mapped
  mapped_other k ne p =
      ap (λ (t : ℕ). mapped.entry (frame_of t) (k % 2 ^ 10)) (dir_kept (k / 2 ^ 10))
      ∙ elim (Bool-cases (k / 2 ^ 10 == v / 2 ^ 12 / 2 ^ 10)) [
        | inl same ↦ put_other _ _ _ _ _ m.entry (inr (λ e. ne (omega (arith, ==→eq _ _ same))))
        | inr other ↦ put_other _ _ _ _ _ m.entry (inl (h.apart _ _ (==→ne _ _ other) p has))
      ]

-- What `phys2virt` leaves: every page of the range names its page of physical memory, and every other
-- page that has a table names what it did.
pub record Mapped (page_dir v paddr count : ℕ) (m m' : Paging) : Type 0 where
  pub in_range :
      (i off : ℕ)
      → i < count
      → off < 2 ^ 12
      → virt2phys page_dir ((v / 2 ^ 12 + i) * 2 ^ 12 + off) m'
        ≡ (paddr / 2 ^ 12 + i) * 2 ^ 12 + off
  pub elsewhere :
      (w : ℕ)
      → w < 2 ^ 32
      → (w / 2 ^ 12 < v / 2 ^ 12) ⊎ (v / 2 ^ 12 + count ≤ w / 2 ^ 12)
      → HasTable page_dir m (w / 2 ^ 12)
      → virt2phys page_dir w m' ≡ virt2phys page_dir w m

-- The same, of the entries.
record Written (page_dir v paddr count : ℕ) (m m' : Paging) : Type 0 where
  pub range :
      (i : ℕ)
      → i < count
      → page_of (slot page_dir m' (v / 2 ^ 12 + i)) ≡ (paddr / 2 ^ 12 + i) * 2 ^ 12
  pub others :
      (k : ℕ)
      → (k < v / 2 ^ 12) ⊎ (v / 2 ^ 12 + count ≤ k)
      → HasTable page_dir m k
      → slot page_dir m' k ≡ slot page_dir m k

phys2virt-Written :
    (fuel page_dir v paddr count flags : ℕ) (m : Paging)
    → Tables page_dir m
    → ((i : ℕ) → i < count → HasTable page_dir m (v / 2 ^ 12 + i))
    → v + count * 2 ^ 12 < 2 ^ 32
    → paddr + count * 2 ^ 12 < 2 ^ 32
    → flags < 2 ^ 12
    → (m' : Paging) × (phys2virt fuel page_dir v paddr count flags m ≡ some (true, m'))
      × Written page_dir v paddr count m m'
unfolding phys2virt
phys2virt-Written fuel page_dir v paddr zero flags m h has hv hp hf =
    (m, refl, record { range = λ i hi. absurd (omega arith); others = λ k out t. refl })
phys2virt-Written fuel page_dir v paddr (suc count) flags m h has hv hp hf =
    let n : ℕ = v / 2 ^ 12 in
    let here : HasTable page_dir m n =
      at_page page_dir m (n + 0) n (omega arith) (has 0 (omega arith)) in
    let in_word : v < 2 ^ 32 = omega arith in
    let m₁ = mapped fuel page_dir v paddr flags m h in_word here in
    let tables = mapped-Tables fuel page_dir v paddr flags m h in_word here in
    let keeps = mapped-HasTable fuel page_dir v paddr flags m h in_word here in
    let next : (i : ℕ) → i < count → HasTable page_dir m₁ ((v + 4096) / 2 ^ 12 + i) = λ i hi.
      keeps ((v + 4096) / 2 ^ 12 + i) (
        at_page page_dir m (n + suc i) ((v + 4096) / 2 ^ 12 + i) (omega arith)
          (has (suc i) (omega arith))) in
    let (m', e, w) =
      phys2virt-Written fuel page_dir (v + 4096) (paddr + 4096) count flags m₁ tables next
        (omega arith) (omega arith) hf in
    (
      m',
      rw
          (
            map_page-mapped fuel page_dir v paddr flags m h in_word here,
            add32_exact v 4096 (omega arith),
            add32_exact paddr 4096 (omega arith),
          )
          e,
      record {
        range = λ i hi. elim (Bool-cases (i == 0)) [
          | inl first ↦
              let at : n + i ≡ n = omega (arith, ==→eq i 0 first) in
              ap (λ (k : ℕ). page_of (slot page_dir m' k)) at
              ∙ (ap page_of (
                    w.others n (inl (omega arith)) (keeps n here)
                    ∙ mapped_here fuel page_dir v paddr flags m h in_word here)
                  ∙ (page_of-entry paddr flags (omega arith) hf ∙ omega (arith, ==→eq i 0 first)))
          | inr later ↦
              let pos = ==→ne i 0 later in
              let at : n + i ≡ (v + 4096) / 2 ^ 12 + (i - 1) = omega arith in
              ap (λ (k : ℕ). page_of (slot page_dir m' k)) at
              ∙ (w.range (i - 1) (omega arith) ∙ omega arith)
        ];
        others = λ k out t.
            w.others k (ground (arith, out)) (keeps k t)
            ∙ mapped_other fuel page_dir v paddr flags m h in_word here k (ground (arith, out)) t;
      },
    )

-- Where every page of the range has a table, the tables lie in frames of their own, both ranges end
-- below 2^32 and the flags fit the twelve low bits, `phys2virt` succeeds. Then `virt2phys` finds at
-- each place in the range the place in the physical pages, and at any other page that has a table
-- what it found before.
pub phys2virt_lem :
    (fuel page_dir v paddr count flags : ℕ) (m : Paging)
    → Tables page_dir m
    → ((i : ℕ) → i < count → HasTable page_dir m (v / 2 ^ 12 + i))
    → v + count * 2 ^ 12 < 2 ^ 32
    → paddr + count * 2 ^ 12 < 2 ^ 32
    → flags < 2 ^ 12
    → (m' : Paging) × (phys2virt fuel page_dir v paddr count flags m ≡ some (true, m'))
      × Mapped page_dir v paddr count m m'
phys2virt_lem fuel page_dir v paddr count flags m h has hv hp hf =
    let (m', e, w) = phys2virt-Written fuel page_dir v paddr count flags m h has hv hp hf in
    (
      m',
      e,
      record {
        in_range = λ i off hi ho.
            let n : ℕ = v / 2 ^ 12 + i in
            let page : (n * 2 ^ 12 + off) / 2 ^ 12 ≡ n = omega arith in
            let place : (n * 2 ^ 12 + off) % 2 ^ 12 ≡ off = omega arith in
            virt2phys-slot page_dir (n * 2 ^ 12 + off) m' (omega arith)
            ∙ (rw (page, place, w.range i hi)
                (add32_exact ((paddr / 2 ^ 12 + i) * 2 ^ 12) off (omega arith)));
        elsewhere = λ x hx out t.
            virt2phys-slot page_dir x m' hx
            ∙ (ap (λ k. add32 (page_of k) (x % 2 ^ 12)) (w.others (x / 2 ^ 12) out t)
                ∙ sym (virt2phys-slot page_dir x m hx));
      },
    )
