-- ===== src/Paging/Entry.antt =====
-- Entries of page tables: the pages that they name.
use lesch_os.Base.{
  ℕ, ◌+◌, ◌*◌, ◌/◌, ◌%◌, ◌^◌, ◌<◌, ◌≡◌, ◌≢◌, ◌⊎◌, inl, inr, refl, true, arith, ◌==◌, bit_and,
  bit_or, add32, Bool-cases, ◌∙◌, ap, sym, eq→==, ne→==,
}
use lesch_os.Base.Bits.{and_low, and_shifted, or_sum}
use lesch_os.Paging.{
  Paging, frame_of, table_indx, page_indx, page_offset, page_of, is_present, put_entry, virt2phys,
  get_page_info,
}

pub page_of_lem : (a : ℕ) → a < 2 ^ 32 → page_of a ≡ a / 2 ^ 12 * 2 ^ 12
unfolding page_of
page_of_lem a h =
    and_shifted 12 1048575 a ∙ ap (λ t. t * 2 ^ 12) (and_low 20 (a / 2 ^ 12) ∙ omega arith)

pub page_indx_lem : (v : ℕ) → page_indx v ≡ v / 2 ^ 12 % 2 ^ 10
unfolding page_indx
page_indx_lem v = and_low 10 (v / 2 ^ 12)

pub page_offset_lem : (v : ℕ) → page_offset v ≡ v % 2 ^ 12
unfolding page_offset
page_offset_lem v = and_low 12 v

-- The page that an entry names.
pub page_of-entry :
    (paddr flags : ℕ)
    → paddr < 2 ^ 32
    → flags < 2 ^ 12
    → page_of (bit_or (page_of paddr) flags) ≡ paddr / 2 ^ 12 * 2 ^ 12
page_of-entry paddr flags hp hf =
    let q : ℕ = paddr / 2 ^ 12 in
    ap (λ t. page_of (bit_or t flags)) (page_of_lem paddr hp)
    ∙ (ap page_of (or_sum 12 q flags hf)
        ∙ (page_of_lem (q * 2 ^ 12 + flags) (omega arith) ∙ omega arith))

-- The entry of the directory, and that of the page with number `n`.
unfoldable pub dir_entry : (page_dir : ℕ) → Paging → (t : ℕ) → ℕ
dir_entry page_dir m t = m.entry (frame_of page_dir) t

unfoldable pub slot : (page_dir : ℕ) → Paging → (n : ℕ) → ℕ
slot page_dir m n = m.entry (frame_of (dir_entry page_dir m (n / 2 ^ 10))) (n % 2 ^ 10)

abbrev pub HasTable : (page_dir : ℕ) → Paging → (n : ℕ) → Type 0
HasTable page_dir m n = is_present (m.entry (frame_of page_dir) (n / 2 ^ 10)) ≡ true

-- Tables that are present lie in frames of their own.
pub record Tables (page_dir : ℕ) (m : Paging) : Type 0 where
  pub word : (t : ℕ) → m.entry (frame_of page_dir) t < 2 ^ 32
  pub apart_dir :
      (t : ℕ)
      → is_present (m.entry (frame_of page_dir) t) ≡ true
      → frame_of (m.entry (frame_of page_dir) t) ≢ frame_of page_dir
  pub apart :
      (t u : ℕ)
      → t ≢ u
      → is_present (m.entry (frame_of page_dir) t) ≡ true
      → is_present (m.entry (frame_of page_dir) u) ≡ true
      → frame_of (m.entry (frame_of page_dir) t) ≢ frame_of (m.entry (frame_of page_dir) u)

pub virt2phys-slot :
    (page_dir v : ℕ) (m : Paging)
    → v < 2 ^ 32
    → virt2phys page_dir v m ≡ add32 (page_of (slot page_dir m (v / 2 ^ 12))) (v % 2 ^ 12)
unfolding virt2phys table_indx slot dir_entry
virt2phys-slot page_dir v m h =
    let up : v / 2 ^ 22 ≡ v / 2 ^ 12 / 2 ^ 10 = omega arith in
    rw (page_indx_lem v, page_offset_lem v, up) refl

pub put_here : (f i e : ℕ) (entry : ℕ → ℕ → ℕ) → put_entry f i e entry f i ≡ e
put_here f i e entry = rw (eq→== f f refl, eq→== i i refl) refl

pub put_other :
    (f i e g j : ℕ) (entry : ℕ → ℕ → ℕ) → (g ≢ f) ⊎ (j ≢ i) → put_entry f i e entry g j ≡ entry g j
put_other f i e g j entry (inl ne) = rw (ne→== g f ne) refl
put_other f i e g j entry (inr ne) = elim (Bool-cases (g == f)) [
  | inl same ↦ rw (same, ne→== j i ne) refl
  | inr other ↦ rw other refl
]

pub at_page :
    (page_dir : ℕ) (m : Paging) (k l : ℕ) → k ≡ l → HasTable page_dir m k → HasTable page_dir m l
at_page page_dir m k l e p =
    ap (λ (t : ℕ). is_present (m.entry (frame_of page_dir) (t / 2 ^ 10))) (sym e) ∙ p

-- Where a page has a table, in a directory whose tables lie in frames of their own, `virt2phys`
-- adds the offset to the page of the entry that `get_page_info` returns.
pub virt2phys-get_page_info :
    (page_dir v : ℕ) (m : Paging)
    → Tables page_dir m
    → v < 2 ^ 32
    → HasTable page_dir m (v / 2 ^ 12)
    → virt2phys page_dir v m ≡ add32 (page_of (get_page_info page_dir v m)) (page_offset v)
unfolding virt2phys get_page_info table_indx page_indx
virt2phys-get_page_info page_dir v m h hv has =
    let table : ℕ = m.entry (frame_of page_dir) (v / 2 ^ 12 / 2 ^ 10) in
    let up : v / 2 ^ 22 ≡ v / 2 ^ 12 / 2 ^ 10 = omega arith in
    let low : bit_and (v / 2 ^ 12 / 2 ^ 10) 1023 ≡ v / 2 ^ 12 / 2 ^ 10 =
      and_low 10 (v / 2 ^ 12 / 2 ^ 10) ∙ omega arith in
    let frame : page_of table / 2 ^ 12 ≡ table / 2 ^ 12 =
      ap (λ (t : ℕ). t / 2 ^ 12) (page_of_lem table (h.word _)) ∙ omega arith in
    rw (up, low, has, frame) refl
