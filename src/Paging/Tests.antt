-- ===== src/Paging/Tests.antt =====
-- A directory at 4096 whose first table lies at 8192.
use lesch_os.Base.{
  ℕ, ◌+◌, ◌/◌, ◌≡◌, refl, true, ◌&&◌, some, arith, if◌then◌else◌, ◌==◌, Bool-cases, inl, inr, ==→eq,
  ◌∙◌, sym,
}
use lesch_os.Pages.{no_address}
use lesch_os.Paging.{Paging, is_present, phys2virt}
use lesch_os.Paging.Entry.{Tables}
use lesch_os.Paging.Translate.{Mapped, phys2virt_lem}

abbrev one_table : Paging
one_table = record {
  pmem = record {
    free_pcount = 0;
    free_pmem_pointer = no_address;
    header = λ a. record { prev = 0; next = 0; size = 0 };
  };
  entry = λ f i. if f == 1 && i == 0 then 8199 else 0;
}

present_first : (t : ℕ) → is_present (one_table.entry 1 t) ≡ true → t ≡ 0
unfolding is_present
present_first t p = elim (Bool-cases (t == 0)) [
  | inl e ↦ ==→eq t 0 e
  | inr ne ↦ absurd (ground arith)
]

one_table-Tables : Tables 4096 one_table
one_table-Tables = record {
  word = λ t. ground arith;
  apart_dir = λ t p e. ground (arith, present_first t p);
  apart = λ t u ne p q e. ne (present_first t p ∙ sym (present_first u q));
}

first_present : is_present 8199 ≡ true
unfolding is_present
first_present = refl

phys2virt_lem_example :
    (m' : Paging) × (phys2virt 1 4096 20480 1048576 2 3 one_table ≡ some (true, m'))
    × Mapped 4096 20480 1048576 2 one_table m'
phys2virt_lem_example =
    phys2virt_lem 1 4096 20480 1048576 2 3 one_table one_table-Tables
      (λ i hi. let first : (5 + i) / 1024 ≡ 0 = omega arith in rw first first_present) (omega arith)
      (omega arith) (omega arith)
