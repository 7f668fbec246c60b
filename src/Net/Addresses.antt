-- ===== src/Net/Addresses.antt =====
-- The table of hardware addresses after any additions.
use lesch_os.Base.{
  ℕ, zero, suc, ◌+◌, ◌≤◌, ◌≡◌, ◌≢◌, refl, ap, ◌∙◌, sym, arith, none, some, ◌==◌, if◌then◌else◌,
  List, [], ◌∷◌, ne→==,
}
use lesch_os.Net.{Arp, lookup_loop, arp_lookup, arp_lookup_add}

-- The table as it is at the start.
abbrev pub empty_table : Arp
empty_table = record { ip_addr = λ i. 0; mac_addr = λ i. 0; arp_table_size = 0; arp_table_curr = 0 }

-- Additions in order, of addresses with their hardware addresses.
unfoldable pub add_all : List (ℕ × ℕ) → Arp → Arp
add_all [] t = t
add_all (e ∷ es) t = add_all es (arp_lookup_add (e.1) (e.0) t)

-- Only the first entry was ever written.
record OneEntry (t : Arp) : Type 0 where
  curr : t.arp_table_curr ≡ 0
  others : (i : ℕ) → 1 ≤ i → t.ip_addr i ≡ 0

OneEntry-empty_table : OneEntry empty_table
OneEntry-empty_table = record { curr = refl; others = λ i h. refl }

OneEntry-arp_lookup_add : (mac ip : ℕ) (t : Arp) → OneEntry t → OneEntry (arp_lookup_add mac ip t)
unfolding arp_lookup_add
OneEntry-arp_lookup_add mac ip t h = record {
  curr = ground (arith, h.curr);
  others = λ i hi. ground (arith, h.curr, h.others i);
}

OneEntry-add_all : (es : List (ℕ × ℕ)) (t : Arp) → OneEntry t → OneEntry (add_all es t)
unfolding add_all
OneEntry-add_all [] t h = h
OneEntry-add_all (e ∷ es) t h = OneEntry-add_all es _ (OneEntry-arp_lookup_add (e.1) (e.0) t h)

none_later :
    (left i ip : ℕ) (t : Arp) → OneEntry t → 1 ≤ i → ip ≢ 0 → lookup_loop left i ip t ≡ none
unfolding lookup_loop
none_later zero i ip t h hi ne = refl
none_later (suc left) i ip t h hi ne =
    let other = ne→== (t.ip_addr i) ip (λ e. ne (sym e ∙ h.others i hi)) in
    rw other (none_later left (i + 1) ip t h (omega arith) ne)

lookup_first :
    (ip : ℕ) (t : Arp)
    → OneEntry t
    → ip ≢ 0
    → arp_lookup ip t ≡ (if t.ip_addr 0 == ip then some (t.mac_addr 0) else none)
unfolding arp_lookup lookup_loop
lookup_first ip t h ne =
    ap (λ r. if t.ip_addr 0 == ip then some (t.mac_addr 0) else r)
      (none_later 511 1 ip t h (omega arith) ne)

added_first :
    (mac ip : ℕ) (t : Arp)
    → OneEntry t
    → ((arp_lookup_add mac ip t).ip_addr 0 ≡ ip) × ((arp_lookup_add mac ip t).mac_addr 0 ≡ mac)
unfolding arp_lookup_add
added_first mac ip t h = (ground (arith, h.curr), ground (arith, h.curr))

-- After any additions to the empty table and then that of `ip` with `mac`, `arp_lookup` of an address
-- other than 0 finds `mac` for `ip` and nothing for any other address: the table knows only what was
-- added last.
pub arp_lookup-arp_lookup_add :
    (es : List (ℕ × ℕ)) (mac ip asked : ℕ)
    → asked ≢ 0
    → arp_lookup asked (arp_lookup_add mac ip (add_all es empty_table))
      ≡ (if ip == asked then some mac else none)
arp_lookup-arp_lookup_add es mac ip asked ne =
    let t = add_all es empty_table in
    let h = OneEntry-add_all es empty_table OneEntry-empty_table in
    let (first, first') = added_first mac ip t h in
    lookup_first asked (arp_lookup_add mac ip t) (OneEntry-arp_lookup_add mac ip t h) ne
    ∙ rw (first, first') refl
