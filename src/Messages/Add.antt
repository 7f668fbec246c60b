-- ===== src/Messages/Add.antt =====
-- list_add puts the item behind the others.
use lesch_os.Base.{
  ℕ, suc, ◌+◌, ◌≡◌, ◌≢◌, refl, ap, ◌∙◌, sym, arith, ◌==◌, if◌then◌else◌, List, [], ◌∷◌, ◌++◌,
  length, ne→==, eq→==, add32, ◌<◌, ◌^◌, length-append, add32_exact,
}
use lesch_os.Messages.{Nodes, MsgList, set_next, set_prev, set_list, link_last, list_add}
use lesch_os.Messages.Ring.{Linked, Absent, Different, Holds}

link-next :
    (item x i : ℕ) (n : Nodes)
    → item ≢ (n x).prev
    → (link_last item x n i).next
      ≡ (if i == (n x).prev then item else if i == item then x else (n i).next)
unfolding link_last set_next set_prev set_list
link-next item x i n h = ground (arith, h)

link-prev :
    (item x i : ℕ) (n : Nodes)
    → item ≢ x
    → (link_last item x n i).prev
      ≡ (if i == x then item else if i == item then (n x).prev else (n i).prev)
unfolding link_last set_next set_prev set_list
link-prev item x i n h = ground (arith, h)

not_last :
    (n : Nodes) (a y : ℕ) (ys : List ℕ) (x : ℕ)
    → Linked n y ys x
    → a ≢ y
    → Absent a ys
    → a ≢ (n x).prev
unfolding Linked Absent
not_last n a y [] x (e, e') h none = λ z. h (z ∙ e')
not_last n a y (z ∷ ys) x (e, e', l) h (h', none) = not_last n a z ys x l h' none

module _ (n : Nodes) (item x : ℕ) (apart : item ≢ x) (new : item ≢ (n x).prev) where
  add_last :
      (a : ℕ) (ys : List ℕ)
      → Linked n a ys x
      → a ≢ item
      → Absent item ys
      → Different (a ∷ ys)
      → Absent x ys
      → Linked (link_last item x n) a (ys ++ (item ∷ [])) x
  unfolding Linked Absent Different
  add_last a [] (e, e') h none d away = (
    link-next item x a n new ∙ rw (eq→== a (n x).prev (sym e')) refl,
    link-prev item x item n apart ∙ (rw (ne→== item x apart, eq→== item item refl) e'),
    (
      link-next item x item n new ∙ (rw (ne→== item (n x).prev new, eq→== item item refl) refl),
      link-prev item x x n apart ∙ (rw (eq→== x x refl) refl),
    ),
  )
  add_last a (y ∷ ys) (e, e', l) h (h', none) ((d, d'), ds) (away, aways) =
      let not_l = not_last n a y ys x l d d' in
      (
        link-next item x a n new ∙ rw (ne→== a (n x).prev not_l, ne→== a item h) e,
        link-prev item x y n apart
            ∙ rw (ne→== y x (λ z. away (sym z)), ne→== y item (λ z. h' (sym z))) e',
        add_last y ys l (λ z. h' (sym z)) none ds aways,
      )

Absent-append : (a b : ℕ) (xs : List ℕ) → Absent a xs → a ≢ b → Absent a (xs ++ (b ∷ []))
unfolding Absent
Absent-append a b [] h ne = (ne, tt)
Absent-append a b (x ∷ xs) (h, hs) ne = (h, Absent-append a b xs hs ne)

Different-append : (a : ℕ) (xs : List ℕ) → Different xs → Absent a xs → Different (xs ++ (a ∷ []))
unfolding Different Absent
Different-append a [] d h = (tt, tt)
Different-append a (x ∷ xs) (d, ds) (h, hs) =
    (Absent-append x a xs d (λ e. h (sym e)), Different-append a xs ds hs)

-- For an item at an address other than NULL, which belongs to no list and is none of the messages, and
-- fewer than 2^32 - 1 messages: `list_add` puts it behind all the messages of the list.
pub list_add_lem :
    (item : ℕ) (s : MsgList) (xs : List ℕ)
    → Holds s xs
    → (s.nodes item).list ≡ 0
    → item ≢ 0
    → Absent item xs
    → suc (length xs) < 2 ^ 32
    → Holds (list_add item s) (xs ++ (item ∷ []))
unfolding Holds Absent list_add Linked Different set_next set_prev set_list
list_add_lem item s [] (e, c) own there new few =
    rw (eq→== _ _ own, eq→== _ _ e)
      (
        refl,
        ap (λ t. add32 t 1) c ∙ add32_exact 0 1 few,
        (λ e. there (sym e), tt),
        (tt, tt),
        (ground arith, ground arith),
      )
list_add_lem item s (x ∷ xs) (e, c, nonzero, d, l) own there (new, news) few =
    let last = not_last s.nodes item x xs x l new news in
    let longer : length (xs ++ (item ∷ [])) ≡ suc (length xs) =
      length-append xs (item ∷ []) ∙ omega arith in
    let exact : add32 (suc (length xs)) 1 ≡ suc (length xs) + 1 =
      add32_exact (suc (length xs)) 1 (omega (arith, few)) in
    rw (eq→== _ _ own, ne→== s.first 0 (λ z. nonzero.0 (sym (sym e ∙ z))), e)
      (
        refl,
        ap (λ t. add32 t 1) c ∙ omega (arith, exact, longer),
        Absent-append 0 item (x ∷ xs) nonzero (λ e. there (sym e)),
        Different-append item (x ∷ xs) d (new, news),
        add_last s.nodes item x new last x xs l (λ z. new (sym z)) news d (d.0),
      )
