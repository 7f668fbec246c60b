-- ===== src/Messages/Remove.antt =====
-- list_remove takes the item out, wherever it stands.
use lesch_os.Base.{
  ℕ, suc, ◌≡◌, ◌≢◌, refl, ap, ◌∙◌, sym, arith, ◌==◌, if◌then◌else◌, List, [], ◌∷◌, ◌++◌, length,
  ne→==, eq→==, sub32, ◌<◌, ◌^◌,
}
use mathlib.Core.Path.{subst}
use lesch_os.Messages.{Nodes, MsgList, set_next, set_prev, unlink_item, first_without, list_remove}
use lesch_os.Messages.Ring.{Linked, Absent, Different, Holds}

unlink-next :
    (y i : ℕ) (n : Nodes)
    → (unlink_item y n i).next ≡ (if i == (n y).prev then (n y).next else (n i).next)
unfolding unlink_item set_next set_prev
unlink-next y i n = ground arith

unlink-prev :
    (y i : ℕ) (n : Nodes)
    → (unlink_item y n i).prev ≡ (if i == (n y).next then (n y).prev else (n i).prev)
unfolding unlink_item set_next set_prev
unlink-prev y i n = ground arith

-- Somewhere between two items of a ring.
not_prev :
    (n : Nodes) (a c : ℕ) (cs : List ℕ) (y : ℕ) (bs : List ℕ) (b : ℕ)
    → Linked n c (cs ++ (y ∷ bs)) b
    → a ≢ c
    → Absent a (cs ++ (y ∷ bs))
    → a ≢ (n y).prev
unfolding Linked Absent
not_prev n a c [] y bs b (e, e', l) h none = λ z. h (z ∙ e')
not_prev n a c (d ∷ ds) y bs b (e, e', l) h (h', none) = not_prev n a d ds y bs b l h' none

not_next :
    (n : Nodes) (a c : ℕ) (cs : List ℕ) (y : ℕ) (bs : List ℕ) (b : ℕ)
    → Linked n c (cs ++ (y ∷ bs)) b
    → Absent a (cs ++ (y ∷ bs))
    → a ≢ b
    → a ≢ (n y).next
unfolding Linked Absent
not_next n a c [] y [] b (e, e', l) none h = λ z. h (z ∙ l.0)
not_next n a c [] y (d ∷ ds) b (e, e', l) (h', (h'', none)) h = λ z. h'' (z ∙ l.0)
not_next n a c (d ∷ ds) y bs b (e, e', l) (h', none) h = not_next n a d ds y bs b l none h

module _ (n : Nodes) (y : ℕ) where
  keep :
      (c : ℕ) (cs : List ℕ) (b : ℕ)
      → Linked n c cs b
      → Absent (n y).prev (c ∷ cs)
      → Absent (n y).next cs
      → b ≢ (n y).next
      → Linked (unlink_item y n) c cs b
  unfolding Linked Absent
  keep c [] b (e, e') (h, hs) none hb = (
    unlink-next y c n ∙ rw (ne→== c (n y).prev (λ z. h (sym z))) e,
    unlink-prev y b n ∙ rw (ne→== b (n y).next hb) e',
  )
  keep c (d ∷ ds) b (e, e', l) (h, hs) (h', none) hb = (
    unlink-next y c n ∙ rw (ne→== c (n y).prev (λ z. h (sym z))) e,
    unlink-prev y d n ∙ rw (ne→== d (n y).next (λ z. h' (sym z))) e',
    keep d ds b l hs none hb,
  )

  remove_between :
      (a : ℕ) (cs bs : List ℕ) (b : ℕ)
      → Linked n a (cs ++ (y ∷ bs)) b
      → Different (a ∷ (cs ++ (y ∷ bs)))
      → Absent b (cs ++ (y ∷ bs))
      → Linked (unlink_item y n) a (cs ++ bs) b
  unfolding Linked Absent Different
  remove_between a [] [] b (e, e', (l, l')) d hb = (
    unlink-next y a n ∙ rw (eq→== a (n y).prev (sym e')) l,
    unlink-prev y b n ∙ rw (eq→== b (n y).next (sym l)) e',
  )
  remove_between a [] (z ∷ zs) b (e, e', (l, l', l'')) ((d, (d', ds)), (dy, (dzs, dr)))
        (hb, (hb', hbs)) =
      (
        unlink-next y a n ∙ rw (eq→== a (n y).prev (sym e')) l,
        unlink-prev y z n ∙ rw (eq→== z (n y).next (sym l)) e',
        keep z zs b l'' (subst (λ t. Absent t (z ∷ zs)) (sym e') (d', ds))
            (subst (λ t. Absent t zs) (sym l) dzs) (λ t. hb' (t ∙ l)),
      )
  remove_between a (c ∷ cs) bs b (e, e', l) ((d, ds), (dc, dcs)) (hb, hbs) = (
    unlink-next y a n ∙ rw (ne→== a (n y).prev (not_prev n a c cs y bs b l d ds)) e,
    unlink-prev y c n
        ∙ rw (ne→== c (n y).next (not_next n c c cs y bs b l dc (λ t. hb (sym t)))) e',
    remove_between c cs bs b l (dc, dcs) hbs,
  )

  -- The first item goes: the ring closes on the second.
  close :
      (c : ℕ) (cs : List ℕ)
      → Linked n c cs y
      → Different (c ∷ cs)
      → Absent (n y).next cs
      → Linked (unlink_item y n) c cs ((n y).next)
  unfolding Linked Absent Different
  close c [] (e, e') d none = (
    unlink-next y c n ∙ rw (eq→== c (n y).prev (sym e')) refl,
    unlink-prev y (n y).next n ∙ rw (eq→== (n y).next (n y).next refl) e',
  )
  close c (d ∷ ds) (e, e', l) ((h, hs), (dd, dds)) (h', none) = (
    unlink-next y c n ∙ rw (ne→== c (n y).prev (not_end c d ds l h hs)) e,
    unlink-prev y d n ∙ rw (ne→== d (n y).next (λ z. h' (sym z))) e',
    close d ds l (dd, dds) none,
  )
    where
      not_end : (a e : ℕ) (es : List ℕ) → Linked n e es y → a ≢ e → Absent a es → a ≢ (n y).prev
      not_end a e [] (l, l') h none = λ z. h (z ∙ l')
      not_end a e (f ∷ fs) (l, l', ls) h (h', none) = not_end a f fs ls h' none

sub32_exact : (k : ℕ) → suc k < 2 ^ 32 → sub32 (suc k) 1 ≡ k
unfolding sub32
sub32_exact k few = omega (arith, few)

Absent-remove :
    (a : ℕ) (cs : List ℕ) (y : ℕ) (bs : List ℕ) → Absent a (cs ++ (y ∷ bs)) → Absent a (cs ++ bs)
unfolding Absent
Absent-remove a [] y bs (h, hs) = hs
Absent-remove a (c ∷ cs) y bs (h, hs) = (h, Absent-remove a cs y bs hs)

apart_from : (a : ℕ) (cs : List ℕ) (y : ℕ) (bs : List ℕ) → Absent a (cs ++ (y ∷ bs)) → a ≢ y
unfolding Absent
apart_from a [] y bs (h, hs) = h
apart_from a (c ∷ cs) y bs (h, hs) = apart_from a cs y bs hs

Different-remove :
    (cs : List ℕ) (y : ℕ) (bs : List ℕ) → Different (cs ++ (y ∷ bs)) → Different (cs ++ bs)
unfolding Different
Different-remove [] y bs (d, ds) = ds
Different-remove (c ∷ cs) y bs (d, ds) = (Absent-remove c cs y bs d, Different-remove cs y bs ds)

length_remove :
    (cs : List ℕ) (y : ℕ) (bs : List ℕ) → length (cs ++ (y ∷ bs)) ≡ suc (length (cs ++ bs))
length_remove [] y bs = refl
length_remove (c ∷ cs) y bs = ap suc (length_remove cs y bs)

-- For a message of the list with fewer than 2^32 messages, in which it stands between `front` and `back`:
-- after `list_remove` the list holds `front` and `back`, in this order, also where the message was the
-- first, the last or the only one.
pub list_remove_lem :
    (s : MsgList) (front : List ℕ) (y : ℕ) (back : List ℕ)
    → Holds s (front ++ (y ∷ back))
    → length (front ++ (y ∷ back)) < 2 ^ 32
    → Holds (list_remove y s) (front ++ back)
unfolding Holds list_remove first_without Linked Absent Different
list_remove_lem s [] y [] (e, c, nonzero, d, l) few = (
  rw (e, eq→== y y refl, eq→== (s.nodes y).next y (l.0)) refl,
  ap (λ t. sub32 t 1) c ∙ sub32_exact 0 few,
)
list_remove_lem s [] y (z ∷ zs) (e, c, (h, hs), ((d, d'), dd), (l, l', ls)) few =
    let away : Absent (s.nodes y).next zs = subst (λ t. Absent t zs) (sym l) (dd.0) in
    (
      rw (e, eq→== y y refl, ne→== (s.nodes y).next y (λ t. d (sym t ∙ l))) l,
      ap (λ t. sub32 t 1) c ∙ sub32_exact (suc (length zs)) few,
      hs,
      dd,
      subst (Linked (unlink_item y s.nodes) z zs) l (close s.nodes y z zs ls dd away),
    )
list_remove_lem s (x ∷ xs) y back (e, c, (h, hs), (d, ds), l) few = (
  rw (e, ne→== x y (apart_from x xs y back d)) refl,
  ap (λ t. sub32 t 1) (c ∙ ap suc (length_remove xs y back))
      ∙ sub32_exact (suc (length (xs ++ back)))
          (subst (λ t. suc t < 2 ^ 32) (length_remove xs y back) few),
  (h, Absent-remove 0 xs y back hs),
  (Absent-remove x xs y back d, Different-remove xs y back ds),
  remove_between s.nodes y x xs back x l (d, ds) d,
)
