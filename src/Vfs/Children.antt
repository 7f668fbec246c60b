-- ===== src/Vfs/Children.antt =====
-- The children of a node of src/vfs.c, by name.
use lesch_os.Base.{
  ℕ, ◌≡◌, ◌≢◌, ◌⊎◌, inl, inr, refl, ap, sym, ◌∙◌, true, false, none, some, List, arith, Bool-cases,
  Option-cases,
}
use lesch_os.Strings.Token.{IsName}
use lesch_os.Vfs.{
  Tree, Trees, nil, cons, name_of, same_name, find_child, found_or_new, update_child, put_child,
}
use lesch_os.Vfs.Names.{same_name_eq, same_name_self}

-- After an update the child that a name finds is the updated one, or the one of before.
find_child-update_child :
    (n q : List ℕ) (kids : Trees) (u t : Tree)
    → find_child n kids ≡ some u
    → name_of t ≡ name_of u
    → (find_child q (update_child n t kids) ≡ find_child q kids)
      ⊎ ((find_child q kids ≡ some u) × (find_child q (update_child n t kids) ≡ some t))
unfolding find_child update_child
find_child-update_child n q nil u t e same = inl refl
find_child-update_child n q (cons k ts) u t e same = elim (Bool-cases (same_name (name_of k) n)) [
  | inl hit ↦
      let is : k ≡ u = ground arith in
      let alike : name_of t ≡ name_of k = same ∙ ap name_of (sym is) in
      rw (hit, alike)
        (elim (Bool-cases (same_name (name_of k) q)) [
          | inl this ↦ inr (rw (this, is), rw this)
          | inr other ↦ inl (rw other)
        ])
  | inr miss ↦
      let later = find_child-update_child n q ts u t (rw miss at e) same in
      rw miss (elim (Bool-cases (same_name (name_of k) q)) [
        | inl this ↦ inl (rw this)
        | inr other ↦ rw other later
      ])
]

find_child-update_self :
    (n : List ℕ) (kids : Trees) (u t : Tree)
    → find_child n kids ≡ some u
    → name_of t ≡ name_of u
    → find_child n (update_child n t kids) ≡ some t
unfolding find_child update_child
find_child-update_self n nil u t e same = cc
find_child-update_self n (cons k ts) u t e same = elim (Bool-cases (same_name (name_of k) n)) [
  | inl hit ↦
      let is : k ≡ u = ground arith in
      let alike : name_of t ≡ name_of k = same ∙ ap name_of (sym is) in rw (hit, alike, hit)
  | inr miss ↦ rw (miss, miss) (find_child-update_self n ts u t (rw miss at e) same)
]

update_child_same :
    (n : List ℕ) (kids : Trees) (u : Tree)
    → find_child n kids ≡ some u
    → update_child n u kids ≡ kids
unfolding find_child update_child
update_child_same n nil u e = refl
update_child_same n (cons k ts) u e = elim (Bool-cases (same_name (name_of k) n)) [
  | inl hit ↦ let is : u ≡ k = ground arith in rw (hit, is)
  | inr miss ↦ rw (miss, update_child_same n ts u (rw miss at e))
]

find_child_front :
    (n : List ℕ) (kids : Trees) (t : Tree)
    → same_name (name_of t) n ≡ true
    → find_child n (cons t kids) ≡ some t
unfolding find_child
find_child_front n kids t hit = rw hit

find_child_behind :
    (n : List ℕ) (kids : Trees) (v t : Tree)
    → same_name (name_of t) n ≡ false
    → find_child n kids ≡ some v
    → find_child n (cons t kids) ≡ some v
unfolding find_child
find_child_behind n kids v t miss e = rw (miss, e)

-- The child that a name finds once a child of that name has been put.
pub find_child-put_child :
    (n : List ℕ) (kids : Trees) (t : Tree)
    → IsName n
    → name_of t ≡ name_of (found_or_new n (find_child n kids))
    → find_child n (put_child n (find_child n kids) t kids) ≡ some t
find_child-put_child n kids t step same = elim (Option-cases (find_child n kids)) [
  | inl e ↦
      let named : name_of t ≡ n = same ∙ (rw e) in
      rw e (find_child_front n kids t (ap (λ q. same_name q n) named ∙ same_name_self n step))
  | inr (u, e) ↦ rw e (find_child-update_self n kids u t e (rw e at same))
]

pub put_same :
    (n : List ℕ) (kids : Trees) (u : Tree)
    → find_child n kids ≡ some u
    → put_child n (find_child n kids) (found_or_new n (find_child n kids)) kids ≡ kids
put_same n kids u e = rw e (update_child_same n kids u e)

none-some : {v : Tree} → some v ≢ none
none-some e = cc

same_some : {u v : Tree} → some u ≡ some v → u ≡ v
same_some e = cc

-- The child that a name finds once a child of any name has been put.
pub find_child-put_other :
    (p n : List ℕ) (kids : Trees) (v t : Tree)
    → IsName p
    → IsName n
    → find_child n kids ≡ some v
    → name_of t ≡ name_of (found_or_new p (find_child p kids))
    → (find_child n (put_child p (find_child p kids) t kids) ≡ some v)
      ⊎ ((found_or_new p (find_child p kids) ≡ v)
          × (find_child n (put_child p (find_child p kids) t kids) ≡ some t))
find_child-put_other p n kids v t hp hn e same = elim (Option-cases (find_child p kids)) [
  | inl gone ↦
      let named : name_of t ≡ p = same ∙ (rw gone) in
      let apart : same_name p n ≡ false = elim (Bool-cases (same_name p n)) [
        | inl hit ↦ absurd (
            none-some
              (sym e ∙ (ap (λ q. find_child q kids) (sym (same_name_eq p n hp hn hit)) ∙ gone)))
        | inr miss ↦ miss
      ] in
      rw gone (inl (find_child_behind n kids v t (ap (λ q. same_name q n) named ∙ apart) e))
  | inr (u, there) ↦
      rw there (elim (find_child-update_child p n kids u t there (rw there at same)) [
        | inl keeps ↦ inl (keeps ∙ e)
        | inr (old, new) ↦ inr (same_some (sym old ∙ e), new)
      ])
]
