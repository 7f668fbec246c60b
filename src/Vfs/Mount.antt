-- ===== src/Vfs/Mount.antt =====
-- The walk of vfs_mount_recur, and that of get_mountpoint_recur after it.
use lesch_os.Base.{
  ℕ, ◌≡◌, ◌≢◌, inl, inr, refl, ap, sym, ◌∙◌, Option, none, some, List, [], ◌∷◌, arith, All,
  Option-cases,
}
use lesch_os.Vfs.{
  Tree, Trees, node, nil, name_of, find_child, found_or_new, put_child, already, mount_here,
}
use lesch_os.Vfs.Names.{IsStep, mount_names, find_names}
use lesch_os.Vfs.Children.{find_child-put_child, put_same, find_child-put_other}

name_of-mount_names :
    (ns : List (List ℕ)) (t : Tree) (fs : ℕ) → name_of (mount_names ns t fs).0 ≡ name_of t
unfolding mount_names mount_here
name_of-mount_names [] (node name none kids) fs = refl
name_of-mount_names [] (node name (some f) kids) fs = refl
name_of-mount_names (n ∷ ns) (node name file kids) fs = refl

-- At a node with no file, and below a new node, mounting succeeds.
fresh_mounts :
    (ns : List (List ℕ)) (name : List ℕ) (kids : Trees) (fs : ℕ)
    → (mount_here (node name none kids) fs).1 ≢ already
unfolding mount_here
fresh_mounts ns name kids fs e = ground arith

new_mounts :
    (n : List ℕ) (ns : List (List ℕ)) (fs : ℕ) → (mount_names ns (node n none nil) fs).1 ≢ already
unfolding mount_names find_child
new_mounts n [] fs e = fresh_mounts [] n nil fs e
new_mounts n (k ∷ ns) fs e = new_mounts k ns fs e

find_names_step :
    (n : List ℕ) (ns : List (List ℕ)) (name : List ℕ) (file : Option ℕ) (kids : Trees)
    (child : Tree)
    → find_child n kids ≡ some child
    → find_names (n ∷ ns) (node name file kids) ≡ find_names ns child
unfolding find_names
find_names_step n ns name file kids child e = rw (e, find_names)

find_names_miss :
    (n : List ℕ) (ns : List (List ℕ)) (name : List ℕ) (file : Option ℕ) (kids : Trees)
    (o : Option ℕ)
    → find_child n kids ≡ none
    → find_names (n ∷ ns) (node name file kids) ≢ (o, none)
unfolding find_names
find_names_miss n ns name file kids o e h = ground arith

-- What `vfs_mount_recur` mounts at a path of names, `get_mountpoint_recur` finds there, with no name
-- left; all other outcomes leave the tree as it is.
pub find_names-mount_names :
    (ns : List (List ℕ)) (t : Tree) (fs : ℕ)
    → All IsStep ns
    → ((mount_names ns t fs).1 ≢ already → find_names ns (mount_names ns t fs).0 ≡ (some fs, none))
      × ((mount_names ns t fs).1 ≡ already → (mount_names ns t fs).0 ≡ t)
unfolding mount_names find_names mount_here
find_names-mount_names [] (node name none kids) fs h =
    (λ ne. refl, λ e. absurd (fresh_mounts [] name kids fs e))
find_names-mount_names [] (node name (some f) kids) fs h = (λ ne. absurd (ne refl), λ e. refl)
find_names-mount_names (n ∷ ns) (node name file kids) fs h =
    let sub = found_or_new n (find_child n kids) in
    let child = (mount_names ns sub fs).0 in
    let ih = find_names-mount_names ns sub fs h.1 in
    (
      λ ne.
          find_names_step n ns name file _ child
            (find_child-put_child n kids child h.0.0 (name_of-mount_names ns sub fs))
          ∙ ih.0 ne,
      λ e. elim (Option-cases (find_child n kids)) [
        | inl gone ↦ absurd (new_mounts n ns fs (rw gone at e))
        | inr (u, there) ↦
            ap (node name file)
              (ap (λ c. put_child n (find_child n kids) c kids) (ih.1 e) ∙ put_same n kids u there)
      ],
    )

here_stays :
    (ns : List (List ℕ)) (t : Tree) (fs f : ℕ)
    → find_names ns t ≡ (some f, none)
    → find_names ns (mount_here t fs).0 ≡ (some f, none)
unfolding mount_here find_names
here_stays [] (node name none kids) fs f e = ground arith
here_stays [] (node name (some g) kids) fs f e = e
here_stays (n ∷ ns) (node name (some g) kids) fs f e = e
here_stays (n ∷ ns) (node name none kids) fs f e = elim (Option-cases (find_child n kids)) [
  | inl gone ↦ absurd (find_names_miss n ns name none kids (some f) gone e)
  | inr (v, there) ↦
      find_names_step n ns name (some fs) kids v there
      ∙ (sym (find_names_step n ns name none kids v there) ∙ e)
]

-- Mounting takes nothing away: a file that `get_mountpoint_recur` finds at a path of names, with no
-- name left, it finds there also after `vfs_mount_recur` at any path of names.
pub find_names_stays :
    (ps ns : List (List ℕ)) (t : Tree) (fs f : ℕ)
    → All IsStep ps
    → All IsStep ns
    → find_names ns t ≡ (some f, none)
    → find_names ns (mount_names ps t fs).0 ≡ (some f, none)
unfolding mount_names find_names
find_names_stays [] [] t fs f hp hn e = here_stays [] t fs f e
find_names_stays [] (n ∷ ns) t fs f hp hn e = here_stays (n ∷ ns) t fs f e
find_names_stays (p ∷ ps) [] (node name file kids) fs f hp hn e = e
find_names_stays (p ∷ ps) (n ∷ ns) (node name file kids) fs f hp hn e =
    elim (Option-cases (find_child n kids)) [
      | inl gone ↦ absurd (find_names_miss n ns name file kids (some f) gone e)
      | inr (v, there) ↦
          let found : find_names ns v ≡ (some f, none) =
            sym (find_names_step n ns name file kids v there) ∙ e in
          let sub = found_or_new p (find_child p kids) in
          let child = (mount_names ps sub fs).0 in
          elim (find_child-put_other p n kids v child hp.0.0 hn.0.0 there
            (name_of-mount_names ps sub fs)) [
              | inl keeps ↦ find_names_step n ns name file _ v keeps ∙ found
              | inr (old, new) ↦
                  find_names_step n ns name file _ child new
                  ∙ find_names_stays ps ns sub fs f hp.1 hn.1 (ap (find_names ns) old ∙ found)
            ]
    ]
