-- ===== src/Vfs/Names.antt =====
-- The walks of src/vfs.c over the names of a path, one step for each name.
use lesch_os.Base.{
  ℕ, zero, suc, ◌+◌, ◌≤◌, ◌≡◌, inl, inr, refl, ap, ◌∙◌, true, false, Option, none, some, List, [],
  ◌∷◌, ◌++◌, arith, length, All, Option-cases,
}
use lesch_os.Strings.{strsep, Comparison, equal, shorter, longer, no_return}
use lesch_os.Strings.Compare.{NonZero, strcmp-eq-equal}
use lesch_os.Strings.Token.{slash, IsName, join, strsep_lem}
use lesch_os.Vfs.{
  Tree, Trees, node, file_of, is_zero, same_name, is_empty, find_child, found_or_new, put_child,
  Outcome, mount_here, vfs_mount_recur, get_mountpoint_recur,
}

-- A name that a path can hold between two slashes.
abbrev pub IsStep : List ℕ → Type 0
IsStep n = IsName n × (is_empty n ≡ false)

IsName-NonZero : (n : List ℕ) → IsName n → NonZero n
IsName-NonZero [] h = tt
IsName-NonZero (c ∷ n) h = (h.0.0, IsName-NonZero n h.1)

equal_of : (r : Option Comparison) → is_zero r ≡ true → r ≡ some equal
equal_of none h = cc
equal_of (some equal) h = refl
equal_of (some shorter) h = cc
equal_of (some longer) h = cc
equal_of (some no_return) h = cc

-- A name is compared by its bytes.
pub same_name_eq : (a b : List ℕ) → IsName a → IsName b → same_name a b ≡ true → a ≡ b
unfolding same_name
same_name_eq a b ha hb e =
    (strcmp-eq-equal a b [] [] (IsName-NonZero a ha) (IsName-NonZero b hb)).0 (equal_of _ e)

pub same_name_self : (a : List ℕ) → IsName a → same_name a a ≡ true
unfolding same_name
same_name_self a h =
    ap is_zero ((strcmp-eq-equal a a [] [] (IsName-NonZero a h) (IsName-NonZero a h)).1 refl)

-- The walk of `vfs_mount_recur`, and that of `get_mountpoint_recur`.
unfoldable pub mount_names : (names : List (List ℕ)) → Tree → (fs : ℕ) → Tree × Outcome
mount_names [] t fs = mount_here t fs
mount_names (n ∷ names) (node name file kids) fs =
    let (child, how) = mount_names names (found_or_new n (find_child n kids)) fs in
    (node name file (put_child n (find_child n kids) child kids), how)

unfoldable pub find_names : (names : List (List ℕ)) → Tree → Option ℕ × Option (List ℕ)
find_names [] t = (file_of t, none)
find_names (n ∷ names) (node name file kids) = elim (find_child n kids) [
  | none ↦ (file, some (n ++ 0 ∷ []))
  | some child ↦ find_names names child
]

strsep-none : strsep none slash ≡ some (none, none)
unfolding strsep
strsep-none = refl

mount_none :
    (fuel : ℕ) (t : Tree) (fs : ℕ) → vfs_mount_recur (suc fuel) none t fs ≡ some (mount_here t fs)
unfolding vfs_mount_recur
mount_none fuel (node name file kids) fs = rw strsep-none

find_none : (fuel : ℕ) (t : Tree) → get_mountpoint_recur (suc fuel) none t ≡ some (file_of t, none)
unfolding get_mountpoint_recur
find_none fuel (node name file kids) = rw strsep-none

-- One round on a name.
module _ (fuel : ℕ) (n : List ℕ) (path path' : Option (List ℕ)) (name : List ℕ) (file : Option ℕ)
    (kids : Trees) (sep : strsep path slash ≡ some (some n, path'))
    (long : is_empty n ≡ false) where
  mount_step :
      (fs : ℕ) (m : Tree × Outcome)
      → vfs_mount_recur fuel path' (found_or_new n (find_child n kids)) fs ≡ some m
      → vfs_mount_recur (suc fuel) path (node name file kids) fs
        ≡ some (node name file (put_child n (find_child n kids) m.0 kids), m.1)
  unfolding vfs_mount_recur
  mount_step fs m e = rw (sep, long, e)

  find_step_miss :
      find_child n kids ≡ none
      → get_mountpoint_recur (suc fuel) path (node name file kids) ≡ some (file, some (n ++ 0 ∷ []))
  unfolding get_mountpoint_recur
  find_step_miss e = rw (sep, long, e)

  find_step :
      (child : Tree)
      → find_child n kids ≡ some child
      → get_mountpoint_recur (suc fuel) path (node name file kids)
        ≡ get_mountpoint_recur fuel path' child
  unfolding get_mountpoint_recur
  find_step child e = rw (sep, long, e)

pub mount_names_lem :
    (fuel : ℕ) (n : List ℕ) (names : List (List ℕ)) (t : Tree) (fs : ℕ)
    → IsStep n
    → All IsStep names
    → length names + 2 ≤ fuel
    → vfs_mount_recur fuel (some (join n names)) t fs ≡ some (mount_names (n ∷ names) t fs)
unfolding mount_names
mount_names_lem zero n names t fs hn hs enough = absurd (omega arith)
mount_names_lem (suc zero) n names t fs hn hs enough = absurd (omega arith)
mount_names_lem (suc (suc fuel)) n [] (node name file kids) fs hn hs enough =
    mount_step (suc fuel) n (some (join n [])) none name file kids (strsep_lem n [] hn.0).1 hn.1 fs
      _ (mount_none fuel (found_or_new n (find_child n kids)) fs)
mount_names_lem (suc (suc fuel)) n (k ∷ names) (node name file kids) fs hn hs enough =
    mount_step (suc fuel) n (some (join n (k ∷ names))) (some (join k names)) name file kids
      (strsep_lem n (join k names) hn.0).0 hn.1 fs _
      (mount_names_lem (suc fuel) k names (found_or_new n (find_child n kids)) fs hs.0 hs.1
        (omega arith))

pub find_names_lem :
    (fuel : ℕ) (n : List ℕ) (names : List (List ℕ)) (t : Tree)
    → IsStep n
    → All IsStep names
    → length names + 2 ≤ fuel
    → get_mountpoint_recur fuel (some (join n names)) t ≡ some (find_names (n ∷ names) t)
unfolding find_names
find_names_lem zero n names t hn hs enough = absurd (omega arith)
find_names_lem (suc zero) n names t hn hs enough = absurd (omega arith)
find_names_lem (suc (suc fuel)) n [] (node name file kids) hn hs enough =
    let sep = (strsep_lem n [] hn.0).1 in
    let path = some (join n []) in
    elim (Option-cases (find_child n kids)) [
      | inl e ↦
          find_step_miss (suc fuel) n path none name file kids sep hn.1 e ∙ (rw (e, find_names))
      | inr (child, e) ↦
          find_step (suc fuel) n path none name file kids sep hn.1 child e
          ∙ (find_none fuel child ∙ (rw (e, find_names)))
    ]
find_names_lem (suc (suc fuel)) n (k ∷ names) (node name file kids) hn hs enough =
    let sep = (strsep_lem n (join k names) hn.0).0 in
    let path = some (join n (k ∷ names)) in
    let path' = some (join k names) in
    elim (Option-cases (find_child n kids)) [
      | inl e ↦
          find_step_miss (suc fuel) n path path' name file kids sep hn.1 e ∙ (rw (e, find_names))
      | inr (child, e) ↦
          find_step (suc fuel) n path path' name file kids sep hn.1 child e
          ∙ (find_names_lem (suc fuel) k names child hs.0 hs.1 (omega arith) ∙ (rw (e, find_names)))
    ]
