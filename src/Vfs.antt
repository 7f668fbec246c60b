-- ===== src/Vfs.antt =====
-- src/vfs.c: the tree of mount points. A file system's node is its number; a name and a path are the
-- bytes of a string. `none` is a fault, or more path than fuel.
pub mod Names
pub mod Children
pub mod Mount
pub mod Path
mod Tests
use lesch_os.Base.{
  ℕ, zero, suc, ◌+◌, ◌-◌, Bool, true, false, ◌&&◌, not, Option, none, some, List, [], ◌∷◌, ◌++◌,
  if◌then◌else◌, ltb, ◌==◌, ◌>>=◌, length,
}
use lesch_os.Strings.{strlen, strcmp, Comparison, equal, shorter, longer, no_return, strsep}
use lesch_os.Strings.Token.{slash}

-- `struct gtreenode` with its `struct vfs_entry`: the name, the file mounted there if any, and the
-- children from the first on.
mutual
  pub data Tree : Type 0 where
    node : (name : List ℕ) → (file : Option ℕ) → Trees → Tree

  pub data Trees : Type 0 where
    nil : Trees
    cons : Tree → Trees → Trees

abbrev pub name_of : Tree → List ℕ
name_of (node name file kids) = name

abbrev pub file_of : Tree → Option ℕ
file_of (node name file kids) = file

abbrev pub kids_of : Tree → Trees
kids_of (node name file kids) = kids

-- `!strcmp(a, b)` of two strings. Where `strcmp` has no `return` the register is not 0.
abbrev pub is_zero : Option Comparison → Bool
is_zero none = false
is_zero (some equal) = true
is_zero (some shorter) = false
is_zero (some longer) = false
is_zero (some no_return) = false

unfoldable pub same_name : (a b : List ℕ) → Bool
same_name a b = is_zero (strcmp (a ++ 0 ∷ []) (b ++ 0 ∷ []))

abbrev pub is_empty : List ℕ → Bool
is_empty [] = true
is_empty (c ∷ s) = false

-- The walk round the ring of children to the first with this name.
unfoldable pub find_child : (token : List ℕ) → Trees → Option Tree
find_child token nil = none
find_child token (cons t ts) =
    let rest = find_child token ts in if same_name (name_of t) token then some t else rest

-- The child that is walked into: the one found, or a new one.
abbrev pub found_or_new : (token : List ℕ) → Option Tree → Tree
found_or_new token none = node token none nil
found_or_new token (some t) = t

-- The child stands where it was found.
unfoldable pub update_child : (token : List ℕ) → Tree → Trees → Trees
update_child token t nil = nil
update_child token t (cons u ts) =
    let rest = update_child token t ts in
    if same_name (name_of u) token then cons t ts else cons u rest

-- A new child is put first (`tree_insert`, `list_insert_front`).
abbrev pub put_child : (token : List ℕ) → (found : Option Tree) → Tree → Trees → Trees
put_child token none t ts = cons t ts
put_child token (some u) t ts = update_child token t ts

-- How a call of `vfs_mount` ends: it mounts, mounts and sets `vfs_root`, or finds the path taken.
pub data Outcome : Type 0 where
  mounted mounted_root already : Outcome

-- The end of `vfs_mount_recur`, at the node that the path names.
unfoldable pub mount_here : Tree → (fs : ℕ) → Tree × Outcome
mount_here (node name none kids) fs =
    (node name (some fs) kids, (if same_name name (b'/' ∷ []) then mounted_root else mounted))
mount_here (node name (some f) kids) fs = (node name (some f) kids, already)

unfoldable pub vfs_mount_recur :
    (fuel : ℕ) → (path : Option (List ℕ)) → Tree → (fs : ℕ) → Option (Tree × Outcome)
vfs_mount_recur zero path subroot fs = none
vfs_mount_recur (suc fuel) path (node name file kids) fs = do
  r ← strsep path slash
  elim r.0 [
    | none ↦ some (mount_here (node name file kids) fs)
    | some token ↦
        let below =
          vfs_mount_recur fuel r.1 (found_or_new token (find_child token kids)) fs >>= λ m.
          some (node name file (put_child token (find_child token kids) m.0 kids), m.1) in
        if is_empty token then some (mount_here (node name file kids) fs) else below
  ]

-- `vfs_mount` on the tree's root; one round for each byte of the path, and one more.
unfoldable pub vfs_mount : (path : List ℕ) → Tree → (fs : ℕ) → Option (Tree × Outcome)
vfs_mount [] root fs = none
vfs_mount (c ∷ path) (node name file kids) fs = do
  n ← strlen (c ∷ path)
  if c == b'/' && n == 1
      then some (elim file [
        | none ↦ (node name (some fs) kids, mounted_root)
        | some f ↦ (node name (some f) kids, already)
      ])
      else vfs_mount_recur (length path + 2) (some path) (node name file kids) fs

-- `get_mountpoint_recur`: the file, and what is left in `*path`. Where a name is not found that is
-- the name itself, which `strsep` has ended.
unfoldable pub get_mountpoint_recur :
    (fuel : ℕ) → (path : Option (List ℕ)) → Tree → Option (Option ℕ × Option (List ℕ))
get_mountpoint_recur zero path subroot = none
get_mountpoint_recur (suc fuel) path (node name file kids) = do
  r ← strsep path slash
  elim r.0 [
    | none ↦ some (file, r.1)
    | some token ↦
        let below : Option (Option ℕ × Option (List ℕ)) = elim (find_child token kids) [
          | none ↦ some (file, some (token ++ 0 ∷ []))
          | some child ↦ get_mountpoint_recur fuel r.1 child
        ] in
        if is_empty token then some (file, r.1) else below
  ]

unfoldable pub last_is : (c : ℕ) → List ℕ → Bool
last_is c [] = false
last_is c (x ∷ s) = elim s [ [] ↦ false | y ∷ t ↦ if y == 0 then x == c else last_is c s ]

-- `get_mountpoint`. On a path of two bytes or more that ends in a slash it writes through
-- `path[strlen - 1]`, a pointer that is not there (`none`).
unfoldable pub get_mountpoint : (path : List ℕ) → Tree → Option (Option ℕ × Option (List ℕ))
get_mountpoint [] root = none
get_mountpoint (c ∷ path) root = do
  n ← strlen (c ∷ path)
  if ltb 1 n && last_is b'/' (c ∷ path)
      then none
      else if not (c == b'/')
      then some (none, some (c ∷ path))
      else if n == 1
      then some (file_of root, none)
      else get_mountpoint_recur (length path + 2) (some path) root
