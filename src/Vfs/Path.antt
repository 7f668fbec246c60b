-- ===== src/Vfs/Path.antt =====
-- vfs_mount and get_mountpoint of src/vfs.c on a path, the bytes of a string that starts with a slash.
use lesch_os.Base.{
  ℕ, suc, ◌+◌, ◌≤◌, ◌<◌, ◌≡◌, ◌≢◌, refl, sym, ap, ◌∙◌, false, Option, none, some, List, [], ◌∷◌,
  ◌++◌, arith, ◌==◌, length, All,
}
use lesch_os.Strings.{strlen}
use lesch_os.Strings.Token.{IsName, join}
use lesch_os.Vfs.{Tree, node, Outcome, already, vfs_mount, get_mountpoint, last_is}
use lesch_os.Vfs.Names.{IsStep, mount_names, find_names, mount_names_lem, find_names_lem}
use lesch_os.Vfs.Mount.{find_names-mount_names, find_names_stays}

-- The path of some names: a slash in front of each.
abbrev pub path_of : (n : List ℕ) (ns : List (List ℕ)) → List ℕ
path_of n ns = b'/' ∷ join n ns

-- A name in front of a string is counted with it, and does not change its last byte.
strlen_front :
    (xs s : List ℕ) (k : ℕ)
    → IsName xs
    → strlen s ≡ some k
    → strlen (xs ++ s) ≡ some (length xs + k)
unfolding strlen
strlen_front [] s k h e = ground (arith, e)
strlen_front (x ∷ xs) s k h e = ground (arith, strlen_front xs s k h.1 e)

strlen_cons :
    (c : ℕ) (s : List ℕ) (k : ℕ) → c ≢ 0 → strlen s ≡ some k → strlen (c ∷ s) ≡ some (suc k)
unfolding strlen
strlen_cons c s k ne e = ground arith

strlen_end : strlen (0 ∷ []) ≡ some 0
unfolding strlen
strlen_end = refl

strlen-join :
    (n : List ℕ) (ns : List (List ℕ))
    → IsStep n
    → All IsStep ns
    → (k : ℕ) × (strlen (join n ns) ≡ some k) × (0 < k)
strlen-join [] ns h hs = absurd (ground arith)
strlen-join (c ∷ n) [] h hs =
    (length (c ∷ n) + 0, strlen_front (c ∷ n) (0 ∷ []) 0 h.0 strlen_end, omega arith)
strlen-join (c ∷ n) (m ∷ ns) h hs =
    let (k, e, pos) = strlen-join m ns hs.0 hs.1 in
    (
      length (c ∷ n) + suc k,
      strlen_front (c ∷ n) (b'/' ∷ join m ns) (suc k) h.0
          (strlen_cons b'/' (join m ns) k (omega arith) e),
      omega arith,
    )

length_front : (xs s : List ℕ) → length s ≤ length (xs ++ s)
length_front [] s = omega arith
length_front (x ∷ xs) s = let ih = length_front xs s in omega arith

length-join : (n : List ℕ) (ns : List (List ℕ)) → length ns ≤ length (join n ns)
length-join n [] = omega arith
length-join n (m ∷ ns) =
    let ih = length-join m ns in let below = length_front n (b'/' ∷ join m ns) in omega arith

-- A last byte is looked for behind a byte that is followed by another than 0.
last_is_next : (c x y : ℕ) (s : List ℕ) → y ≢ 0 → last_is c (x ∷ y ∷ s) ≡ last_is c (y ∷ s)
unfolding last_is
last_is_next c x y s ne = ground arith

last_is_end : (c x : ℕ) (s : List ℕ) → x ≢ c → last_is c (x ∷ 0 ∷ s) ≡ false
unfolding last_is
last_is_end c x s ne = ground arith

last_is_name :
    (x : ℕ) (xs : List ℕ) → x ≢ b'/' → IsName xs → last_is b'/' (x ∷ xs ++ 0 ∷ []) ≡ false
last_is_name x [] ne h = last_is_end b'/' x [] ne
last_is_name x (y ∷ xs) ne h =
    last_is_next b'/' x y (xs ++ 0 ∷ []) h.0.0 ∙ last_is_name y xs h.0.1 h.1

last_is_front :
    (x : ℕ) (xs s : List ℕ)
    → IsName xs
    → last_is b'/' (x ∷ xs ++ b'/' ∷ s) ≡ last_is b'/' (b'/' ∷ s)
last_is_front x [] s h = last_is_next b'/' x b'/' s (omega arith)
last_is_front x (y ∷ xs) s h =
    last_is_next b'/' x y (xs ++ b'/' ∷ s) h.0.0 ∙ last_is_front y xs s h.1

last_is-join :
    (c : ℕ) (n : List ℕ) (ns : List (List ℕ))
    → IsStep n
    → All IsStep ns
    → last_is b'/' (c ∷ join n ns) ≡ false
last_is-join c [] ns h hs = absurd (ground arith)
last_is-join c (x ∷ n) [] h hs =
    last_is_next b'/' c x (n ++ 0 ∷ []) h.0.0.0 ∙ last_is_name x n h.0.0.1 h.0.1
last_is-join c (x ∷ n) (m ∷ ns) h hs =
    last_is_front c (x ∷ n) (join m ns) h.0 ∙ last_is-join b'/' m ns hs.0 hs.1

-- The calls on a path of names are the walks over the names.
vfs_mount_lem :
    (n : List ℕ) (ns : List (List ℕ)) (t : Tree) (fs : ℕ)
    → IsStep n
    → All IsStep ns
    → vfs_mount (path_of n ns) t fs ≡ some (mount_names (n ∷ ns) t fs)
unfolding vfs_mount
vfs_mount_lem n ns (node name file kids) fs h hs =
    let (k, e, pos) = strlen-join n ns h hs in
    let long : (suc k == 1) ≡ false = ground arith in
    let enough = length-join n ns in
    rw (strlen_cons b'/' (join n ns) k (omega arith) e, long)
      (mount_names_lem (length (join n ns) + 2) n ns (node name file kids) fs h hs (omega arith))

get_mountpoint_lem :
    (n : List ℕ) (ns : List (List ℕ)) (t : Tree)
    → IsStep n
    → All IsStep ns
    → get_mountpoint (path_of n ns) t ≡ some (find_names (n ∷ ns) t)
unfolding get_mountpoint
get_mountpoint_lem n ns t h hs =
    let (k, e, pos) = strlen-join n ns h hs in
    let long : (suc k == 1) ≡ false = ground arith in
    let enough = length-join n ns in
    rw (strlen_cons b'/' (join n ns) k (omega arith) e, last_is-join b'/' n ns h hs, long)
      (ground (arith, find_names_lem (length (join n ns) + 2) n ns t h hs (omega arith)))

-- `vfs_mount` at a path of names returns. Where it mounts, `get_mountpoint` of the path then finds
-- the file and leaves no name; where the path is taken, the tree is unchanged.
pub get_mountpoint-vfs_mount :
    (n : List ℕ) (ns : List (List ℕ)) (t : Tree) (fs : ℕ)
    → IsStep n
    → All IsStep ns
    → (t' : Tree) × (how : Outcome) × (vfs_mount (path_of n ns) t fs ≡ some (t', how))
      × (how ≢ already → get_mountpoint (path_of n ns) t' ≡ some (some fs, none))
      × (how ≡ already → t' ≡ t)
get_mountpoint-vfs_mount n ns t fs h hs =
    let m = mount_names (n ∷ ns) t fs in
    let laws = find_names-mount_names (n ∷ ns) t fs (h, hs) in
    (
      m.0,
      m.1,
      vfs_mount_lem n ns t fs h hs,
      λ ne. get_mountpoint_lem n ns m.0 h hs ∙ ap some (laws.0 ne),
      laws.1,
    )

same_some : {a b : Option ℕ × Option (List ℕ)} → some a ≡ some b → a ≡ b
same_some e = cc

-- A file that `get_mountpoint` finds at a path of names, with no name left, is found there also
-- after `vfs_mount` at any path of names.
pub get_mountpoint_stays :
    (p : List ℕ) (ps : List (List ℕ)) (n : List ℕ) (ns : List (List ℕ)) (t : Tree) (fs f : ℕ)
    → IsStep p
    → All IsStep ps
    → IsStep n
    → All IsStep ns
    → get_mountpoint (path_of n ns) t ≡ some (some f, none)
    → (t' : Tree) × (how : Outcome) × (vfs_mount (path_of p ps) t fs ≡ some (t', how))
      × (get_mountpoint (path_of n ns) t' ≡ some (some f, none))
get_mountpoint_stays p ps n ns t fs f hp hps h hs e =
    let m = mount_names (p ∷ ps) t fs in
    let found : find_names (n ∷ ns) t ≡ (some f, none) =
      same_some (sym (get_mountpoint_lem n ns t h hs) ∙ e) in
    (
      m.0,
      m.1,
      vfs_mount_lem p ps t fs hp hps,
      get_mountpoint_lem n ns m.0 h hs
          ∙ ap some (find_names_stays (p ∷ ps) (n ∷ ns) t fs f (hp, hps) (h, hs) found),
    )
