-- ===== src/Vfs/Tests.antt =====
-- The tree of mount points at concrete paths.
use lesch_os.Base.{ℕ, ◌≡◌, ◌≢◌, refl, none, some, List, [], ◌∷◌, arith}
use lesch_os.Strings.{strlen, strcmp, is_delim, strsep_loop, strsep}
use lesch_os.Vfs.{
  get_mountpoint_recur, find_child, same_name, Tree, node, nil, cons, Outcome, already, vfs_mount,
  get_mountpoint, last_is,
}
use lesch_os.Vfs.Names.{IsStep}
use lesch_os.Vfs.Path.{path_of, get_mountpoint-vfs_mount, get_mountpoint_stays}

abbrev dev : List ℕ
dev = b'd' ∷ b'e' ∷ b'v' ∷ []

abbrev hda : List ℕ
hda = b'h' ∷ b'd' ∷ b'a' ∷ []

abbrev home : List ℕ
home = b'h' ∷ b'o' ∷ b'm' ∷ b'e' ∷ []

-- File 1 is the root, file 2 is at "/dev".
abbrev start : Tree
start = node [] (some 1) (cons (node dev (some 2) nil) nil)

dev-IsStep : IsStep dev
dev-IsStep = (omega arith, refl)

hda-IsStep : IsStep hda
hda-IsStep = (omega arith, refl)

home-IsStep : IsStep home
home-IsStep = (omega arith, refl)

get_mountpoint-vfs_mount_example :
    (t' : Tree) × (how : Outcome) × (vfs_mount (path_of dev (hda ∷ [])) start 3 ≡ some (t', how))
    × (how ≢ already → get_mountpoint (path_of dev (hda ∷ [])) t' ≡ some (some 3, none))
    × (how ≡ already → t' ≡ start)
get_mountpoint-vfs_mount_example =
    get_mountpoint-vfs_mount dev (hda ∷ []) start 3 dev-IsStep (hda-IsStep, tt)

dev_found : get_mountpoint (path_of dev []) start ≡ some (some 2, none)
unfolding get_mountpoint get_mountpoint_recur strsep strsep_loop is_delim find_child same_name
    strcmp strlen last_is
dev_found = refl

get_mountpoint_stays_example :
    (t' : Tree) × (how : Outcome) × (vfs_mount (path_of home []) start 3 ≡ some (t', how))
    × (get_mountpoint (path_of dev []) t' ≡ some (some 2, none))
get_mountpoint_stays_example =
    get_mountpoint_stays home [] dev [] start 3 2 home-IsStep tt dev-IsStep tt dev_found
