-- ===== src/Sync.antt =====
-- src/sync.c: the mutex that guards a heap, a list or the table of sockets.
use lesch_os.Base.{Bool, true, false, not, ◌&&◌, Option, none, some, List, [], ◌∷◌, if◌then◌else◌}

-- `get_mtx`. The list holds what the successive `xchg` find in the mutex: first its value, then
-- what other threads have left there. `none` is a call that is still spinning at the list's end.
unfoldable pub get_mtx : (seen : List Bool) → (wait : Bool) → Option Bool
get_mtx [] wait = none
get_mtx (var ∷ seen) wait =
    let again = get_mtx seen wait in if var && wait then again else some (not var)

-- `get_mtx(&m, true)` where no other thread releases it: the call returns if the mutex is free.
unfoldable pub acquire : (mtx : Bool) → Option Bool
unfolding get_mtx
acquire mtx = get_mtx (mtx ∷ []) true

-- `clean_mtx`
abbrev pub clean_mtx : Bool
clean_mtx = false
