-- ===== src/Keyboard/Queue.antt =====
-- src/keyboard.c: the ring of scan codes and a queue.
use lesch_os.Base.{
  ℕ, zero, suc, ◌+◌, ◌%◌, ◌≤◌, ◌<◌, ◌≡◌, refl, ◌⊎◌, inl, inr, Option, none, some, List, [], ◌∷◌,
  ◌++◌, arith, if◌then◌else◌, ltb, length, get_or, set, get_or-set_self, get_or-set_ne, length-set,
  ap, Bool-cases, ◌>>=◌, >>=-some,
}
use mathlib.Core.Path.{ap₂, ◌∙◌, subst}
use lesch_os.Keyboard.{Keyboard, keyboard_handler, get_keyboard}

-- The `n` codes from index `start` on, going round.
abbrev pub pending : List ℕ → (start n : ℕ) → List ℕ
pending buff start zero = []
pending buff start (suc n) = get_or buff (start % 32) 0 ∷ pending buff (start + 1) n

-- `n` codes wait. A position is 1 to 32 once it has moved; 32 stands for the index 0.
pub record Waiting (n : ℕ) (kb : Keyboard) : Type 0 where
  pub full : length kb.key_buff ≡ 32
  pub few : n ≤ 31
  pub span :
      ((kb.kb_start ≡ 0) × (kb.kb_end ≡ n))
      ⊎ ((0 < kb.kb_start)
          × (kb.kb_start ≤ 32)
          × (0 < kb.kb_end)
          × (kb.kb_end ≤ 32)
          × ((kb.kb_start + n) % 32 ≡ kb.kb_end % 32))

abbrev pub codes : Keyboard → ℕ → List ℕ
codes kb n = pending kb.key_buff kb.kb_start n

-- A code written just behind those that wait joins them.
pending-set :
    (buff : List ℕ) (n start i x : ℕ)
    → length buff ≡ 32
    → n < 32
    → i ≡ (start + n) % 32
    → pending (set buff i x) start (suc n) ≡ pending buff start n ++ (x ∷ [])
pending-set buff zero start i x len small at = ground (arith, get_or-set_self buff i x 0)
pending-set buff (suc n) start i x len small at =
    ap₂ ◌∷◌ (get_or-set_ne buff i (start % 32) x 0 (omega arith))
      (pending-set buff n (start + 1) i x len (omega arith) (omega arith))

pending_same : (buff : List ℕ) (n a b : ℕ) → a % 32 ≡ b % 32 → pending buff a n ≡ pending buff b n
pending_same buff zero a b e = refl
pending_same buff (suc n) a b e =
    ap₂ ◌∷◌ (ap (λ k. get_or buff k 0) e) (pending_same buff n (a + 1) (b + 1) (omega arith))

-- A key stroke with room for it.
handler-Waiting :
    (n code : ℕ) (kb : Keyboard)
    → n < 31
    → Waiting n kb
    → Waiting (suc n) (keyboard_handler 1 code kb)
unfolding keyboard_handler
handler-Waiting n code kb room w = record {
  full = length-set kb.key_buff _ code ∙ w.full;
  few = room;
  span = ground (arith, w.span);
}

handler_codes :
    (n code : ℕ) (kb : Keyboard)
    → n < 31
    → Waiting n kb
    → codes (keyboard_handler 1 code kb) (suc n) ≡ codes kb n ++ (code ∷ [])
unfolding keyboard_handler
handler_codes n code kb room w =
    pending-set kb.key_buff n kb.kb_start _ code w.full (omega arith) (ground (arith, w.span))

-- A read while codes wait.
get-Waiting : (n : ℕ) (kb : Keyboard) → Waiting (suc n) kb → Waiting n (get_keyboard kb).1
unfolding get_keyboard
get-Waiting n kb w = record {
  full = ground (arith, w.full);
  few = omega (arith, w.few);
  span = ground (arith, w.span);
}

get_codes :
    (n : ℕ) (kb : Keyboard)
    → Waiting (suc n) kb
    → codes kb (suc n) ≡ (get_keyboard kb).0 ∷ codes (get_keyboard kb).1 n
unfolding get_keyboard
get_codes n kb w = ground (arith, w.span, pending_same kb.key_buff n (kb.kb_start + 1) 1)

get_empty : (kb : Keyboard) → Waiting 0 kb → get_keyboard kb ≡ (0, kb)
unfolding get_keyboard
get_empty kb w = ground (arith, w.span)

-- What the interrupt and the reader do.
pub data Event : Type 0 where
  key : ℕ → Event
  get : Event

-- The codes that the reads of `get_keyboard` return, in order.
unfoldable pub reads : List Event → Keyboard → List ℕ
reads [] kb = []
reads (key code ∷ es) kb = reads es (keyboard_handler 1 code kb)
reads (get ∷ es) kb = let (res, kb') = get_keyboard kb in res ∷ reads es kb'

-- The same of a queue, which gives 0 when it is empty. `none`: more than 31 codes would wait.
unfoldable pub queue_reads : List Event → List ℕ → Option (List ℕ)
queue_reads [] q = some []
queue_reads (key code ∷ es) q =
    let rest = queue_reads es (q ++ (code ∷ [])) in if ltb (length q) 31 then rest else none
queue_reads (get ∷ es) [] = queue_reads es [] >>= λ r. some (0 ∷ r)
queue_reads (get ∷ es) (c ∷ q) = queue_reads es q >>= λ r. some (c ∷ r)

length-pending : (buff : List ℕ) (start n : ℕ) → length (pending buff start n) ≡ n
length-pending buff start zero = refl
length-pending buff start (suc n) = ap suc (length-pending buff (start + 1) n)

reads-Waiting :
    (es : List Event) (n : ℕ) (kb : Keyboard) (rs : List ℕ)
    → Waiting n kb
    → queue_reads es (codes kb n) ≡ some rs
    → reads es kb ≡ rs
unfolding reads queue_reads
reads-Waiting [] n kb rs w e = ground arith
reads-Waiting (key code ∷ es) n kb rs w e = elim (Bool-cases (ltb n 31)) [
  | inl room ↦
      reads-Waiting es (suc n) (keyboard_handler 1 code kb) rs
        (handler-Waiting n code kb (ground arith) w)
        (rw (handler_codes n code kb (ground arith) w)
          (ground (arith, length-pending kb.key_buff kb.kb_start n)))
  | inr over ↦ ground (arith, length-pending kb.key_buff kb.kb_start n)
]
reads-Waiting (get ∷ es) zero kb rs w e =
    let (r, more, is) = >>=-some (queue_reads es []) (λ r. some (0 ∷ r)) e in
    rw (get_empty kb w) (ap (λ t. 0 ∷ t) (reads-Waiting es zero kb r w more) ∙ cc)
reads-Waiting (get ∷ es) (suc n) kb rs w e =
    let rest = codes (get_keyboard kb).1 n in
    let (r, more, is) =
      >>=-some (queue_reads es rest) (λ r. some ((get_keyboard kb).0 ∷ r))
        (subst (λ q. queue_reads (get ∷ es) q ≡ some rs) (get_codes n kb w) e) in
    ap (λ t. (get_keyboard kb).0 ∷ t)
      (reads-Waiting es n (get_keyboard kb).1 r (get-Waiting n kb w) more)
    ∙ cc

-- The keyboard after power-up.
abbrev pub power_up : List ℕ → Keyboard
power_up buff = record { key_buff = buff; kb_start = 0; kb_end = 0; shift = 0 }

-- However strokes and reads come, `get_keyboard` returns what a queue of scan codes would, with 0
-- when no code waits, as long as at most 31 codes wait at a time.
pub reads_refine :
    (es : List Event) (buff rs : List ℕ)
    → length buff ≡ 32
    → queue_reads es [] ≡ some rs
    → reads es (power_up buff) ≡ rs
reads_refine es buff rs len e =
    reads-Waiting es 0 (power_up buff) rs
      (record { full = len; few = omega arith; span = inl (refl, refl) }) e

-- The 32nd stroke with no read in between makes the ring look empty once a code has been read: the
-- next read returns 0, and the 32 codes are not delivered.
pub overrun_looks_empty :
    (code : ℕ) (kb : Keyboard)
    → Waiting 31 kb
    → 0 < kb.kb_start
    → let kb' = keyboard_handler 1 code kb in
      (get_keyboard kb' ≡ (0, kb')) × (codes kb' 32 ≡ codes kb 31 ++ (code ∷ []))
unfolding keyboard_handler get_keyboard
overrun_looks_empty code kb w moved = (
  ground (arith, w.span),
  pending-set kb.key_buff 31 kb.kb_start _ code w.full (omega arith) (ground (arith, w.span)),
)
