-- ===== src/Messages/Receive.antt =====
-- msg_recv takes the first message for the process, and get_msg looks for it.
use lesch_os.Base.{
  ℕ, zero, suc, ◌≡◌, ◌≢◌, refl, ap, ◌∙◌, sym, arith, List, [], ◌∷◌, ◌++◌, length, All, ne→==, eq→==,
  some, none, ◌<◌, ◌^◌, ltb, true,
}
use mathlib.Core.Path.{subst}
use lesch_os.Messages.{Nodes, MsgList, list_remove, recv_loop, found, msg_recv, get_loop, get_msg}
use lesch_os.Messages.Ring.{Linked, Absent, Holds}
use lesch_os.Messages.Remove.{list_remove_lem}

-- None of these messages is for the process.
unfoldable pub NoneFor : (pid : ℕ) → Nodes → List ℕ → Type 0
NoneFor pid nodes xs = All (λ x. pid ≢ (nodes x).pid_dst) xs

counts : (k : ℕ) → ltb 0 (suc k) ≡ true
counts k = ground arith

recv_loop_hit :
    (pid a b : ℕ) (n : Nodes) (front : List ℕ) (y : ℕ) (back : List ℕ)
    → Linked n a (front ++ (y ∷ back)) b
    → NoneFor pid n (a ∷ front)
    → pid ≡ (n y).pid_dst
    → recv_loop (suc (length (front ++ (y ∷ back)))) a pid n ≡ some y
unfolding recv_loop Linked NoneFor
recv_loop_hit pid a b n [] y back (e, e', l) (h, hs) own =
    rw (ne→== pid (n a).pid_dst h, e, eq→== pid (n y).pid_dst own) refl
recv_loop_hit pid a b n (x ∷ front) y back (e, e', l) (h, hs) own =
    rw (ne→== pid (n a).pid_dst h, e) (recv_loop_hit pid x b n front y back l hs own)

recv_loop_miss :
    (pid a b : ℕ) (n : Nodes) (xs : List ℕ)
    → Linked n a xs b
    → NoneFor pid n (a ∷ xs)
    → recv_loop (suc (length xs)) a pid n ≡ none
unfolding recv_loop Linked NoneFor
recv_loop_miss pid a b n [] l (h, hs) = rw (ne→== pid (n a).pid_dst h) refl
recv_loop_miss pid a b n (x ∷ xs) (e, e', l) (h, hs) =
    rw (ne→== pid (n a).pid_dst h, e) (recv_loop_miss pid x b n xs l hs)

found-loop :
    (pid x k : ℕ) (s : MsgList)
    → s.first ≡ x
    → s.count ≡ suc k
    → found pid s ≡ recv_loop (suc k) x pid s.nodes
unfolding found
found-loop pid x k s e c = rw (c, e, ne→== (suc k) 0 (λ z. omega (arith, z))) refl

found_hit :
    (pid : ℕ) (s : MsgList) (front : List ℕ) (y : ℕ) (back : List ℕ)
    → Holds s (front ++ (y ∷ back))
    → NoneFor pid s.nodes front
    → pid ≡ (s.nodes y).pid_dst
    → found pid s ≡ some y
unfolding Holds recv_loop
found_hit pid s [] y back (e, c, nonzero, d, l) none_for own =
    found-loop pid y (length back) s e c ∙ (rw (eq→== pid (s.nodes y).pid_dst own) refl)
found_hit pid s (x ∷ front) y back (e, c, nonzero, d, l) none_for own =
    found-loop pid x (length (front ++ (y ∷ back))) s e c
    ∙ recv_loop_hit pid x x s.nodes front y back l none_for own

not_null :
    (s : MsgList) (front : List ℕ) (y : ℕ) (back : List ℕ)
    → Holds s (front ++ (y ∷ back))
    → s.first ≢ 0
unfolding Holds Absent
not_null s [] y back (e, c, (h, hs), d, l) = λ z. h (sym z ∙ e)
not_null s (x ∷ front) y back (e, c, (h, hs), d, l) = λ z. h (sym z ∙ e)

msg_recv_hit :
    (pid y : ℕ) (s : MsgList)
    → s.first ≢ 0
    → found pid s ≡ some y
    → msg_recv pid s ≡ (some (s.nodes y), list_remove y s)
unfolding msg_recv
msg_recv_hit pid y s h e = rw (ne→== s.first 0 h, e) refl

-- For a list with fewer than 2^32 messages, in which `y` is the first message for the process: `msg_recv`
-- gives this message, and the list holds the messages before it and behind it, in their order.
pub msg_recv_lem :
    (pid : ℕ) (s : MsgList) (front : List ℕ) (y : ℕ) (back : List ℕ)
    → Holds s (front ++ (y ∷ back))
    → length (front ++ (y ∷ back)) < 2 ^ 32
    → NoneFor pid s.nodes front
    → pid ≡ (s.nodes y).pid_dst
    → ((msg_recv pid s).0 ≡ some (s.nodes y)) × Holds ((msg_recv pid s).1) (front ++ back)
msg_recv_lem pid s front y back holds few none_for own =
    let hit =
      msg_recv_hit pid y s (not_null s front y back holds)
        (found_hit pid s front y back holds none_for own) in
    (
      ap (λ r. r.0) hit,
      subst (λ r. Holds (r.1) (front ++ back)) (sym hit) (list_remove_lem s front y back holds few),
    )

-- From any place of the ring, with fuel or rounds left, the loop goes on.
get_loop_miss :
    (fuel pid k : ℕ) (n : Nodes) (x : ℕ) (xs : List ℕ)
    → Linked n x xs x
    → NoneFor pid n (x ∷ xs)
    → (a : ℕ) (ys : List ℕ) → Linked n a ys x
    → NoneFor pid n (a ∷ ys)
    → get_loop fuel a pid (suc k) n ≡ none
unfolding get_loop Linked NoneFor
get_loop_miss zero pid k n x xs ring other a ys l h = refl
get_loop_miss (suc fuel) pid k n x xs ring other a [] (e, e') (h, hs) =
    rw (ne→== pid (n a).pid_dst h, counts k, e)
      (get_loop_miss fuel pid k n x xs ring other x xs ring other)
get_loop_miss (suc fuel) pid k n x xs ring other a (y ∷ ys) (e, e', l) (h, hs) =
    rw (ne→== pid (n a).pid_dst h, counts k, e)
      (get_loop_miss fuel pid k n x xs ring other y ys l hs)

-- When the list holds a message at least and none of them is for the process, the loop of `get_msg` does
-- not end, however many rounds it is given: it compares a number of rounds that it does not count.
pub get_msg_lem :
    (fuel pid : ℕ) (s : MsgList) (x : ℕ) (xs : List ℕ)
    → Holds s (x ∷ xs)
    → NoneFor pid s.nodes (x ∷ xs)
    → get_msg fuel pid s ≡ none
unfolding Holds get_msg Absent
get_msg_lem fuel pid s x xs (e, c, (h, hs), d, l) other =
    rw (ne→== s.first 0 (λ z. h (sym z ∙ e)), e, c)
      (get_loop_miss fuel pid (length xs) s.nodes x xs l other x xs l other)

found_miss :
    (pid : ℕ) (s : MsgList) (x : ℕ) (xs : List ℕ)
    → Holds s (x ∷ xs)
    → NoneFor pid s.nodes (x ∷ xs)
    → found pid s ≡ none
unfolding Holds
found_miss pid s x xs (e, c, nonzero, d, l) other =
    found-loop pid x (length xs) s e c ∙ recv_loop_miss pid x x s.nodes xs l other

-- When none of the messages of the list is for the process, `msg_recv` gives none and keeps the list.
pub nothing_received :
    (pid : ℕ) (s : MsgList) (xs : List ℕ)
    → Holds s xs
    → NoneFor pid s.nodes xs
    → msg_recv pid s ≡ (none, s)
unfolding msg_recv Holds
nothing_received pid s [] (e, c) other = rw (e) refl
nothing_received pid s (x ∷ xs) holds other =
    rw (ne→== s.first 0 (not_null s [] x xs holds), found_miss pid s x xs holds other) refl
