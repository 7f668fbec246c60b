-- ===== src/Messages/Send.antt =====
-- msg_send, and the message on its way to msg_recv and on.
use lesch_os.Base.{
  ℕ, suc, ◌≡◌, ◌≢◌, refl, ap, ◌∙◌, sym, arith, List, [], ◌∷◌, ◌++◌, length, ne→==, eq→==, Option,
  some, none, ◌<◌, ◌^◌,
}
use mathlib.Core.Path.{subst}
use mathlib.Core.List.{append-nil}
use lesch_os.Messages.{
  Msg, Nodes, MsgList, msg_list, set_next, set_prev, set_list, set_no, set_src, store, write_msg,
  link_last, list_add, msg_recv, msg_send,
}
use lesch_os.Messages.Ring.{Linked, Absent, Holds}
use lesch_os.Messages.Add.{list_add_lem}
use lesch_os.Messages.Receive.{NoneFor, msg_recv_lem}

length_last : (a : ℕ) (xs : List ℕ) → length (xs ++ (a ∷ [])) ≡ suc (length xs)
length_last a [] = refl
length_last a (x ∷ xs) = ap suc (length_last a xs)

-- The two memories differ in the links of the message at `a` at most.
unfoldable SameLinks : (a : ℕ) → Nodes → Nodes → Type 0
SameLinks a n n' = (i : ℕ) → i ≢ a → ((n' i).next ≡ (n i).next) × ((n' i).prev ≡ (n i).prev)

Linked-same :
    (tmp : ℕ) (n n' : Nodes) (a : ℕ) (xs : List ℕ) (b : ℕ)
    → SameLinks tmp n n'
    → Linked n a xs b
    → tmp ≢ a
    → Absent tmp xs
    → tmp ≢ b
    → Linked n' a xs b
unfolding Linked Absent SameLinks
Linked-same tmp n n' a [] b same (e, e') ha away hb =
    ((same a (λ z. ha (sym z))).0 ∙ e, (same b (λ z. hb (sym z))).1 ∙ e')
Linked-same tmp n n' a (x ∷ xs) b same (e, e', l) ha (h, hs) hb = (
  (same a (λ z. ha (sym z))).0 ∙ e,
  (same x (λ z. h (sym z))).1 ∙ e',
  Linked-same tmp n n' x xs b same l h hs hb,
)

Holds-same :
    (tmp : ℕ) (s : MsgList) (n' : Nodes) (xs : List ℕ)
    → SameLinks tmp s.nodes n'
    → Holds s xs
    → Absent tmp xs
    → Holds (record s { nodes = n' }) xs
unfolding Holds Absent
Holds-same tmp s n' [] same holds new = holds
Holds-same tmp s n' (x ∷ xs) same (e, c, nonzero, d, l) (h, hs) =
    (e, c, nonzero, d, Linked-same tmp s.nodes n' x xs x same l h hs h)

store-own : (a : ℕ) (m : Msg) (n : Nodes) → store a m n a ≡ m
unfolding store
store-own a m n = rw (eq→== a a refl) refl

store-SameLinks : (a : ℕ) (m : Msg) (n : Nodes) → SameLinks a n (store a m n)
unfolding SameLinks store
store-SameLinks a m n i h = (ground (arith, h), ground (arith, h))

-- What `write_msg` leaves of the others, and what it makes of the copy.
module _ (tmp pid msg num : ℕ) (n : Nodes) where
  write_msg-SameLinks : SameLinks tmp n (write_msg tmp pid msg num n)
  unfolding SameLinks write_msg store set_no set_src
  write_msg-SameLinks i h = (ground (arith, h), ground (arith, h))

  write_msg_dst : (i : ℕ) → i ≢ tmp → (write_msg tmp pid msg num n i).pid_dst ≡ (n i).pid_dst
  unfolding write_msg store set_no set_src
  write_msg_dst i h = ground (arith, h)

  write_msg_list : (write_msg tmp pid msg num n tmp).list ≡ (n msg).list
  unfolding write_msg store set_no set_src
  write_msg_list = ground arith

  write_msg_copy :
      ((write_msg tmp pid msg num n tmp).pid_src ≡ pid)
      × ((write_msg tmp pid msg num n tmp).pid_dst ≡ (n msg).pid_dst)
      × ((write_msg tmp pid msg num n tmp).body ≡ (n msg).body)
  unfolding write_msg store set_no set_src
  write_msg_copy = (ground arith, ground arith, ground arith)

-- The message of the caller gets the number.
write_msg_number :
    (tmp pid msg num : ℕ) (n : Nodes) → (write_msg tmp pid msg num n msg).msg_no ≡ num
unfolding write_msg store set_no set_src
write_msg_number tmp pid msg num n = ground arith

-- What `list_add` leaves alone: for whom a message is, what it says, and its number.
list_add_keeps :
    (item i : ℕ) (s : MsgList)
    → (((list_add item s).nodes i).pid_src ≡ (s.nodes i).pid_src)
      × (((list_add item s).nodes i).pid_dst ≡ (s.nodes i).pid_dst)
      × (((list_add item s).nodes i).body ≡ (s.nodes i).body)
      × (((list_add item s).nodes i).msg_no ≡ (s.nodes i).msg_no)
unfolding list_add link_last set_next set_prev set_list
list_add_keeps item i s = (ground arith, ground arith, ground arith, ground arith)

list_add_marks :
    (item : ℕ) (s : MsgList)
    → (s.nodes item).list ≡ 0
    → ((list_add item s).nodes item).list ≡ msg_list
unfolding list_add link_last set_next set_prev set_list
list_add_marks item s h = ground (arith, h)

list_add_refuses : (item : ℕ) (s : MsgList) → (s.nodes item).list ≢ 0 → list_add item s ≡ s
unfolding list_add
list_add_refuses item s h = rw (ne→== (s.nodes item).list 0 h) refl

-- For a copy at an address other than NULL and those of the messages, and fewer than 2^32 - 1
-- messages: a message that belongs to no list stands behind all the messages after `msg_send`.
pub msg_send_lem :
    (tmp pid msg num : ℕ) (s : MsgList) (xs : List ℕ)
    → Holds s xs
    → (s.nodes msg).list ≡ 0
    → tmp ≢ 0
    → Absent tmp xs
    → suc (length xs) < 2 ^ 32
    → Holds ((msg_send tmp pid msg num s).0) (xs ++ (tmp ∷ []))
unfolding msg_send
msg_send_lem tmp pid msg num s xs holds own there new few =
    let n' = write_msg tmp pid msg num s.nodes in
    list_add_lem tmp (record s { nodes = n' }) xs
      (Holds-same tmp s n' xs (write_msg-SameLinks tmp pid msg num s.nodes) holds new)
      (write_msg_list tmp pid msg num s.nodes ∙ own) there new few

NoneFor-send :
    (tmp pid msg num for : ℕ) (s : MsgList) (xs : List ℕ)
    → NoneFor for s.nodes xs
    → Absent tmp xs
    → NoneFor for ((msg_send tmp pid msg num s).0.nodes) xs
unfolding NoneFor Absent msg_send
NoneFor-send tmp pid msg num for s [] other new = other
NoneFor-send tmp pid msg num for s (x ∷ xs) (o, os) (h, hs) =
    let keeps = list_add_keeps tmp x (record s { nodes = write_msg tmp pid msg num s.nodes }) in
    let same = keeps.1 ∙ write_msg_dst tmp pid msg num s.nodes x (λ e. h (sym e)) in
    ((λ z. o (z ∙ same)), NoneFor-send tmp pid msg num for s xs os hs)

-- The caller of `msg_recv` with the message copied to its address `a`.
unfoldable pub kept_at : (a : ℕ) → Option Msg × MsgList → MsgList
kept_at a (none, s) = s
kept_at a (some m, s) = record s { nodes = store a m s.nodes }

kept-store :
    (a : ℕ) (r : Option Msg × MsgList) (m : Msg)
    → r.0 ≡ some m
    → kept_at a r ≡ (record (r.1) { nodes = store a m r.1.nodes })
unfolding kept_at
kept-store a (none, s) m e = absurd cc
kept-store a (some m', s) m e =
    let same : m' ≡ m = cc in ap (λ t. record s { nodes = store a t s.nodes }) same

-- A message that names a list is not sent.
refused :
    (tmp pid msg num : ℕ) (s : MsgList) (xs : List ℕ)
    → (s.nodes msg).list ≡ msg_list
    → Absent tmp xs
    → Holds s xs
    → Holds ((msg_send tmp pid msg num s).0) xs
unfolding msg_send
refused tmp pid msg num s xs named new holds =
    let n' = write_msg tmp pid msg num s.nodes in
    let marked : (n' tmp).list ≡ msg_list = write_msg_list tmp pid msg num s.nodes ∙ named in
    subst (λ r. Holds r xs)
      (sym (list_add_refuses tmp (record s { nodes = n' }) (λ z. omega (arith, marked, z))))
      (Holds-same tmp s n' xs (write_msg-SameLinks tmp pid msg num s.nodes) holds new)

module _ (tmp pid msg num : ℕ) (s : MsgList) (xs : List ℕ) (holds : Holds s xs)
    (own : (s.nodes msg).list ≡ 0) (there : tmp ≢ 0) (new : Absent tmp xs)
    (few : suc (length xs) < 2 ^ 32) (other : NoneFor (s.nodes msg).pid_dst s.nodes xs) where
  -- For a message that belongs to no list, its copy at an address other than NULL and those of the
  -- messages, and fewer than 2^32 - 1 messages, none of them for the process that it is for: after
  -- `msg_send` this process receives the message, with the sender's number and the body it was sent
  -- with, the sender's own message has the number that `msg_count` was, and the list holds the messages
  -- it held before.
  pub msg_recv-msg_send :
      let after = (msg_send tmp pid msg num s).0 in
      ((msg_recv (s.nodes msg).pid_dst after).0 ≡ some (after.nodes tmp))
      × ((after.nodes tmp).pid_src ≡ pid)
      × ((after.nodes tmp).body ≡ (s.nodes msg).body)
      × ((after.nodes msg).msg_no ≡ num)
      × Holds ((msg_recv (s.nodes msg).pid_dst after).1) xs
  unfolding msg_send
  msg_recv-msg_send =
      let dst : ℕ = (s.nodes msg).pid_dst in
      let after = (msg_send tmp pid msg num s).0 in
      let (src, to, body) = write_msg_copy tmp pid msg num s.nodes in
      let before = record s { nodes = write_msg tmp pid msg num s.nodes } in
      let (src', to', body', same) = list_add_keeps tmp tmp before in
      let (got, left) =
        msg_recv_lem dst after xs tmp [] (msg_send_lem tmp pid msg num s xs holds own there new few)
          (subst (λ t. t < 2 ^ 32) (sym (length_last tmp xs)) few)
          (NoneFor-send tmp pid msg num dst s xs other new) (sym (to' ∙ to)) in
      (
        got,
        src' ∙ src,
        body' ∙ body,
        (list_add_keeps tmp msg before).3 ∙ write_msg_number tmp pid msg num s.nodes,
        subst (λ t. Holds ((msg_recv dst after).1) t) (append-nil xs) left,
      )

  -- Under the conditions of a message that is sent and received (it belongs to no list, its copy
  -- lies at an address other than NULL and those of the messages, and there are fewer than 2^32
  -- - 1 messages, none of them for its process): when the receiver keeps the message at an
  -- address that is none of the list's messages and sends it on from there, the new copy at such
  -- an address too, the list holds the same messages as before the first sending, so the message
  -- is not sent. The message that was kept still names the list it was taken from.
  pub msg_send-msg_recv :
      (a tmp' pid' num' : ℕ)
      → Absent a xs
      → Absent tmp' xs
      → let s' = kept_at a (msg_recv (s.nodes msg).pid_dst (msg_send tmp pid msg num s).0) in
        ((s'.nodes a).list ≡ msg_list) × Holds ((msg_send tmp' pid' a num' s').0) xs
  unfolding msg_send
  msg_send-msg_recv a tmp' pid' num' away new' =
      let dst : ℕ = (s.nodes msg).pid_dst in
      let after = (msg_send tmp pid msg num s).0 in
      let m : Msg = after.nodes tmp in
      let r = msg_recv dst after in
      let (got, src, body, counted, left) = msg_recv-msg_send in
      let marked : m.list ≡ msg_list =
        list_add_marks tmp (record s { nodes = write_msg tmp pid msg num s.nodes })
          (write_msg_list tmp pid msg num s.nodes ∙ own) in
      let kept : MsgList = record (r.1) { nodes = store a m (r.1.nodes) } in
      let holds' : Holds kept xs =
        Holds-same a (r.1) (store a m (r.1.nodes)) xs (store-SameLinks a m (r.1.nodes)) left away in
      let named : (kept.nodes a).list ≡ msg_list =
        ap (λ t. t.list) (store-own a m (r.1.nodes)) ∙ marked in
      subst (λ s'. ((s'.nodes a).list ≡ msg_list) × Holds ((msg_send tmp' pid' a num' s').0) xs)
        (sym (kept-store a r m got)) (named, refused tmp' pid' a num' kept xs named new' holds')
