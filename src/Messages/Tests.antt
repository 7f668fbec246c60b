-- ===== src/Messages/Tests.antt =====
-- Runs of the message queue at concrete messages.
use lesch_os.Base.{ℕ, ◌≡◌, refl, arith, ◌==◌, if◌then◌else◌, [], ◌∷◌, some, none}
use lesch_os.Messages.{Msg, Nodes, MsgList, msg_list, msg_recv, msg_send, get_msg}
use lesch_os.Messages.Ring.{Linked, Absent, Different, Holds}
use lesch_os.Messages.Receive.{NoneFor, msg_recv_lem, get_msg_lem}
use lesch_os.Messages.Send.{kept_at, msg_recv-msg_send, msg_send-msg_recv}

abbrev letter : (prev next list pid_dst body : ℕ) → Msg
letter a b l for words = record {
  prev = a;
  next = b;
  list = l;
  msg_no = 0;
  pid_src = 0;
  pid_dst = for;
  body = words;
}

-- Messages at 100 for the process 5 and at 200 for the process 6; elsewhere, one for the process 7 that
-- is in no list.
abbrev two_nodes : Nodes
two_nodes i =
    if i == 100
    then letter 200 200 msg_list 5 50
    else if i == 200
    then letter 100 100 msg_list 6 60
    else letter 0 0 0 7 70

abbrev two_msgs : MsgList
two_msgs = record { nodes = two_nodes; first = 100; count = 2 }

two_msgs-Holds : Holds two_msgs (100 ∷ 200 ∷ [])
unfolding Holds Linked Absent Different
two_msgs-Holds = (
  refl,
  refl,
  (λ z. omega (arith, z), (λ z. omega (arith, z), tt)),
  ((λ z. omega (arith, z), tt), (tt, tt)),
  (refl, refl, (refl, refl)),
)

not_for_six : NoneFor 6 two_nodes (100 ∷ [])
unfolding NoneFor
not_for_six = (λ z. omega (arith, z), tt)

msg_recv_example :
    ((msg_recv 6 two_msgs).0 ≡ some (two_nodes 200)) × Holds ((msg_recv 6 two_msgs).1) (100 ∷ [])
msg_recv_example =
    msg_recv_lem 6 two_msgs (100 ∷ []) 200 [] two_msgs-Holds (omega arith) not_for_six refl

not_for_seven : NoneFor 7 two_nodes (100 ∷ 200 ∷ [])
unfolding NoneFor
not_for_seven = (λ z. omega (arith, z), (λ z. omega (arith, z), tt))

get_msg_example : get_msg 1000 7 two_msgs ≡ none
get_msg_example = get_msg_lem 1000 7 two_msgs 100 (200 ∷ []) two_msgs-Holds not_for_seven

apart_300 : Absent 300 (100 ∷ 200 ∷ [])
unfolding Absent
apart_300 = (λ z. omega (arith, z), (λ z. omega (arith, z), tt))

msg_recv-msg_send_example :
    let after = (msg_send 300 9 50 4 two_msgs).0 in
    ((msg_recv 7 after).0 ≡ some (after.nodes 300))
    × ((after.nodes 300).pid_src ≡ 9)
    × ((after.nodes 300).body ≡ 70)
    × ((after.nodes 50).msg_no ≡ 4)
    × Holds ((msg_recv 7 after).1) (100 ∷ 200 ∷ [])
msg_recv-msg_send_example =
    msg_recv-msg_send 300 9 50 4 two_msgs (100 ∷ 200 ∷ []) two_msgs-Holds refl
      (λ z. omega (arith, z)) apart_300 (omega arith) not_for_seven

apart_400 : Absent 400 (100 ∷ 200 ∷ [])
unfolding Absent
apart_400 = (λ z. omega (arith, z), (λ z. omega (arith, z), tt))

-- The process 7 sends on the message that it received.
msg_send-msg_recv_example :
    let s' = kept_at 400 (msg_recv 7 ((msg_send 300 9 50 4 two_msgs).0)) in
    ((s'.nodes 400).list ≡ msg_list) × Holds ((msg_send 300 7 400 5 s').0) (100 ∷ 200 ∷ [])
msg_send-msg_recv_example =
    msg_send-msg_recv 300 9 50 4 two_msgs (100 ∷ 200 ∷ []) two_msgs-Holds refl
      (λ z. omega (arith, z)) apart_300 (omega arith) not_for_seven 400 300 7 5 apart_400 apart_300
