-- ===== src/Messages.antt =====
-- src/list.c and src/msg.c: the messages between processes, in a ring of list items. An address is a
-- number, and NULL is 0. A mutex is released on every path, and left out.
pub mod Ring
pub mod Add
pub mod Remove
pub mod Receive
pub mod Send
mod Tests
use lesch_os.Base.{
  ℕ, zero, suc, ◌+◌, ◌-◌, Option, none, some, ◌==◌, if◌then◌else◌, add32, sub32, ltb,
}

-- `struct msg` with its `list_item`, whose `data` is not used. `id`, `dsize` and `buff` are the body.
pub record Msg : Type 0 where
  pub prev : ℕ
  pub next : ℕ
  pub list : ℕ
  pub msg_no : ℕ
  pub pid_src : ℕ
  pub pid_dst : ℕ
  pub body : ℕ

abbrev pub Nodes : Type 0
Nodes = ℕ → Msg

-- `msg_list` at its address, and the memory where the items lie.
pub record MsgList : Type 0 where
  pub nodes : Nodes
  pub first : ℕ
  pub count : ℕ

-- The address of `msg_list`.
abbrev pub msg_list : ℕ
msg_list = 1

unfoldable pub set_next : (a v : ℕ) → Nodes → Nodes
set_next a v nodes i = if i == a then record (nodes i) { next = v } else nodes i

unfoldable pub set_prev : (a v : ℕ) → Nodes → Nodes
set_prev a v nodes i = if i == a then record (nodes i) { prev = v } else nodes i

unfoldable pub set_list : (a v : ℕ) → Nodes → Nodes
set_list a v nodes i = if i == a then record (nodes i) { list = v } else nodes i

-- The writes of `list_add` to the items, where the list has some.
unfoldable pub link_last : (item first : ℕ) → Nodes → Nodes
link_last item first nodes =
    let last : ℕ = (nodes first).prev in
    set_prev first item
      (set_next last item (set_prev item last (set_next item first (set_list item msg_list nodes))))

unfoldable pub list_add : (item : ℕ) → MsgList → MsgList
list_add item s =
    if (s.nodes item).list == 0
    then if s.first == 0
      then record {
        nodes = set_prev item item (set_next item item (set_list item msg_list s.nodes));
        first = item;
        count = add32 s.count 1;
      }
      else record s { nodes = link_last item s.first s.nodes; count = add32 s.count 1 }
    else s

-- The writes of `list_remove` to the neighbours.
unfoldable pub unlink_item : (item : ℕ) → Nodes → Nodes
unlink_item item nodes =
    let behind = set_next (nodes item).prev (nodes item).next nodes in
    set_prev (behind item).next (behind item).prev behind

unfoldable pub first_without : (item : ℕ) → MsgList → ℕ
first_without item s =
    if s.first == item
    then if (s.nodes item).next == item then 0 else (s.nodes item).next
    else s.first

unfoldable pub list_remove : (item : ℕ) → MsgList → MsgList
list_remove item s = record {
  nodes = unlink_item item s.nodes;
  first = first_without item s;
  count = sub32 s.count 1;
}

-- The loop of `msg_recv`, with a round for each message that is counted.
unfoldable pub recv_loop : (left tmp pid : ℕ) → Nodes → Option ℕ
recv_loop zero tmp pid nodes = none
recv_loop (suc left) tmp pid nodes =
    let rest = recv_loop left (nodes tmp).next pid nodes in
    if pid == (nodes tmp).pid_dst then some tmp else rest

-- The message at the end of the loop, which runs once at least and compares its rounds with the count.
unfoldable pub found : (pid : ℕ) → MsgList → Option ℕ
found pid s =
    if s.count == 0
    then (if pid == (s.nodes s.first).pid_dst then none else some (s.nodes s.first).next)
    else recv_loop s.count s.first pid s.nodes

-- `msg_recv` of the process `pid`: the message, if there is one, and the list without it.
unfoldable pub msg_recv : (pid : ℕ) → MsgList → Option Msg × MsgList
msg_recv pid s = if s.first == 0 then (none, s) else elim (found pid s) [
  | none ↦ (none, s)
  | some tmp ↦ (some (s.nodes tmp), list_remove tmp s)
]

-- The loop of `get_msg`, which does not count: `none` is no end within `fuel` rounds, and
-- `some 0` its NULL.
unfoldable pub get_loop : (fuel tmp pid count : ℕ) → Nodes → Option ℕ
get_loop zero tmp pid count nodes = none
get_loop (suc fuel) tmp pid count nodes =
    let rest = get_loop fuel (nodes tmp).next pid count nodes in
    if pid == (nodes tmp).pid_dst
    then (if count == 0 then some 0 else some tmp)
    else if ltb 0 count
    then rest
    else some 0

unfoldable pub get_msg : (fuel pid : ℕ) → MsgList → Option ℕ
get_msg fuel pid s = if s.first == 0 then some 0 else get_loop fuel s.first pid s.count s.nodes

unfoldable pub set_no : (a v : ℕ) → Nodes → Nodes
set_no a v nodes i = if i == a then record (nodes i) { msg_no = v } else nodes i

unfoldable pub set_src : (a v : ℕ) → Nodes → Nodes
set_src a v nodes i = if i == a then record (nodes i) { pid_src = v } else nodes i

-- `memcpy` of a whole message to the address `a`.
unfoldable pub store : (a : ℕ) → Msg → Nodes → Nodes
store a msg nodes i = if i == a then msg else nodes i

-- The writes of `msg_send` to the messages, up to `list_add`.
unfoldable pub write_msg : (tmp pid msg msg_count : ℕ) → Nodes → Nodes
write_msg tmp pid msg msg_count nodes =
    set_src tmp pid (set_no msg msg_count (store tmp (nodes msg) nodes))

-- `msg_send` puts a copy of the message at `msg`, which `kcalloc` gave the address `tmp`, behind the
-- others, and gives the message its number. With the list comes the new `msg_count`.
unfoldable pub msg_send : (tmp pid msg msg_count : ℕ) → MsgList → MsgList × ℕ
msg_send tmp pid msg msg_count s =
    (list_add tmp (record s { nodes = write_msg tmp pid msg msg_count s.nodes }), add32 msg_count 1)
