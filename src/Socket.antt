-- ===== src/Socket.antt =====
-- src/socket.c: the pool of sockets and the table of ports that are listened on. The mutex is
-- released on every path, and left out. `none` is a socket's number outside of the pool.
pub mod Pool
pub mod Ports
pub mod Close
mod Tests
use lesch_os.Base.{
  ℕ, zero, suc, ◌+◌, ◌%◌, ◌^◌, Bool, true, false, Option, none, some, List, [], ◌∷◌, if◌then◌else◌,
  ltb, leb, ◌==◌,
}
use lesch_os.Descriptor.{htondw}

-- SOCK_MAX_CONNECT, MAX_PORTS, MAX_CONNECT and TCP_SEQ_NUM.
unfoldable pub sock_max_connect : ℕ
sock_max_connect = 32

unfoldable pub max_ports : ℕ
max_ports = 256

unfoldable pub max_connect : ℕ
max_connect = 10

unfoldable pub tcp_seq_num : ℕ
tcp_seq_num = 1122867

-- `enum tcp_status`
pub data Status : Type 0 where
  free reserv listen tcp_closed tcp_syn_sent tcp_syn_recv tcp_established tcp_fin_wait : Status

-- `struct socket`. A thread, a buffer and an address of four bytes are numbers.
pub record SocketStr : Type 0 where
  pub status : Status
  pub flags : ℕ
  pub ip_dst : ℕ
  pub ip_src : ℕ
  pub port_dst : ℕ
  pub port_src : ℕ
  pub thread : ℕ
  pub buf_recv : ℕ
  pub buf_send : ℕ
  pub need_send_bytes : ℕ
  pub send_bytes : ℕ
  pub recv_bytes : ℕ
  pub start_seq : ℕ
  pub seq_num : ℕ
  pub ack_num : ℕ
  pub event_time : ℕ
  pub space_addr : ℕ
  pub sock_type : ℕ
  pub protocol : ℕ

-- `struct bind_port`
pub record BindPort : Type 0 where
  pub thread : ℕ
  pub port : ℕ
  pub max_ports : ℕ
  pub count : ℕ
  pub id_buff : List ℕ

-- `socket_pool`, `ports_binded`, and what `get_curr_thread` returns.
pub record Sockets : Type 0 where
  pub socket_pool : ℕ → SocketStr
  pub ports_binded : ℕ → BindPort
  pub curr_thread : ℕ

-- All bytes 0; FREE is 0.
abbrev pub cleared_socket : SocketStr
cleared_socket = record {
  status = free;
  flags = 0;
  ip_dst = 0;
  ip_src = 0;
  port_dst = 0;
  port_src = 0;
  thread = 0;
  buf_recv = 0;
  buf_send = 0;
  need_send_bytes = 0;
  send_bytes = 0;
  recv_bytes = 0;
  start_seq = 0;
  seq_num = 0;
  ack_num = 0;
  event_time = 0;
  space_addr = 0;
  sock_type = 0;
  protocol = 0;
}

abbrev pub cleared_port : BindPort
cleared_port = record {
  thread = 0;
  port = 0;
  max_ports = 0;
  count = 0;
  id_buff = 0 ∷ 0 ∷ 0 ∷ 0 ∷ 0 ∷ 0 ∷ 0 ∷ 0 ∷ 0 ∷ 0 ∷ [];
}

abbrev pub set_socket : (id : ℕ) → SocketStr → Sockets → Sockets
set_socket id sock s = record s { socket_pool = λ i. if i == id then sock else s.socket_pool i }

abbrev pub set_port : (i : ℕ) → BindPort → Sockets → Sockets
set_port i port s = record s { ports_binded = λ j. if j == i then port else s.ports_binded j }

abbrev pub is_free : Status → Bool
is_free free = true
is_free _ = false

-- A slot that `socket` reserves.
unfoldable pub taken : (space_addr sock_type protocol thread : ℕ) → SocketStr → SocketStr
taken space_addr sock_type protocol thread sock = record sock {
  status = reserv;
  space_addr = space_addr;
  sock_type = sock_type;
  protocol = protocol;
  seq_num = htondw tcp_seq_num;
  ack_num = 0;
  thread = thread;
  recv_bytes = 0;
  send_bytes = 0;
}

-- The loop of `socket`, with `left` slots to go.
unfoldable pub socket_loop :
    (left i : ℕ) (space_addr sock_type protocol : ℕ) → Sockets → ℕ × Sockets
socket_loop zero i space_addr sock_type protocol s = (0, s)
socket_loop (suc left) i space_addr sock_type protocol s =
    let rest = socket_loop left (i + 1) space_addr sock_type protocol s in
    if is_free (s.socket_pool i).status
    then (i, set_socket i (taken space_addr sock_type protocol s.curr_thread (s.socket_pool i)) s)
    else rest

unfoldable pub socket : (space_addr sock_type protocol : ℕ) → Sockets → ℕ × Sockets
socket space_addr sock_type protocol s =
    socket_loop sock_max_connect 0 space_addr sock_type protocol s

-- `sock_bind` returns 0 and binds, 1 on a free socket, 2 on one in use.
unfoldable pub sock_bind : (id ip_src port_src : ℕ) → Sockets → Option (ℕ × Sockets)
sock_bind id ip_src port_src s =
    if leb sock_max_connect id
    then none
    else some (elim (s.socket_pool id).status [
      | reserv ↦ (
        0,
        set_socket id
            (record (s.socket_pool id) {
              ip_src = ip_src;
              port_src = port_src;
              status = tcp_closed;
            })
            s,
      )
      | free ↦ (1, s)
      | _ ↦ (2, s)
    ])

-- The second loop of `sock_listen`: does a later entry have the port?
unfoldable pub port_later : (left j port : ℕ) → Sockets → Bool
port_later zero j port s = false
port_later (suc left) j port s =
    let rest = port_later left (j + 1) port s in
    if (s.ports_binded j).port == port then true else rest

-- What `sock_listen` does at the first empty entry: the entry takes the port and the socket listens,
-- and where a later entry has the port the entry is cleared again.
unfoldable pub listening : (i id max_ps : ℕ) → Sockets → Sockets
listening i id max_ps s =
    let sock = s.socket_pool id in
    set_socket id (record sock { status = listen })
      (set_port i
        (record (s.ports_binded i) {
          port = sock.port_src;
          thread = sock.thread;
          max_ports = (if ltb max_connect max_ps then max_connect else max_ps);
          count = 0;
        })
        s)

unfoldable pub listen_at : (left i id max_ps : ℕ) → Sockets → ℕ × Sockets
listen_at left i id max_ps s =
    if port_later left (i + 1) (s.socket_pool id).port_src (listening i id max_ps s)
    then (0, set_port i cleared_port (listening i id max_ps s))
    else (1, listening i id max_ps s)

unfoldable pub listen_loop : (left i id max_ps : ℕ) → Sockets → ℕ × Sockets
listen_loop zero i id max_ps s = (0, s)
listen_loop (suc left) i id max_ps s =
    let rest = listen_loop left (i + 1) id max_ps s in
    if (s.ports_binded i).port == (s.socket_pool id).port_src
    then (0, s)
    else if (s.ports_binded i).port == 0
    then listen_at left i id max_ps s
    else rest

unfoldable pub sock_listen : (id max_ps : ℕ) → Sockets → Option (ℕ × Sockets)
sock_listen id max_ps s =
    if leb sock_max_connect id then none else some (listen_loop max_ports 0 id max_ps s)

unfoldable pub close_loop : (left i id : ℕ) → Sockets → ℕ × Sockets
close_loop zero i id s = (0, s)
close_loop (suc left) i id s =
    let rest = close_loop left (i + 1) id s in
    if (s.ports_binded i).port == (s.socket_pool id).port_src
    then (1, set_socket id cleared_socket (set_port i cleared_port s))
    else rest

unfoldable pub sock_close : (id : ℕ) → Sockets → Option (ℕ × Sockets)
sock_close id s = if leb sock_max_connect id then none else some (close_loop max_ports 0 id s)
