-- ===== src/Net/Connections.antt =====
-- How many connections a port accepts.
use lesch_os.Base.{
  ℕ, zero, suc, ◌+◌, ◌-◌, ◌≤◌, ◌<◌, ◌≡◌, refl, ap, ◌∙◌, arith, ◌==◌, List, [], ◌∷◌, Bool-cases,
  Option-cases, ◌⊎◌, inl, inr, ne→==, eq→==, ltb, ◌&&◌,
}
use lesch_os.Descriptor.{ntohw}
use lesch_os.Socket.{Sockets, BindPort, set_port, max_ports}
use lesch_os.Net.{put_id, drop_id, listen_ports, tcp_listen, closed_loop, tcp_closed}

-- The connections that the entries from `i` on still accept.
unfoldable pub room : (left i : ℕ) → Sockets → ℕ
room zero i s = 0
room (suc left) i s =
    ((s.ports_binded i).max_ports - (s.ports_binded i).count) + room left (i + 1) s

room_other :
    (left i j : ℕ) (p : BindPort) (s : Sockets)
    → j < i
    → room left i (set_port j p s) ≡ room left i s
unfolding room
room_other zero i j p s h = refl
room_other (suc left) i j p s h =
    let other = ne→== i j (omega arith) in
    rw (other, room_other left (i + 1) j p s (omega arith)) refl

-- The entry `i` changes.
room_here :
    (left i : ℕ) (p : BindPort) (s : Sockets)
    → room (suc left) i (set_port i p s) ≡ (p.max_ports - p.count) + room left (i + 1) s
unfolding room
room_here left i p s = rw (eq→== i i refl, room_other left (i + 1) i p s (omega arith)) refl

-- One round: the entry takes the connection, or the loop goes on.
listen_round :
    (left i id port : ℕ) (s : Sockets)
    → ((ids : List ℕ) × ((s.ports_binded i).count < (s.ports_binded i).max_ports)
        × (listen_ports (suc left) i id port s ≡ (
          1,
          set_port i
              (record (s.ports_binded i) { count = (s.ports_binded i).count + 1; id_buff = ids })
              s,
        )))
      ⊎ (listen_ports (suc left) i id port s ≡ listen_ports left (i + 1) id port s)
unfolding listen_ports
listen_round left i id port s =
    elim (Bool-cases (
      (port == (s.ports_binded i).port)
      && ltb (s.ports_binded i).count (s.ports_binded i).max_ports)) [
        | inr f ↦ inr (rw f refl)
        | inl t ↦ elim (Option-cases (put_id id (s.ports_binded i).id_buff)) [
          | inl e ↦ inr (rw (t, e) refl)
          | inr (ids, e) ↦ inl (ids, ground (arith, t), rw (t, e) refl)
        ]
      ]

closed_round :
    (left i id : ℕ) (s : Sockets)
    → ((ids : List ℕ) × (closed_loop (suc left) i id s
          ≡ set_port i (record (s.ports_binded i) { id_buff = ids }) s))
      ⊎ (closed_loop (suc left) i id s ≡ closed_loop left (i + 1) id s)
unfolding closed_loop
closed_round left i id s =
    elim (Bool-cases ((s.socket_pool id).port_src == (s.ports_binded i).port)) [
      | inr f ↦ inr (rw f refl)
      | inl t ↦ elim (Option-cases (drop_id id (s.ports_binded i).id_buff)) [
        | inl e ↦ inr (rw (t, e) refl)
        | inr (ids, e) ↦ inl (ids, rw (t, e) refl)
      ]
    ]

-- The entries before the one where a loop starts stay.
listen_kept :
    (left i j id port : ℕ) (s : Sockets)
    → j < i
    → ((listen_ports left i id port s).1).ports_binded j ≡ s.ports_binded j
unfolding listen_ports
listen_kept zero i j id port s h = refl
listen_kept (suc left) i j id port s h = elim (listen_round left i id port s) [
  | inl (ids, small, e) ↦ ap (λ r. r.1.ports_binded j) e ∙ (rw (ne→== j i (omega arith)) refl)
  | inr e ↦ ap (λ r. r.1.ports_binded j) e ∙ listen_kept left (i + 1) j id port s (omega arith)
]

closed_kept :
    (left i j id : ℕ) (s : Sockets)
    → j < i
    → (closed_loop left i id s).ports_binded j ≡ s.ports_binded j
unfolding closed_loop
closed_kept zero i j id s h = refl
closed_kept (suc left) i j id s h = elim (closed_round left i id s) [
  | inl (ids, e) ↦ ap (λ r. r.ports_binded j) e ∙ (rw (ne→== j i (omega arith)) refl)
  | inr e ↦ ap (λ r. r.ports_binded j) e ∙ closed_kept left (i + 1) j id s (omega arith)
]

room_cons :
    (left i : ℕ) (s s' : Sockets)
    → s'.ports_binded i ≡ s.ports_binded i
    → room (suc left) i s'
      ≡ ((s.ports_binded i).max_ports - (s.ports_binded i).count) + room left (i + 1) s'
unfolding room
room_cons left i s s' e = ap (λ p. (p.max_ports - p.count) + room left (i + 1) s') e

room-listen_ports :
    (left i id port : ℕ) (s : Sockets)
    → (listen_ports left i id port s).0 + room left i ((listen_ports left i id port s).1)
      ≡ room left i s
unfolding listen_ports room
room-listen_ports zero i id port s = omega arith
room-listen_ports (suc left) i id port s = elim (listen_round left i id port s) [
  | inl (ids, small, e) ↦
      ap (λ r. r.0 + room (suc left) i (r.1)) e
      ∙ omega (
        arith,
        small,
        room_here left i
            (record (s.ports_binded i) { count = (s.ports_binded i).count + 1; id_buff = ids }) s,
      )
  | inr e ↦
      ap (λ r. r.0 + room (suc left) i (r.1)) e
      ∙ omega (
        arith,
        room_cons left i s ((listen_ports left (i + 1) id port s).1)
            (listen_kept left (i + 1) i id port s (omega arith)),
        room-listen_ports left (i + 1) id port s,
      )
]

room-closed_loop :
    (left i id : ℕ) (s : Sockets) → room left i (closed_loop left i id s) ≡ room left i s
unfolding closed_loop room
room-closed_loop zero i id s = refl
room-closed_loop (suc left) i id s = elim (closed_round left i id s) [
  | inl (ids, e) ↦
      ap (room (suc left) i) e ∙ room_here left i (record (s.ports_binded i) { id_buff = ids }) s
  | inr e ↦
      ap (room (suc left) i) e
      ∙ omega (
        arith,
        room_cons left i s (closed_loop left (i + 1) id s)
            (closed_kept left (i + 1) i id s (omega arith)),
        room-closed_loop left (i + 1) id s,
      )
]

-- A connection comes for a port, or the one of a socket ends.
pub data Event : Type 0 where
  connect : (id port_dst : ℕ) → Event
  disconnect : (id : ℕ) → Event

-- The events in order, and how many connections were accepted.
unfoldable pub run : List Event → Sockets → ℕ × Sockets
run [] s = (0, s)
run (connect id port_dst ∷ es) s =
    let (taken, s) = tcp_listen id port_dst s in let (more, s) = run es s in (taken + more, s)
run (disconnect id ∷ es) s = run es (tcp_closed id s)

accepted :
    (es : List Event) (s : Sockets)
    → (run es s).0 + room max_ports 0 ((run es s).1) ≡ room max_ports 0 s
unfolding run tcp_listen tcp_closed
accepted [] s = omega arith
accepted (connect id port_dst ∷ es) s = omega (
  arith,
  accepted es ((tcp_listen id port_dst s).1),
  room-listen_ports max_ports 0 id (ntohw port_dst) s,
)
accepted (disconnect id ∷ es) s = accepted es (tcp_closed id s) ∙ room-closed_loop max_ports 0 id s

-- Over any connections that come and end, `tcp_listen` accepts as many as the ports' room shrinks by:
-- `tcp_closed` gives no room back. So all ports together never accept more than the room they had, the
-- sum of `max_ports - count`, however many connections end.
pub room-run :
    (es : List Event) (s : Sockets)
    → ((run es s).0 + room max_ports 0 ((run es s).1) ≡ room max_ports 0 s)
      × ((run es s).0 ≤ room max_ports 0 s)
room-run es s = (accepted es s, omega (arith, accepted es s))
