-- ===== src/Net/Tests.antt =====
-- A packet, a table and connections.
use lesch_os.Base.{ℕ, ◌+◌, ◌≤◌, ◌≡◌, refl, arith, some, none, ◌==◌, if◌then◌else◌, List, [], ◌∷◌}
use lesch_os.Socket.{Sockets, max_ports, cleared_port, cleared_socket}
use lesch_os.Net.{ip_calc_checksum, arp_lookup, arp_lookup_add}
use lesch_os.Net.Checksum.{with_checksum, ip_calc_checksum_lem}
use lesch_os.Net.Addresses.{empty_table, add_all, arp_lookup-arp_lookup_add}
use lesch_os.Net.Connections.{Event, connect, disconnect, run, room, room-run}

-- The first bytes of a header, with the checksum's place at 10.
abbrev header : ℕ → ℕ
header i =
    if i == 0 then 0x45 else if i == 3 then 60 else if i == 8 then 64 else if i == 9 then 6 else 0

ip_calc_checksum_lem_example :
    (c : ℕ) × (ip_calc_checksum 3 0 header 20 ≡ some c)
    × (ip_calc_checksum 3 0 (with_checksum 5 c header) 20 ≡ some 0)
ip_calc_checksum_lem_example =
    ip_calc_checksum_lem 5 0 20 header (λ i. ground arith) refl refl (omega arith) (omega arith)
      (omega arith)

arp_lookup-arp_lookup_add_example :
    arp_lookup 7 (arp_lookup_add 99 8 (add_all ((7, 77) ∷ []) empty_table)) ≡ none
arp_lookup-arp_lookup_add_example = arp_lookup-arp_lookup_add ((7, 77) ∷ []) 99 8 7 (omega arith)

abbrev web_port : Sockets
web_port = record {
  socket_pool = λ i. if i == 3 then record cleared_socket { port_src = 80 } else cleared_socket;
  ports_binded =
      λ i. if i == 0 then record cleared_port { port = 80; max_ports = 1 } else cleared_port;
  curr_thread = 0;
}

-- The port of one connection, in network order: the second connection comes after the first ended.
abbrev visits : List Event
visits = connect 3 20480 ∷ disconnect 3 ∷ connect 3 20480 ∷ []

room-run_example :
    ((run visits web_port).0 + room max_ports 0 ((run visits web_port).1)
      ≡ room max_ports 0 web_port)
    × ((run visits web_port).0 ≤ room max_ports 0 web_port)
room-run_example = room-run visits web_port
