-- ===== src/Net.antt =====
-- src/net.c: the checksum of packets and the table of the hardware addresses, and the
-- connections that a port has.
pub mod Checksum
pub mod Addresses
pub mod Connections
mod Tests
use lesch_os.Base.{
  ℕ, zero, suc, ◌+◌, ◌-◌, ◌*◌, ◌/◌, ◌%◌, ◌^◌, Option, none, some, ◌==◌, if◌then◌else◌, add32,
  bit_and, bit_or, List, [], ◌∷◌, ltb, leb, ◌&&◌,
}
use lesch_os.Socket.{Sockets, BindPort, set_port, max_ports}
use lesch_os.Descriptor.{htonw, ntohw}

-- The two loops over the bytes: words of two bytes, the high one first, and the last byte if there is
-- one.
unfoldable pub sum_words : (len sum : ℕ) → (pack : ℕ → ℕ) → ℕ
sum_words zero sum pack = sum
sum_words (suc zero) sum pack = add32 sum (pack 0 * 256)
sum_words (suc (suc len)) sum pack =
    sum_words len (add32 sum (bit_or (pack 0 * 256) (pack 1))) (λ i. pack (i + 2))

-- The loop that brings the sum to 16 bits.
unfoldable pub fold : (fuel sum : ℕ) → Option ℕ
fold zero sum = none
fold (suc fuel) sum =
    let rest = fold fuel (add32 (bit_and sum 0x0000ffff) (sum / 2 ^ 16)) in
    if sum / 2 ^ 16 == 0 then some sum else rest

unfoldable pub ip_calc_checksum : (fuel sum : ℕ) → (pack : ℕ → ℕ) → (len : ℕ) → Option ℕ
ip_calc_checksum fuel sum pack len = elim (fold fuel (sum_words len sum pack)) [
  | none ↦ none
  | some s ↦ some (0xffff - htonw (s % 2 ^ 16))
]

-- `arp_table` with `arp_table_size` and `arp_table_curr`. An address of four or six bytes is a number.
pub record Arp : Type 0 where
  pub ip_addr : ℕ → ℕ
  pub mac_addr : ℕ → ℕ
  pub arp_table_size : ℕ
  pub arp_table_curr : ℕ

-- ARP_TABLE_SIZE
abbrev pub table_size : ℕ
table_size = 512

unfoldable pub lookup_loop : (left i ip : ℕ) → Arp → Option ℕ
lookup_loop zero i ip t = none
lookup_loop (suc left) i ip t =
    let rest = lookup_loop left (i + 1) ip t in
    if t.ip_addr i == ip then some (t.mac_addr i) else rest

-- `none` where it returns 0.
unfoldable pub arp_lookup : (ip : ℕ) → Arp → Option ℕ
arp_lookup ip t = lookup_loop table_size 0 ip t

unfoldable pub arp_lookup_add : (mac ip : ℕ) → Arp → Arp
arp_lookup_add mac ip t = record {
  ip_addr = λ i. if i == t.arp_table_curr then ip else t.ip_addr i;
  mac_addr = λ i. if i == t.arp_table_curr then mac else t.mac_addr i;
  arp_table_size =
      (if ltb t.arp_table_size table_size then t.arp_table_size + 1 else t.arp_table_size);
  arp_table_curr = (if leb table_size t.arp_table_curr then 0 else t.arp_table_curr);
}

-- The loop over `id_buff` of `tcp_listen`: the first place that is 0 takes the socket.
unfoldable pub put_id : (id : ℕ) → List ℕ → Option (List ℕ)
put_id id [] = none
put_id id (x ∷ xs) =
    if x == 0 then some (id ∷ xs) else elim (put_id id xs) [ none ↦ none | some ys ↦ some (x ∷ ys) ]

-- The loop of `tcp_closed`: the first place that holds the socket is 0 again.
unfoldable pub drop_id : (id : ℕ) → List ℕ → Option (List ℕ)
drop_id id [] = none
drop_id id (x ∷ xs) =
    if x == id
    then some (0 ∷ xs)
    else elim (drop_id id xs) [ none ↦ none | some ys ↦ some (x ∷ ys) ]

unfoldable pub listen_ports : (left i id port : ℕ) → Sockets → ℕ × Sockets
listen_ports zero i id port s = (0, s)
listen_ports (suc left) i id port s =
    let rest = listen_ports left (i + 1) id port s in
    let entry = s.ports_binded i in
    if (port == entry.port) && ltb entry.count entry.max_ports
    then elim (put_id id entry.id_buff) [
      | some ids ↦ (1, set_port i (record entry { count = entry.count + 1; id_buff = ids }) s)
      | none ↦ rest
    ]
    else rest

-- `port_dst` is the field of the packet.
unfoldable pub tcp_listen : (id port_dst : ℕ) → Sockets → ℕ × Sockets
tcp_listen id port_dst s = listen_ports max_ports 0 id (ntohw port_dst) s

unfoldable pub closed_loop : (left i id : ℕ) → Sockets → Sockets
closed_loop zero i id s = s
closed_loop (suc left) i id s =
    let rest = closed_loop left (i + 1) id s in
    let entry = s.ports_binded i in
    if (s.socket_pool id).port_src == entry.port
    then elim (drop_id id entry.id_buff) [
      | some ids ↦ set_port i (record entry { id_buff = ids }) s
      | none ↦ rest
    ]
    else rest

unfoldable pub tcp_closed : (id : ℕ) → Sockets → Sockets
tcp_closed id s = closed_loop max_ports 0 id s
