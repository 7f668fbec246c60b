-- ===== src/Socket/Close.antt =====
-- src/socket.c: the ports of the table after sock_close.
use lesch_os.Base.{
  ℕ, zero, suc, ◌+◌, ◌<◌, ◌≡◌, ◌≢◌, refl, false, some, arith, leb, ◌==◌, Bool-cases, inl, inr,
  ==→eq, ==→ne, ◌∙◌, ap, sym,
}
use lesch_os.Socket.{
  Sockets, set_socket, set_port, cleared_socket, cleared_port, sock_max_connect, max_ports,
  close_loop, sock_close,
}
use lesch_os.Socket.Ports.{
  cleared-Distinct, written_entry, other_entry, written_socket, Distinct, Elsewhere, port_at,
}

-- What `sock_close` leaves.
pub record Closed (id : ℕ) (s : Sockets) (r : ℕ × Sockets) : Type 0 where
  pub distinct : Distinct r.1
  pub gone : (j : ℕ) → j < 256 → port_at r.1 j ≢ (s.socket_pool id).port_src
  pub freed : r.0 ≡ 1 → r.1.socket_pool id ≡ cleared_socket
  pub kept : r.0 ≡ 0 → r.1 ≡ s

close_loop_lem :
    (left i id : ℕ) (s : Sockets)
    → left + i ≡ 256
    → Distinct s
    → (s.socket_pool id).port_src ≢ 0
    → ((j : ℕ) → j < i → port_at s j ≢ (s.socket_pool id).port_src)
    → Closed id s (close_loop left i id s)
unfolding close_loop
close_loop_lem zero i id s e d port before = record {
  distinct = d;
  gone = λ j hj. before j (omega arith);
  freed = λ h. absurd (omega arith);
  kept = λ h. refl;
}
close_loop_lem (suc left) i id s e d port before =
    let p : ℕ = (s.socket_pool id).port_src in
    elim (Bool-cases (port_at s i == p)) [
      | inl hit ↦
          let s' = set_socket id cleared_socket (set_port i cleared_port s) in
          let at : port_at s i ≡ p = ==→eq (port_at s i) p hit in
          let here : port_at s' i ≡ 0 = ap (λ b. b.port) (written_entry i cleared_port s) in
          let same : Elsewhere i s s' =
            λ j ne. ap (λ b. b.port) (other_entry i j cleared_port s ne) in
          rw hit record {
            distinct = cleared-Distinct i s s' d here same;
            gone = λ j hj. elim (Bool-cases (j == i)) [
              | inl ji ↦ λ h. port (sym h ∙ (ap (port_at s') (==→eq j i ji) ∙ here))
              | inr jn ↦
                  let apart = ==→ne j i jn in
                  λ h. port (
                    sym at
                    ∙ d i j (omega arith) hj (λ ij. apart (sym ij)) (at ∙ (sym h ∙ same j apart)))
            ];
            freed = λ h. written_socket id cleared_socket (set_port i cleared_port s);
            kept = λ h. absurd (omega arith);
          }
      | inr other ↦ rw other (
          close_loop_lem left (i + 1) id s (omega arith) d port (λ j hj.
            elim (Bool-cases (j == i)) [
              | inl ji ↦ λ h. ==→ne (port_at s i) p other (ap (port_at s) (sym (==→eq j i ji)) ∙ h)
              | inr jn ↦ before j (ground arith)
            ]))
    ]

-- `sock_close` of a socket in the pool that has a port keeps the ports of the table distinct where
-- they are, and afterwards no entry has the port. It clears the socket where it returns 1, and
-- where it returns 0 it changes nothing.
pub sock_close-Distinct :
    (id : ℕ) (s : Sockets)
    → id < 32
    → Distinct s
    → (s.socket_pool id).port_src ≢ 0
    → (r : ℕ × Sockets) × (sock_close id s ≡ some r) × Closed id s r
unfolding sock_close sock_max_connect max_ports
sock_close-Distinct id s h d port =
    let inside : leb 32 id ≡ false = ground arith in
    (
      close_loop 256 0 id s,
      rw inside refl,
      close_loop_lem 256 0 id s refl d port (λ j hj. absurd (omega arith)),
    )
