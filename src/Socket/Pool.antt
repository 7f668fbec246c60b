-- ===== src/Socket/Pool.antt =====
-- src/socket.c: the slot that socket hands out.
use lesch_os.Base.{
  ℕ, zero, suc, ◌+◌, ◌≤◌, ◌<◌, ◌≡◌, ◌≢◌, ◌⊎◌, inl, inr, refl, true, false, arith, ◌==◌, Bool-cases,
  eq→==, ne→==, ==→eq, ◌∙◌, ap,
}
use lesch_os.Socket.{
  reserv, SocketStr, Sockets, is_free, sock_max_connect, taken, set_socket, socket_loop, socket,
}

-- What `socket` does with the slots from `i` on.
pub record Reserved (i : ℕ) (s : Sockets) (r : ℕ × Sockets) : Type 0 where
  pub in_pool : r.0 < 32
  pub was_free : is_free (s.socket_pool r.0).status ≡ true
  pub first : (j : ℕ) → i ≤ j → j < r.0 → is_free (s.socket_pool j).status ≡ false
  pub now : (r.1.socket_pool r.0).status ≡ reserv
  pub others : (j : ℕ) → j ≢ r.0 → r.1.socket_pool j ≡ s.socket_pool j
  pub same_ports : r.1.ports_binded ≡ s.ports_binded

abbrev Full : (i : ℕ) → Sockets → Type 0
Full i s = (j : ℕ) → i ≤ j → j < 32 → is_free (s.socket_pool j).status ≡ false

-- A slot that is written, and the others.
other_slot :
    (i j : ℕ) (sock : SocketStr) (s : Sockets)
    → j ≢ i
    → (set_socket i sock s).socket_pool j ≡ s.socket_pool j
other_slot i j sock s ne = rw (ne→== j i ne) refl

this_slot : (i : ℕ) (sock : SocketStr) (s : Sockets) → (set_socket i sock s).socket_pool i ≡ sock
this_slot i sock s = rw (eq→== i i refl) refl

reserved_now :
    (i space_addr sock_type protocol : ℕ) (s : Sockets)
    → ((set_socket i
          (taken space_addr sock_type protocol s.curr_thread (s.socket_pool i))
          s).socket_pool
        i).status
      ≡ reserv
unfolding taken
reserved_now i space_addr sock_type protocol s = ap (λ k. k.status) (this_slot i _ s)

-- The slots from `i` on, once that at `i` is in use.
after_used :
    {hi : ℕ} (i : ℕ) (s : Sockets)
    → is_free (s.socket_pool i).status ≡ false
    → ((j : ℕ) → i + 1 ≤ j → j < hi → is_free (s.socket_pool j).status ≡ false)
    → (j : ℕ) → i ≤ j
    → j < hi
    → is_free (s.socket_pool j).status ≡ false
after_used i s used later j lo below = elim (Bool-cases (j == i)) [
  | inl e ↦ ap (λ k. is_free (s.socket_pool k).status) (==→eq j i e) ∙ used
  | inr ne ↦ later j (ground arith) below
]

socket_loop_lem :
    (left i space_addr sock_type protocol : ℕ) (s : Sockets)
    → left + i ≡ 32
    → Reserved i s (socket_loop left i space_addr sock_type protocol s)
      ⊎ (Full i s × (socket_loop left i space_addr sock_type protocol s ≡ (0, s)))
unfolding socket_loop taken
socket_loop_lem zero i space_addr sock_type protocol s e =
    inr (λ j lo hi. absurd (omega arith), refl)
socket_loop_lem (suc left) i space_addr sock_type protocol s e =
    elim (Bool-cases (is_free (s.socket_pool i).status)) [
      | inl hit ↦ rw hit (
          inl record {
            in_pool = omega arith;
            was_free = hit;
            first = λ j lo hi. absurd (omega arith);
            now = reserved_now i space_addr sock_type protocol s;
            others = λ j ne. other_slot i j _ s ne;
            same_ports = refl;
          })
      | inr used ↦
          rw used
            (elim (socket_loop_lem left (i + 1) space_addr sock_type protocol s (omega arith)) [
              | inl r ↦ inl record {
                in_pool = r.in_pool;
                was_free = r.was_free;
                first = λ j lo hi. after_used i s used (r.first) j lo hi;
                now = r.now;
                others = r.others;
                same_ports = r.same_ports;
              }
              | inr (full, same) ↦ inr (λ j lo hi. after_used i s used full j lo hi, same)
            ])
    ]

-- `socket` returns the first free slot, which is then reserved, and changes no other; where no slot is
-- free it returns 0 and changes nothing.
pub socket_lem :
    (space_addr sock_type protocol : ℕ) (s : Sockets)
    → Reserved 0 s (socket space_addr sock_type protocol s)
      ⊎ (((j : ℕ) → j < 32 → is_free (s.socket_pool j).status ≡ false)
          × (socket space_addr sock_type protocol s ≡ (0, s)))
unfolding socket sock_max_connect
socket_lem space_addr sock_type protocol s =
    elim (socket_loop_lem 32 0 space_addr sock_type protocol s refl) [
      | inl r ↦ inl r
      | inr (full, same) ↦ inr (λ j hi. full j (omega arith) hi, same)
    ]
