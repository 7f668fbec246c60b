-- ===== src/Socket/Ports.antt =====
-- src/socket.c: the ports of the table after sock_listen.
use lesch_os.Base.{
  ℕ, zero, suc, ◌+◌, ◌≤◌, ◌<◌, ◌≡◌, ◌≢◌, refl, false, some, arith, leb, ltb, ◌==◌, Bool-cases, inl,
  inr, eq→==, ne→==, ==→eq, ==→ne, ◌∙◌, ap, sym,
}
use lesch_os.Socket.{
  listen, SocketStr, BindPort, Sockets, set_socket, set_port, cleared_port, sock_max_connect,
  max_ports, port_later, listening, listen_at, listen_loop, sock_listen,
}

abbrev pub port_at : Sockets → ℕ → ℕ
port_at s i = (s.ports_binded i).port

-- No two entries have the same port; 0 is an empty entry.
abbrev pub Distinct : Sockets → Type 0
Distinct s = (i j : ℕ) → i < 256 → j < 256 → i ≢ j → port_at s i ≡ port_at s j → port_at s i ≡ 0

-- The entries but one are those of before.
abbrev pub Elsewhere : (i : ℕ) (s s' : Sockets) → Type 0
Elsewhere i s s' = (j : ℕ) → j ≢ i → port_at s' j ≡ port_at s j

-- An entry that is emptied, and one that takes a port that no other has.
pub cleared-Distinct :
    (i : ℕ) (s s' : Sockets) → Distinct s → port_at s' i ≡ 0 → Elsewhere i s s' → Distinct s'
cleared-Distinct i s s' d zero_here same j k hj hk ne e = elim (Bool-cases (j == i)) [
  | inl ji ↦ ap (port_at s') (==→eq j i ji) ∙ zero_here
  | inr jn ↦ elim (Bool-cases (k == i)) [
    | inl ki ↦ e ∙ (ap (port_at s') (==→eq k i ki) ∙ zero_here)
    | inr kn ↦
        let sj = same j (==→ne j i jn) in
        let sk = same k (==→ne k i kn) in sj ∙ d j k hj hk ne (sym sj ∙ (e ∙ sk))
  ]
]

added-Distinct :
    (i p : ℕ) (s s' : Sockets)
    → Distinct s
    → port_at s' i ≡ p
    → Elsewhere i s s'
    → ((j : ℕ) → j < 256 → j ≢ i → port_at s j ≢ p)
    → Distinct s'
added-Distinct i p s s' d here same new j k hj hk ne e = elim (Bool-cases (j == i)) [
  | inl ji ↦
      let at : j ≡ i = ==→eq j i ji in
      let apart : k ≢ i = λ ki. ne (at ∙ sym ki) in
      absurd (new k hk apart (sym (same k apart) ∙ (sym e ∙ (ap (port_at s') at ∙ here))))
  | inr jn ↦ elim (Bool-cases (k == i)) [
    | inl ki ↦
        let apart = ==→ne j i jn in
        absurd (new j hj apart (sym (same j apart) ∙ (e ∙ (ap (port_at s') (==→eq k i ki) ∙ here))))
    | inr kn ↦
        let sj = same j (==→ne j i jn) in
        let sk = same k (==→ne k i kn) in sj ∙ d j k hj hk ne (sym sj ∙ (e ∙ sk))
  ]
]

port_later_lem :
    (left j port : ℕ) (s : Sockets)
    → left + j ≡ 256
    → port_later left j port s ≡ false
    → (k : ℕ) → j ≤ k
    → k < 256
    → port_at s k ≢ port
unfolding port_later
port_later_lem zero j port s e none_has k lo hi = absurd (omega arith)
port_later_lem (suc left) j port s e none_has k lo hi = elim (Bool-cases (port_at s j == port)) [
  | inl hit ↦ absurd (ground arith)
  | inr miss ↦ elim (Bool-cases (k == j)) [
    | inl kj ↦ λ h. ==→ne (port_at s j) port miss (ap (port_at s) (sym (==→eq k j kj)) ∙ h)
    | inr kn ↦
        port_later_lem left (j + 1) port s (omega arith) (rw miss at none_has) k (ground arith) hi
  ]
]

-- What `sock_listen` leaves: distinct ports, and on success an entry with the socket's port.
pub record Listened (id : ℕ) (s : Sockets) (r : ℕ × Sockets) : Type 0 where
  pub distinct : Distinct r.1
  pub bound :
      r.0 ≡ 1
      → (i : ℕ) × (i < 256)
        × (port_at r.1 i ≡ (s.socket_pool id).port_src)
        × ((r.1.socket_pool id).status ≡ listen)

-- The entry that is written, and the others.
pub written_entry : (i : ℕ) (b : BindPort) (s : Sockets) → (set_port i b s).ports_binded i ≡ b
written_entry i b s = rw (eq→== i i refl) refl

pub other_entry :
    (i j : ℕ) (b : BindPort) (s : Sockets)
    → j ≢ i
    → (set_port i b s).ports_binded j ≡ s.ports_binded j
other_entry i j b s ne = rw (ne→== j i ne) refl

pub written_socket :
    (id : ℕ) (sock : SocketStr) (s : Sockets) → (set_socket id sock s).socket_pool id ≡ sock
written_socket id sock s = rw (eq→== id id refl) refl

listening_lem :
    (i id max_ps : ℕ) (s : Sockets)
    → (port_at (listening i id max_ps s) i ≡ (s.socket_pool id).port_src)
      × Elsewhere i s (listening i id max_ps s)
      × (((listening i id max_ps s).socket_pool id).status ≡ listen)
unfolding listening
listening_lem i id max_ps s = (
  ap (λ b. b.port) (written_entry i _ s),
  λ j ne. ap (λ b. b.port) (other_entry i j _ s ne),
  ap (λ k. k.status) (written_socket id _ s),
)

listen_at-Distinct :
    (left i id max_ps : ℕ) (s : Sockets)
    → left + suc i ≡ 256
    → Distinct s
    → ((j : ℕ) → j < i → port_at s j ≢ (s.socket_pool id).port_src)
    → Listened id s (listen_at left i id max_ps s)
unfolding listen_at
listen_at-Distinct left i id max_ps s e d before =
    let p : ℕ = (s.socket_pool id).port_src in
    let s₁ = listening i id max_ps s in
    let (here, same, status) = listening_lem i id max_ps s in
    elim (Bool-cases (port_later left (i + 1) p s₁)) [
      | inl later ↦ rw later record {
        distinct =
            cleared-Distinct i s (set_port i cleared_port s₁) d
              (ap (λ b. b.port) (written_entry i cleared_port s₁))
              (λ j ne. ap (λ b. b.port) (other_entry i j cleared_port s₁ ne) ∙ same j ne);
        bound = λ h. absurd (omega arith);
      }
      | inr new ↦ rw new record {
        distinct = added-Distinct i p s s₁ d here same (λ j hj ne. elim (Bool-cases (ltb j i)) [
          | inl below ↦ before j (ground arith)
          | inr above ↦ λ h.
              port_later_lem left (i + 1) p s₁ (omega arith) new j (ground arith) hj (same j ne ∙ h)
        ]);
        bound = λ h. (i, omega arith, here, status);
      }
    ]

listen_loop-Distinct :
    (left i id max_ps : ℕ) (s : Sockets)
    → left + i ≡ 256
    → Distinct s
    → ((j : ℕ) → j < i → port_at s j ≢ (s.socket_pool id).port_src)
    → Listened id s (listen_loop left i id max_ps s)
unfolding listen_loop
listen_loop-Distinct zero i id max_ps s e d before = record {
  distinct = d;
  bound = λ h. absurd (omega arith);
}
listen_loop-Distinct (suc left) i id max_ps s e d before =
    let p : ℕ = (s.socket_pool id).port_src in
    elim (Bool-cases (port_at s i == p)) [
      | inl taken ↦ rw taken record { distinct = d; bound = λ h. absurd (omega arith) }
      | inr other ↦ rw other (elim (Bool-cases (port_at s i == 0)) [
        | inl empty ↦ rw empty (listen_at-Distinct left i id max_ps s (omega arith) d before)
        | inr used ↦ rw used (
            listen_loop-Distinct left (i + 1) id max_ps s (omega arith) d (λ j hj.
              elim (Bool-cases (j == i)) [
                | inl ji ↦
                    λ h. ==→ne (port_at s i) p other (ap (port_at s) (sym (==→eq j i ji)) ∙ h)
                | inr jn ↦ before j (ground arith)
              ]))
      ])
    ]

-- `sock_listen` of a socket in the pool keeps the ports of the table distinct where they are. Where
-- it returns 1 an entry has the socket's port, and the socket listens.
pub sock_listen-Distinct :
    (id max_ps : ℕ) (s : Sockets)
    → id < 32
    → Distinct s
    → (r : ℕ × Sockets) × (sock_listen id max_ps s ≡ some r) × Listened id s r
unfolding sock_listen sock_max_connect max_ports
sock_listen-Distinct id max_ps s h d =
    let inside : leb 32 id ≡ false = ground arith in
    (
      listen_loop 256 0 id max_ps s,
      rw inside refl,
      listen_loop-Distinct 256 0 id max_ps s refl d (λ j hj. absurd (omega arith)),
    )
