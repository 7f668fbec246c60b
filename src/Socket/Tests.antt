-- ===== src/Socket/Tests.antt =====
-- Sockets at concrete ports.
use lesch_os.Base.{ℕ, ◌≡◌, refl, some, arith, if◌then◌else◌, ◌==◌}
use lesch_os.Socket.{tcp_closed, Sockets, cleared_socket, cleared_port, sock_listen, sock_close}
use lesch_os.Socket.Close.{Closed, sock_close-Distinct}
use lesch_os.Socket.Ports.{Distinct, Listened, sock_listen-Distinct}

-- Socket 3 has port 80, and no entry is taken.
abbrev web : Sockets
web = record {
  socket_pool = λ i.
      if i == 3
      then record cleared_socket { status = tcp_closed; port_src = 80 }
      else cleared_socket;
  ports_binded = λ i. cleared_port;
  curr_thread = 7;
}

web-Distinct : Distinct web
web-Distinct i j hi hj ne e = refl

sock_listen-Distinct_example : (r : ℕ × Sockets) × (sock_listen 3 5 web ≡ some r) × Listened 3 web r
sock_listen-Distinct_example = sock_listen-Distinct 3 5 web (omega arith) web-Distinct

sock_close-Distinct_example : (r : ℕ × Sockets) × (sock_close 3 web ≡ some r) × Closed 3 web r
sock_close-Distinct_example = sock_close-Distinct 3 web (omega arith) web-Distinct (omega arith)
