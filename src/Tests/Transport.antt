-- ===== src/Tests/Transport.antt =====
-- A system that gives the port 4000 for 0, on which the UDP port is taken or not.
use mlist.Prelude.{
  ℕ, ◌+◌, ◌≡◌, refl, List, ltb, [], ◌∷◌, Bool, true, false, some, arith, ◌==◌, if◌then◌else◌,
  length,
}
use mlist.Transport.Sockets.{Os, NetTransport, start, zero_bind_port_transport}
use mlist.Transport.AddrLaws.{GivesPorts, leak_of}
use mlist.Transport.StartLaws.{Settled, start-Settled}
use mlist.Transport.Buffers.{IsLargest, set_udp_socket_buf, set_udp_socket_buf-IsLargest}
use mlist.Transport.Listen.{Accept, accept_error, conn, tcp_listen}
use mlist.Transport.ListenLaws.{tcp_listen_lem}
use mlist.Transport.RetryLaws.{Answers, gives_at, Ends, zero_bind_port_transport_lem}

abbrev pub system : Bool → Bool → Os
system udp buffer = record {
  listen_tcp = λ a port. some (if port == 0 then 4000 else port);
  listen_udp = λ a port. udp;
  set_buffer = λ s. buffer;
}

pub system-GivesPorts : (udp buffer : Bool) → GivesPorts (system udp buffer)
system-GivesPorts udp buffer = record {
  nonzero = λ a port got e z. ground arith;
  asked = λ a port got ne e. ground arith;
}

abbrev idle : NetTransport
idle = record {
  bind_addrs = "127.0.0.1" ∷ "127.0.0.2" ∷ [];
  bind_port = 0;
  tcp_listeners = [];
  udp_conns = [];
  shutdown = false;
  leaked = [];
}

start-Settled_example :
    Settled 2 (start (system true false) idle)
    × (length (start (system true false) idle).0.leaked
        ≡ 0 + leak_of (start (system true false) idle).1)
start-Settled_example =
    start-Settled (system true false) idle (system-GivesPorts true false) refl refl

-- The UDP port is taken in four attempts.
abbrev busy : ℕ → Os
busy i = system (ltb i 6) true

free_again : Answers busy "127.0.0.1" [] 4000
free_again =
    gives_at 5 (omega arith) refl (λ i lo hi. ground arith)
      (record { tcp = refl; udp = refl; buffer = refl })

zero_bind_port_transport_lem_example :
    Ends free_again (zero_bind_port_transport busy ("127.0.0.1" ∷ []))
zero_bind_port_transport_lem_example =
    zero_bind_port_transport_lem busy "127.0.0.1" [] 4000 (λ e. absurd (omega arith)) refl refl
      free_again

-- The system takes buffers below 1000 bytes.
set_udp_socket_buf-IsLargest_example :
    IsLargest (λ size. ltb size 1000) 21 (set_udp_socket_buf (λ size. ltb size 1000))
set_udp_socket_buf-IsLargest_example = set_udp_socket_buf-IsLargest (λ size. ltb size 1000)

-- Two errors, a connection, an error, and the shutdown.
abbrev accepts : List Accept
accepts =
    accept_error false
    ∷ accept_error false
    ∷ conn 3
    ∷ accept_error false
    ∷ accept_error true
    ∷ conn 4
    ∷ []

tcp_listen_lem_example :
    tcp_listen accepts 0
    ≡ record { conns = 3 ∷ []; delays = 5000000 ∷ 10000000 ∷ 5000000 ∷ []; stopped = true }
tcp_listen_lem_example = tcp_listen_lem accepts
