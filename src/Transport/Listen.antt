-- ===== src/Transport/Listen.antt =====
-- net_transport.go: the goroutines `tcpListen` and `udpListen`, over what the calls of the system return,
-- one after the other. A connection is its number. A list that ends leaves them waiting.
use mlist.Prelude.{ℕ, ◌*◌, List, [], ◌∷◌, Bool, true, false, ltb, ◌==◌, if◌then◌else◌, length}
use mlist.Members.Types.{Bytes}
use mlist.Inbox.LongRun.{UdpAddr}

abbrev pub base_delay : ℕ
base_delay = 5 * 1000000

abbrev pub max_delay : ℕ
max_delay = 1000 * 1000000

-- What `AcceptTCP` returns; an error comes with whether the transport is shut down by then.
pub data Accept : Type 0 where
  conn : ℕ → Accept
  accept_error : Bool → Accept

-- What was handed on and how long it slept after errors, the first one first, and whether it ended.
pub record Accepted : Type 0 where
  pub conns : List ℕ
  pub delays : List ℕ
  pub stopped : Bool

-- The exponential backoff.
unfoldable pub next_delay : ℕ → ℕ
next_delay d =
    let grown = if d == 0 then base_delay else d * 2 in
    if ltb max_delay grown then max_delay else grown

abbrev pub hand_on : ℕ → Accepted → Accepted
hand_on n r = record r { conns = n ∷ r.conns }

abbrev pub slept : ℕ → Accepted → Accepted
slept d r = record r { delays = d ∷ r.delays }

unfoldable pub tcp_listen : List Accept → ℕ → Accepted
unfolding next_delay
tcp_listen [] d = record { conns = []; delays = []; stopped = false }
tcp_listen (conn n ∷ rest) d = hand_on n (tcp_listen rest 0)
tcp_listen (accept_error true ∷ rest) d = record { conns = []; delays = []; stopped = true }
tcp_listen (accept_error false ∷ rest) d = slept (next_delay d) (tcp_listen rest (next_delay d))

-- What `ReadFrom` returns; an error comes with whether the transport is shut down, and whether it is
-- `net.ErrClosed`.
pub data Read : Type 0 where
  packet : Bytes → UdpAddr → Read
  read_error : Bool → Bool → Read

pub record Packet : Type 0 where
  pub buf : Bytes
  pub from : UdpAddr

pub record ReadPackets : Type 0 where
  pub packets : List Packet
  pub stopped : Bool

abbrev pub pass_on : Packet → ReadPackets → ReadPackets
pass_on p r = record r { packets = p ∷ r.packets }

-- A datagram of no bytes is dropped.
unfoldable pub udp_listen : List Read → ReadPackets
udp_listen [] = record { packets = []; stopped = false }
udp_listen (packet buf from ∷ rest) =
    let more = udp_listen rest in
    if ltb (length buf) 1 then more else pass_on (record { buf = buf; from = from }) more
udp_listen (read_error true closed ∷ rest) = record { packets = []; stopped = true }
udp_listen (read_error false true ∷ rest) = record { packets = []; stopped = true }
udp_listen (read_error false false ∷ rest) = udp_listen rest
