-- ===== src/Transport/Sockets.antt =====
-- net_transport.go: `NewNetTransport`, `Start`, `Shutdown`, `ZeroBindPortTransport`, `getFirstConn` and
-- `GetFirstAddr`. What the system answers in one attempt is the parameter `Os`. A socket is its address
-- and port; `leaked` lists those that are open and in neither slice.
use Prim.Native.String.{String}
use mlist.Prelude.{
  ℕ, zero, suc, List, [], ◌∷◌, ◌++◌, Bool, true, false, Option, none, some, ◌==◌, if◌then◌else◌,
}
use mlist.Prelude.Maps.{same}

pub record Socket : Type 0 where
  pub addr : String
  pub port : ℕ

-- `listen_tcp` gives the port that the listener has, which the system chooses for 0.
pub record Os : Type 0 where
  pub listen_tcp : String → ℕ → Option ℕ
  pub listen_udp : String → ℕ → Bool
  pub set_buffer : Socket → Bool

pub record NetTransport : Type 0 where
  pub bind_addrs : List String
  pub bind_port : ℕ
  pub tcp_listeners : List Socket
  pub udp_conns : List Socket
  pub shutdown : Bool
  pub leaked : List Socket

pub data StartError : Type 0 where
  tcp_failed udp_failed buffer_failed : StartError

-- `none` where there is no address. The logger is not modelled.
unfoldable pub new_net_transport : List String → ℕ → Option NetTransport
new_net_transport [] port = none
new_net_transport (a ∷ addrs) port = some (record {
  bind_addrs = a ∷ addrs;
  bind_port = port;
  tcp_listeners = [];
  udp_conns = [];
  shutdown = false;
  leaked = [];
})

unfoldable pub close_all : NetTransport → NetTransport
close_all t =
    if t.shutdown then t else record t { shutdown = true; tcp_listeners = []; udp_conns = [] }

abbrev pub listening : String → ℕ → NetTransport → NetTransport
listening a port t = record t {
  tcp_listeners = t.tcp_listeners ++ (record { addr = a; port = port } ∷ []);
  bind_port = if t.bind_port == 0 then port else t.bind_port;
}

-- The round of the loop for one address, from `ListenUDP` on.
unfoldable pub open_udp : Os → String → NetTransport → NetTransport × Option StartError
open_udp os a t =
    let sock : Socket = record { addr = a; port = t.bind_port } in
    if os.listen_udp a t.bind_port
    then if os.set_buffer sock
      then (record t { udp_conns = t.udp_conns ++ (sock ∷ []) }, none)
      else (record t { leaked = sock ∷ t.leaked }, some buffer_failed)
    else (t, some udp_failed)

unfoldable pub open_addr : Os → String → NetTransport → NetTransport × Option StartError
unfolding open_udp
open_addr os a t = elim (os.listen_tcp a t.bind_port) [
  | none ↦ (t, some tcp_failed)
  | some port ↦ open_udp os a (listening a port t)
]

abbrev pub go_on :
    (NetTransport → NetTransport × Option StartError)
    → NetTransport × Option StartError
    → NetTransport × Option StartError
go_on rest (t, some e) = (t, some e)
go_on rest (t, none) = rest t

unfoldable pub open_addrs : Os → List String → NetTransport → NetTransport × Option StartError
unfolding open_addr
open_addrs os [] t = (t, none)
open_addrs os (a ∷ as_left) t = go_on (open_addrs os as_left) (open_addr os a t)

abbrev pub clean_up : NetTransport × Option StartError → NetTransport × Option StartError
clean_up (t, none) = (t, none)
clean_up (t, some e) = (close_all t, some e)

-- The deferred `Shutdown` runs after an error. The goroutines that listen are other parts.
unfoldable pub start : Os → NetTransport → NetTransport × Option StartError
unfolding open_addrs close_all
start os t = clean_up (open_addrs os t.bind_addrs (record t { shutdown = false }))

pub data Zero : Type 0 where
  bound : NetTransport → Zero
  no_address : Zero
  failed : NetTransport → Zero

abbrev pub retry : (NetTransport → Zero) → NetTransport × Option StartError → Zero
retry rest (t, none) = bound t
retry rest (t, some e) = rest t

-- The loop of `ZeroBindPortTransport`, with the answers of the system in each of its rounds. It goes on
-- also after an error that is not "address already in use".
unfoldable pub attempts : ℕ → (ℕ → Os) → NetTransport → Zero
unfolding start
attempts zero os t = failed t
attempts (suc n) os t = retry (attempts n os) (start (os n) t)

unfoldable pub zero_bind_port_transport : (ℕ → Os) → List String → Zero
unfolding attempts new_net_transport
zero_bind_port_transport os addrs = elim (new_net_transport addrs 0) [
  | none ↦ no_address
  | some t ↦ attempts 10 os t
]

unfoldable pub get_first_conn : NetTransport → Option Socket
get_first_conn t = elim t.udp_conns [ [] ↦ none | s ∷ rest ↦ some s ]

-- `private_ip` is what `GetPrivateIP` of go-sockaddr and `net.ParseIP` make of it: `none` for an error, no
-- address, or one that does not parse. With no bind address the index panics, which is `none` too.
unfoldable pub get_first_addr : Option String → NetTransport → Option (String × ℕ)
unfolding get_first_conn
get_first_addr private_ip t = elim t.bind_addrs [
  | [] ↦ none
  | a ∷ rest ↦
      if same a "0.0.0.0"
      then elim private_ip [ none ↦ none | some ip ↦ some (ip, t.bind_port) ]
      else elim (get_first_conn t) [ none ↦ none | some s ↦ some (s.addr, t.bind_port) ]
]
