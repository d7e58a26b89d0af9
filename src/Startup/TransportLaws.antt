-- ===== src/Startup/TransportLaws.antt =====
-- memberlist.go: the transport that `Build` opens, with its first attempt or a later one.
use Prim.Native.String.{String}
use mlist.Prelude.{
  ℕ, zero, suc, ◌≡◌, refl, ap, ◌∙◌, subst, [], ◌∷◌, true, false, Option, none, some, ◌==◌, length,
  Bool-cases, inl, inr,
}
use mlist.Transport.Sockets.{
  Os, NetTransport, StartError, Zero, start, retry, attempts, new_net_transport,
  zero_bind_port_transport,
}
use mlist.Transport.AddrLaws.{GivesPorts, IsPaired}
use mlist.Transport.StartLaws.{Settled, start-Settled, start-is_up}
use mlist.Startup.Options.{Options}
use mlist.Startup.Build.{
  Opened, opened, not_opened, no_address, opened_zero, opened_port, build_transport,
}

-- No socket is left in the slices.
abbrev pub IsClosed : NetTransport → Type 0
IsClosed t = (t.tcp_listeners ≡ []) × (t.udp_conns ≡ []) × (t.shutdown ≡ true)

-- One listener and one connection, on the port of the transport, and not shut down.
abbrev pub IsUp : NetTransport → Type 0
IsUp t = IsPaired 1 t × (t.shutdown ≡ false)

abbrev SettledUp : NetTransport × Option StartError → Type 0
SettledUp (t, none) = IsUp t
SettledUp (t, some e) = IsClosed t

Settled-SettledUp :
    (n : ℕ) (r : NetTransport × Option StartError)
    → n ≡ 1
    → Settled n r
    → (r.1 ≡ none → r.0.shutdown ≡ false)
    → SettledUp r
Settled-SettledUp n (t, none) e h up = (subst (λ k. IsPaired k t) e h, up refl)
Settled-SettledUp n (t, some x) e h up = h

start-SettledUp :
    (os : Os) (t : NetTransport) (a : String)
    → GivesPorts os
    → t.tcp_listeners ≡ []
    → t.udp_conns ≡ []
    → t.bind_addrs ≡ a ∷ []
    → SettledUp (start os t)
start-SettledUp os t a gives no_tcp no_udp addrs =
    let len : length t.bind_addrs ≡ 1 = ap length addrs in
    Settled-SettledUp (length t.bind_addrs) (start os t) len
      (start-Settled os t gives no_tcp no_udp).0 (start-is_up os t).1

abbrev ZeroUp : Zero → Type 0
ZeroUp (Zero.bound t) = IsUp t
ZeroUp Zero.no_address = ⊥
ZeroUp (Zero.failed t) = IsClosed t

retry-ZeroUp :
    (rest : NetTransport → Zero) (r : NetTransport × Option StartError)
    → SettledUp r
    → (IsClosed r.0 → ZeroUp (rest r.0))
    → ZeroUp (retry rest r)
retry-ZeroUp rest (t, none) h more = h
retry-ZeroUp rest (t, some e) h more = more h

attempts-ZeroUp :
    (n : ℕ) (os : ℕ → Os) (t : NetTransport) (a : String)
    → ((i : ℕ) → GivesPorts (os i))
    → t.bind_addrs ≡ a ∷ []
    → IsClosed t
    → ZeroUp (attempts n os t)
unfolding attempts
attempts-ZeroUp zero os t a gives addrs h = h
attempts-ZeroUp (suc n) os t a gives addrs h =
    retry-ZeroUp (attempts n os) (start (os n) t)
      (start-SettledUp (os n) t a (gives n) h.0 h.1 addrs)
      (λ closed.
        attempts-ZeroUp n os (start (os n) t).0 a gives ((start-is_up (os n) t).0 ∙ addrs) closed)

-- The first attempt starts from a new transport, which has no sockets and was not shut down.
first_attempt-ZeroUp :
    (n : ℕ) (os : ℕ → Os) (t : NetTransport) (a : String)
    → ((i : ℕ) → GivesPorts (os i))
    → t.bind_addrs ≡ a ∷ []
    → t.tcp_listeners ≡ []
    → t.udp_conns ≡ []
    → ZeroUp (attempts (suc n) os t)
unfolding attempts
first_attempt-ZeroUp n os t a gives addrs no_tcp no_udp =
    retry-ZeroUp (attempts n os) (start (os n) t)
      (start-SettledUp (os n) t a (gives n) no_tcp no_udp addrs)
      (λ closed.
        attempts-ZeroUp n os (start (os n) t).0 a gives ((start-is_up (os n) t).0 ∙ addrs) closed)

-- What `Build` goes on with, or leaves behind.
abbrev pub OpenedUp : Opened → Type 0
OpenedUp (opened t o) = IsUp t
OpenedUp (not_opened t) = IsClosed t
OpenedUp no_address = ⊥

opened_zero-OpenedUp : (o : Options) (z : Zero) → ZeroUp z → OpenedUp (opened_zero o z)
opened_zero-OpenedUp o (Zero.bound t) h = h
opened_zero-OpenedUp o Zero.no_address h = h
opened_zero-OpenedUp o (Zero.failed t) h = h

opened_port-OpenedUp :
    (o : Options) (r : NetTransport × Option StartError) → SettledUp r → OpenedUp (opened_port o r)
opened_port-OpenedUp o (t, none) h = h
opened_port-OpenedUp o (t, some e) h = h

-- What `NewNetTransport` makes of one address.
abbrev new_transport : String → ℕ → NetTransport
new_transport a port = record {
  bind_addrs = a ∷ [];
  bind_port = port;
  tcp_listeners = [];
  udp_conns = [];
  shutdown = false;
  leaked = [];
}

-- The transport of `Build` is up, with its one listener and connection, or closed.
pub build_transport-OpenedUp :
    (os : ℕ → Os) (o : Options) → ((i : ℕ) → GivesPorts (os i)) → OpenedUp (build_transport os o)
unfolding build_transport zero_bind_port_transport new_net_transport
build_transport-OpenedUp os o gives = elim (Bool-cases (o.bind_port == 0)) [
  | inl zero_port ↦
      let t = new_transport o.bind_addr 0 in
      rw zero_port (
        opened_zero-OpenedUp o (attempts 10 os t)
          (first_attempt-ZeroUp 9 os t o.bind_addr gives refl refl refl))
  | inr fixed ↦
      let t = new_transport o.bind_addr o.bind_port in
      rw fixed (
        opened_port-OpenedUp o (start (os 0) t)
          (start-SettledUp (os 0) t o.bind_addr (gives 0) refl refl refl))
]
