-- ===== src/Transport/StartLaws.antt =====
-- net_transport.go: what `Start` leaves open, and the port that a retry has.
use Prim.Native.String.{String}
use mlist.Prelude.{
  ℕ, ◌+◌, ◌≡◌, refl, ap, sym, ◌∙◌, List, [], ◌∷◌, true, false, Option, none, some, arith, length,
  inl,
}
use mlist.Transport.Sockets.{
  Os, NetTransport, StartError, close_all, open_addr, go_on, open_addrs, clean_up, start,
}
use mlist.Transport.AddrLaws.{
  GivesPorts, IsPaired, leak_of, Keeps, open_addr-Keeps, open_addr-IsPaired,
}

go_on-Keeps :
    (rest : NetTransport → NetTransport × Option StartError) (t : NetTransport)
    (r : NetTransport × Option StartError)
    → ((t1 : NetTransport) → Keeps t1 (rest t1))
    → Keeps t r
    → Keeps t (go_on rest r)
go_on-Keeps rest t (t1, some e) more h = h
go_on-Keeps rest t (t1, none) more h =
    let o = more t1 in
    record {
      up = o.up ∙ h.up;
      leaks = omega (arith, o.leaks, h.leaks);
      port = λ ne. o.port (ground (arith, h.port ne)) ∙ h.port ne;
      addrs = o.addrs ∙ h.addrs;
    }

open_addrs-Keeps :
    (os : Os) (names : List String) (t : NetTransport) → Keeps t (open_addrs os names t)
unfolding open_addrs
open_addrs-Keeps os [] t = record { up = refl; leaks = omega arith; port = λ h. refl; addrs = refl }
open_addrs-Keeps os (a ∷ names) t =
    go_on-Keeps (open_addrs os names) t (open_addr os a t) (open_addrs-Keeps os names)
      (open_addr-Keeps os a t)

go_on-IsPaired :
    (rest : NetTransport → NetTransport × Option StartError) (k n : ℕ)
    (r : NetTransport × Option StartError)
    → ((t1 : NetTransport) → (rest t1).1 ≡ none → IsPaired (k + 1) t1 → IsPaired n (rest t1).0)
    → (r.1 ≡ none → IsPaired (k + 1) r.0)
    → (go_on rest r).1 ≡ none
    → IsPaired n (go_on rest r).0
go_on-IsPaired rest k n (t1, some e) more h f = absurd (ground arith)
go_on-IsPaired rest k n (t1, none) more h f = more t1 f (h refl)

open_addrs-IsPaired :
    (os : Os) (names : List String) (k n : ℕ) (t : NetTransport)
    → GivesPorts os
    → n ≡ k + length names
    → (open_addrs os names t).1 ≡ none
    → IsPaired k t
    → IsPaired n (open_addrs os names t).0
unfolding open_addrs
open_addrs-IsPaired os [] k n t gives size e h =
    let same_size : n ≡ k = omega (arith, size) in rw same_size h
open_addrs-IsPaired os (a ∷ names) k n t gives size e h =
    go_on-IsPaired (open_addrs os names) k n (open_addr os a t)
      (λ t1 e1 h1. open_addrs-IsPaired os names (k + 1) n t1 gives (omega (arith, size)) e1 h1)
      (λ e1. open_addr-IsPaired os a k t gives e1 h) e

-- What `Start` leaves, of a transport with `n` addresses.
abbrev pub Settled : ℕ → NetTransport × Option StartError → Type 0
Settled n (t, none) = IsPaired n t
Settled n (t, some e) = (t.tcp_listeners ≡ []) × (t.udp_conns ≡ []) × (t.shutdown ≡ true)

clean_up-Settled :
    (n : ℕ) (o : NetTransport × Option StartError)
    → o.0.shutdown ≡ false
    → (o.1 ≡ none → IsPaired n o.0)
    → Settled n (clean_up o)
      × (length (clean_up o).0.leaked ≡ length o.0.leaked)
      × ((clean_up o).1 ≡ o.1)
unfolding close_all
clean_up-Settled n (t, none) up h = (h refl, refl, refl)
clean_up-Settled n (t, some e) up h = (ground arith, ground arith, refl)

-- `Start` on a transport with no sockets: if it fails, both slices are empty and the transport is
-- shut down, and one connection is left open if it was the buffer that failed; if not, there are a
-- listener and a connection for each address, all on the port of the transport, which is not 0 if
-- there is an address. The system gives the port that is asked for, and for 0 one that is not 0.
pub start-Settled :
    (os : Os) (t : NetTransport)
    → GivesPorts os
    → t.tcp_listeners ≡ []
    → t.udp_conns ≡ []
    → Settled (length t.bind_addrs) (start os t)
      × (length (start os t).0.leaked ≡ length t.leaked + leak_of (start os t).1)
unfolding start
start-Settled os t gives no_tcp no_udp =
    let t0 : NetTransport = record t { shutdown = false } in
    let o = open_addrs os t.bind_addrs t0 in
    let kept = open_addrs-Keeps os t.bind_addrs t0 in
    let empty : IsPaired 0 t0 = record {
      tcp = ground arith;
      udp = ground arith;
      tcp_port = rw no_tcp tt;
      udp_port = rw no_udp tt;
      set = inl refl;
    } in
    let (settled, leaks, err) = clean_up-Settled (length t.bind_addrs) o kept.up (λ e.
      open_addrs-IsPaired os t.bind_addrs 0 (length t.bind_addrs) t0 gives (omega arith) e empty) in
    (
      settled,
      leaks ∙ kept.leaks ∙ ap (λ (x : Option StartError). length t.leaked + leak_of x) (sym err),
    )

clean_up-stays :
    (t : NetTransport) (o : NetTransport × Option StartError)
    → Keeps t o
    → ((clean_up o).0.bind_addrs ≡ t.bind_addrs)
      × ((clean_up o).1 ≡ none → (clean_up o).0.shutdown ≡ t.shutdown)
unfolding close_all
clean_up-stays t (t', none) h = (h.addrs, λ e. h.up)
clean_up-stays t (t', some e) h = (ground (arith, h.addrs), λ f. cc)

-- The addresses stay, and a transport that was started is not shut down.
pub start-is_up :
    (os : Os) (t : NetTransport)
    → ((start os t).0.bind_addrs ≡ t.bind_addrs)
      × ((start os t).1 ≡ none → (start os t).0.shutdown ≡ false)
unfolding start
start-is_up os t =
    let t0 : NetTransport = record t { shutdown = false } in
    clean_up-stays t0 (open_addrs os t.bind_addrs t0) (open_addrs-Keeps os t.bind_addrs t0)
