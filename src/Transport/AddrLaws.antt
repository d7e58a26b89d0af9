-- ===== src/Transport/AddrLaws.antt =====
-- net_transport.go: what one round of `Start` does with the sockets.
use Prim.Native.String.{String}
use mlist.Prelude.{
  ℕ, ◌+◌, ◌≡◌, ◌≢◌, ◌⊎◌, refl, ◌∙◌, List, [], ◌∷◌, ◌++◌, Option, none, some, arith, ◌==◌, length,
  length-append, Bool-cases, Option-cases, inl, inr,
}
use mlist.Transport.Sockets.{
  Socket, Os, NetTransport, StartError, buffer_failed, listening, open_udp, open_addr,
}

-- What the addresses got: a listener and a connection each, on the one port.
abbrev pub OnPort : ℕ → List Socket → Type 0
OnPort port [] = Unit
OnPort port (s ∷ ss) = (s.port ≡ port) × OnPort port ss

-- The system gives each listener a port that is not 0, and the port asked for if that is not 0.
pub record GivesPorts (os : Os) : Type 0 where
  pub nonzero : (a : String) (port got : ℕ) → os.listen_tcp a port ≡ some got → got ≢ 0
  pub asked : (a : String) (port got : ℕ) → port ≢ 0 → os.listen_tcp a port ≡ some got → got ≡ port

OnPort-append :
    (port : ℕ) (xs : List Socket) (s : Socket)
    → OnPort port xs
    → s.port ≡ port
    → OnPort port (xs ++ (s ∷ []))
OnPort-append port [] s h e = (e, tt)
OnPort-append port (x ∷ xs) s h e = (h.0, OnPort-append port xs s h.1 e)

-- The two slices hold as many sockets, all on the port of the transport, and none with port 0.
pub record IsPaired (n : ℕ) (t : NetTransport) : Type 0 where
  pub tcp : length t.tcp_listeners ≡ n
  pub udp : length t.udp_conns ≡ n
  pub tcp_port : OnPort t.bind_port t.tcp_listeners
  pub udp_port : OnPort t.bind_port t.udp_conns
  pub set : (n ≡ 0) ⊎ (t.bind_port ≢ 0)

abbrev pub leak_of : Option StartError → ℕ
leak_of (some buffer_failed) = 1
leak_of _ = 0

-- How one round, or several, change a transport.
pub record Keeps (t : NetTransport) (r : NetTransport × Option StartError) : Type 0 where
  pub up : r.0.shutdown ≡ t.shutdown
  pub leaks : length r.0.leaked ≡ length t.leaked + leak_of r.1
  pub port : t.bind_port ≢ 0 → r.0.bind_port ≡ t.bind_port
  pub addrs : r.0.bind_addrs ≡ t.bind_addrs

OnPort-empty : (p q : ℕ) (xs : List Socket) → length xs ≡ 0 → OnPort p xs
OnPort-empty p q [] e = tt
OnPort-empty p q (x ∷ xs) e = absurd (omega arith)

-- After the listener, before the connection.
record IsHalfPaired (k : ℕ) (t : NetTransport) : Type 0 where
  tcp : length t.tcp_listeners ≡ k + 1
  udp : length t.udp_conns ≡ k
  tcp_port : OnPort t.bind_port t.tcp_listeners
  udp_port : OnPort t.bind_port t.udp_conns
  set : t.bind_port ≢ 0

listening-IsHalfPaired :
    (os : Os) (a : String) (k port : ℕ) (t : NetTransport)
    → GivesPorts os
    → os.listen_tcp a t.bind_port ≡ some port
    → IsPaired k t
    → IsHalfPaired k (listening a port t)
listening-IsHalfPaired os a k port t gives got h =
    let sock : Socket = record { addr = a; port = port } in
    let len = length-append t.tcp_listeners (sock ∷ []) in
    elim (Bool-cases (t.bind_port == 0)) [
      | inl fresh ↦
          let none_yet : k ≡ 0 = ground (arith, h.set) in
          let bp : (listening a port t).bind_port ≡ port = ground arith in
          record {
            tcp = omega (arith, len, h.tcp);
            udp = h.udp;
            tcp_port = rw bp (
                OnPort-append port t.tcp_listeners sock
                  (OnPort-empty port port t.tcp_listeners (omega (arith, h.tcp, none_yet))) refl);
            udp_port = rw bp (OnPort-empty port port t.udp_conns (omega (arith, h.udp, none_yet)));
            set = ground (arith, gives.nonzero a t.bind_port port got);
          }
      | inr old ↦
          let ne : t.bind_port ≢ 0 = ground arith in
          let bp : (listening a port t).bind_port ≡ t.bind_port = ground arith in
          record {
            tcp = omega (arith, len, h.tcp);
            udp = h.udp;
            tcp_port = rw bp (
                OnPort-append t.bind_port t.tcp_listeners sock h.tcp_port
                  (gives.asked a t.bind_port port ne got));
            udp_port = rw bp h.udp_port;
            set = ground arith;
          }
    ]

open_udp-Keeps : (os : Os) (a : String) (t : NetTransport) → Keeps t (open_udp os a t)
unfolding open_udp
open_udp-Keeps os a t =
    let sock : Socket = record { addr = a; port = t.bind_port } in
    elim (Bool-cases (os.listen_udp a t.bind_port)) [
      | inr bad ↦
          rw (bad, open_udp)
            (record { up = refl; leaks = omega arith; port = λ h. refl; addrs = refl })
      | inl open_now ↦ elim (Bool-cases (os.set_buffer sock)) [
        | inl fine ↦
            rw (open_now, fine, open_udp)
              (record { up = refl; leaks = omega arith; port = λ h. refl; addrs = refl })
        | inr bad ↦
            rw (open_now, bad, open_udp)
              (record { up = refl; leaks = omega arith; port = λ h. refl; addrs = refl })
      ]
    ]

open_udp-IsPaired :
    (os : Os) (a : String) (k : ℕ) (t : NetTransport)
    → (open_udp os a t).1 ≡ none
    → IsHalfPaired k t
    → IsPaired (k + 1) (open_udp os a t).0
unfolding open_udp
open_udp-IsPaired os a k t e h =
    let sock : Socket = record { addr = a; port = t.bind_port } in
    let len = length-append t.udp_conns (sock ∷ []) in
    let shape : open_udp os a t ≡ (record t { udp_conns = t.udp_conns ++ (sock ∷ []) }, none) =
      ground arith in
    rw shape (record {
      tcp = h.tcp;
      udp = omega (arith, len, h.udp);
      tcp_port = h.tcp_port;
      udp_port = OnPort-append t.bind_port t.udp_conns sock h.udp_port refl;
      set = inr h.set;
    })

listening-keeps_port :
    (a : String) (port : ℕ) (t : NetTransport)
    → t.bind_port ≢ 0
    → (listening a port t).bind_port ≡ t.bind_port
listening-keeps_port a port t h = ground arith

pub open_addr-Keeps : (os : Os) (a : String) (t : NetTransport) → Keeps t (open_addr os a t)
unfolding open_addr
open_addr-Keeps os a t = elim (Option-cases (os.listen_tcp a t.bind_port)) [
  | inl bad ↦
      rw (bad, open_addr)
        (record { up = refl; leaks = omega arith; port = λ h. refl; addrs = refl })
  | inr (port, got) ↦
      let o = open_udp-Keeps os a (listening a port t) in
      rw (got, open_addr)
        (record {
          up = o.up;
          leaks = o.leaks;
          port = λ h.
              o.port (ground (arith, listening-keeps_port a port t h))
              ∙ listening-keeps_port a port t h;
          addrs = o.addrs;
        })
]

pub open_addr-IsPaired :
    (os : Os) (a : String) (k : ℕ) (t : NetTransport)
    → GivesPorts os
    → (open_addr os a t).1 ≡ none
    → IsPaired k t
    → IsPaired (k + 1) (open_addr os a t).0
unfolding open_addr
open_addr-IsPaired os a k t gives e h = elim (Option-cases (os.listen_tcp a t.bind_port)) [
  | inl bad ↦ absurd (ground arith)
  | inr (port, got) ↦
      rw (got, open_addr)
        (open_udp-IsPaired os a k (listening a port t) (rw (got, open_addr) at e)
          (listening-IsHalfPaired os a k port t gives got h))
]
