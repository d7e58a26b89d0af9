-- ===== src/Transport/RetryLaws.antt =====
-- net_transport.go: the attempts of `ZeroBindPortTransport` after the first.
use Prim.Native.String.{String}
use mlist.Prelude.{
  ℕ, zero, suc, ◌<◌, ◌++◌, ℕ_discrete, true, none, ◌≡◌, ◌≢◌, refl, sym, subst, ap, ◌∙◌, List, [],
  ◌∷◌, false, Option, some, arith, Option-cases, inl, inr,
}
use mlist.Transport.Sockets.{
  Os, Socket, Zero, bound, NetTransport, StartError, tcp_failed, udp_failed, failed, close_all,
  listening, open_udp, open_addr, open_addrs, go_on, clean_up, start, attempts, new_net_transport,
  zero_bind_port_transport, retry,
}

-- The transport has the port, and the address first.
record IsStuck (a : String) (names : List String) (p : ℕ) (t : NetTransport) : Type 0 where
  addrs : t.bind_addrs ≡ a ∷ names
  port : t.bind_port ≡ p

-- A round that ended with an error leaves the transport stuck.
FailsStuck : String → List String → ℕ → NetTransport × Option StartError → Type 0
FailsStuck a names p r =
    (t : NetTransport) × (e : StartError) × (r ≡ (t, some e)) × IsStuck a names p t

open_udp-FailsStuck :
    (os : Os) (a : String) (names : List String) (p : ℕ) (t : NetTransport)
    → IsStuck a names p t
    → os.listen_udp a p ≡ false
    → FailsStuck a names p (open_udp os a t)
unfolding open_udp FailsStuck
open_udp-FailsStuck os a names p t h refused = (t, udp_failed, ground (arith, h.port), h)

open_addr-FailsStuck :
    (os : Os) (a : String) (names : List String) (p : ℕ) (t : NetTransport)
    → p ≢ 0
    → IsStuck a names p t
    → os.listen_udp a p ≡ false
    → FailsStuck a names p (open_addr os a t)
unfolding open_addr FailsStuck
open_addr-FailsStuck os a names p t ne h refused =
    elim (Option-cases (os.listen_tcp a t.bind_port)) [
      | inl bad ↦ (t, tcp_failed, ground arith, h)
      | inr (got_port, got) ↦
          rw (got, open_addr)
            (open_udp-FailsStuck os a names p (listening a got_port t)
              (record { addrs = h.addrs; port = ground (arith, h.port) }) refused)
    ]

start-FailsStuck :
    (os : Os) (a : String) (names : List String) (p : ℕ) (t : NetTransport)
    → t.bind_addrs ≡ a ∷ names
    → FailsStuck a names p (open_addr os a (record t { shutdown = false }))
    → FailsStuck a names p (start os t)
unfolding start open_addrs FailsStuck close_all
start-FailsStuck os a names p t listed (t', e, shape, h) = (
  close_all t',
  e,
  ap (λ (xs : List String). clean_up (open_addrs os xs (record t { shutdown = false }))) listed
      ∙ ap (λ (r : NetTransport × Option StartError). clean_up (go_on (open_addrs os names) r))
          shape,
  record { addrs = ground (arith, h.addrs); port = ground (arith, h.port) },
)

-- After a round that ends stuck, the loop goes on from there.
attempts-step :
    (P : Zero → Type 0) (n : ℕ) (os : ℕ → Os) (a : String) (names : List String) (p : ℕ)
    (t : NetTransport)
    → ((t1 : NetTransport) → IsStuck a names p t1 → P (attempts n os t1))
    → FailsStuck a names p (start (os n) t)
    → P (attempts (suc n) os t)
unfolding FailsStuck
attempts-step P n os a names p t later (t1, e, shape, h1) =
    unfold attempts in subst (λ r. P (retry (attempts n os) r)) (sym shape) (later t1 h1)

stuck-FailsStuck :
    (os : Os) (a : String) (names : List String) (p : ℕ) (t : NetTransport)
    → p ≢ 0
    → os.listen_udp a p ≡ false
    → IsStuck a names p t
    → FailsStuck a names p (start os t)
stuck-FailsStuck os a names p t ne refused h = start-FailsStuck os a names p t h.addrs (
    open_addr-FailsStuck os a names p (record t { shutdown = false }) ne
      (record { addrs = h.addrs; port = h.port }) refused)

IsFailed : Zero → Type 0
IsFailed z = (t : NetTransport) × (z ≡ failed t)

attempts-IsFailed :
    (n : ℕ) (os : ℕ → Os) (a : String) (names : List String) (p : ℕ) (t : NetTransport)
    → p ≢ 0
    → ((i : ℕ) → i < n → (os i).listen_udp a p ≡ false)
    → IsStuck a names p t
    → IsFailed (attempts n os t)
unfolding IsFailed
attempts-IsFailed zero os a names p t ne refused h = (t, unfold attempts in refl)
attempts-IsFailed (suc n) os a names p t ne refused h =
    attempts-step IsFailed n os a names p t
      (λ t1 h1. attempts-IsFailed n os a names p t1 ne (λ i lt. refused i (omega arith)) h1)
      (stuck-FailsStuck (os n) a names p t ne (refused n (omega arith)) h)

-- An attempt in which the system gives the TCP and the UDP port `p`, when they are asked for.
pub record Gives (os : Os) (a : String) (p : ℕ) : Type 0 where
  pub tcp : os.listen_tcp a p ≡ some p
  pub udp : os.listen_udp a p ≡ true
  pub buffer : os.set_buffer (record { addr = a; port = p }) ≡ true

IsBoundAt : ℕ → Zero → Type 0
IsBoundAt p z = (t : NetTransport) × (z ≡ bound t) × (t.bind_port ≡ p)

open_addr-binds :
    (os : Os) (a : String) (p : ℕ) (t : NetTransport)
    → t.bind_port ≡ p
    → Gives os a p
    → (t' : NetTransport) × (open_addr os a t ≡ (t', none)) × (t'.bind_port ≡ p)
unfolding open_addr open_udp
open_addr-binds os a p t port gives =
    let next : NetTransport = listening a p t in
    let sock : Socket = record { addr = a; port = p } in
    (
      record next { udp_conns = next.udp_conns ++ (sock ∷ []) },
      ground (arith, gives.tcp, gives.udp, gives.buffer, port),
      ground arith,
    )

start-binds :
    (os : Os) (a : String) (p : ℕ) (t : NetTransport)
    → IsStuck a [] p t
    → Gives os a p
    → (t' : NetTransport) × (start os t ≡ (t', none)) × (t'.bind_port ≡ p)
unfolding start open_addrs
start-binds os a p t h gives =
    let (t', shape, port) = open_addr-binds os a p (record t { shutdown = false }) h.port gives in
    (
      t',
      ap (λ (xs : List String). clean_up (open_addrs os xs (record t { shutdown = false }))) h.addrs
          ∙ ap (λ (r : NetTransport × Option StartError). clean_up (go_on (open_addrs os []) r))
              shape,
      port,
    )

attempts-IsBoundAt :
    (n : ℕ) (os : ℕ → Os) (a : String) (p : ℕ) (t : NetTransport) (k : ℕ)
    → p ≢ 0
    → k < n
    → ((i : ℕ) → k < i → i < n → (os i).listen_udp a p ≡ false)
    → Gives (os k) a p
    → IsStuck a [] p t
    → IsBoundAt p (attempts n os t)
unfolding attempts IsBoundAt
attempts-IsBoundAt zero os a p t k ne lt refused gives h = absurd (omega (arith, lt))
attempts-IsBoundAt (suc n) os a p t k ne lt refused gives h = elim (ℕ_discrete k n) [
  | yes now ↦
      let (t', shape, port) =
        start-binds (os n) a p t h (subst (λ j. Gives (os j) a p) now gives) in
      (t', ap (retry (attempts n os)) shape, port)
  | no later ↦
      attempts-step (IsBoundAt p) n os a [] p t
        (λ t1 h1.
          attempts-IsBoundAt n os a p t1 k ne (omega arith) (λ i lo hi. refused i lo (omega arith))
            gives h1)
        (stuck-FailsStuck (os n) a [] p t ne (refused n (omega arith) (omega arith)) h)
]

-- What the system says after the first of the ten attempts: it never gives the UDP port `p` of the
-- address, or first gives it when `k` attempts are left after that one, with the TCP port `p`, to a
-- transport of one address.
pub data Answers (os : ℕ → Os) (a : String) (names : List String) (p : ℕ) : Type 0 where
  never : ((i : ℕ) → i < 9 → (os i).listen_udp a p ≡ false) → Answers os a names p
  gives_at :
      (k : ℕ)
      → k < 9
      → names ≡ []
      → ((i : ℕ) → k < i → i < 9 → (os i).listen_udp a p ≡ false)
      → Gives (os k) a p
      → Answers os a names p

abbrev pub Ends :
    {os : ℕ → Os} {a : String} {names : List String} {p : ℕ} → Answers os a names p → Zero → Type 0
Ends (never refused) z = (t : NetTransport) × (z ≡ failed t)
Ends {p = p} (gives_at k lt one refused gives) z =
    (t : NetTransport) × (z ≡ bound t) × (t.bind_port ≡ p)

-- If the system gives the first address the TCP port `p` in the first attempt of
-- `ZeroBindPortTransport`, and its UDP port `p` is taken then, the further attempts ask for `p` again,
-- and never for a port of the system's choice: if the UDP port stays taken, all ten attempts fail; and
-- a transport of one address is bound at `p` in whichever of the other nine attempts the system first
-- gives both ports `p`.
pub zero_bind_port_transport_lem :
    (os : ℕ → Os) (a : String) (names : List String) (p : ℕ)
    → p ≢ 0
    → (os 9).listen_tcp a 0 ≡ some p
    → (os 9).listen_udp a p ≡ false
    → (w : Answers os a names p) → Ends w (zero_bind_port_transport os (a ∷ names))
unfolding open_addr FailsStuck
zero_bind_port_transport_lem os a names p ne got refused w =
    let t : NetTransport = record {
      bind_addrs = a ∷ names;
      bind_port = 0;
      tcp_listeners = [];
      udp_conns = [];
      shutdown = false;
      leaked = [];
    } in
    let first : FailsStuck a names p (open_addr (os 9) a t) =
      rw (got, open_addr)
        (open_udp-FailsStuck (os 9) a names p (listening a p t)
          (record { addrs = refl; port = refl }) refused) in
    unfold zero_bind_port_transport new_net_transport in
    (attempts-step (Ends w) 9 os a names p t (λ t1 h1. ends t1 h1 w)
      (start-FailsStuck (os 9) a names p t refl first))
  where
    ends :
        (t1 : NetTransport)
        → IsStuck a names p t1
        → (w : Answers os a names p) → Ends w (attempts 9 os t1)
    ends t1 h (never taken) = unfold IsFailed in attempts-IsFailed 9 os a names p t1 ne taken h
    ends t1 h (gives_at k lt one taken gives) =
        unfold IsBoundAt in
        attempts-IsBoundAt 9 os a p t1 k ne lt taken gives (subst (λ ns. IsStuck a ns p t1) one h)
