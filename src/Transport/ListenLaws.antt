-- ===== src/Transport/ListenLaws.antt =====
-- net_transport.go: what `tcpListen` and `udpListen` hand on, and how long they sleep.
use mlist.Prelude.{
  ℕ, zero, suc, ◌*◌, ◌^◌, ◌≤◌, ◌<◌, ◌≡◌, refl, ap, ◌∙◌, List, [], ◌∷◌, Bool, true, false, arith,
  min, ltb, ◌==◌, Bool-cases, inl, inr,
}
use mlist.Transport.Listen.{
  base_delay, max_delay, Accept, conn, accept_error, next_delay, hand_on, slept, tcp_listen,
}

-- The delay after `k` errors in a row.
abbrev pub backoff : ℕ → ℕ
backoff zero = 0
backoff (suc k) = min max_delay (base_delay * 2 ^ k)

-- Twice a delay that is not 0, up to the longest.
next_delay_double : (d : ℕ) → 0 < d → next_delay d ≡ min max_delay (d * 2)
unfolding next_delay
next_delay_double d pos =
    let nonzero : (d == 0) ≡ false = ground arith in
    elim (Bool-cases (ltb max_delay (d * 2))) [
      | inl big ↦ let lt : max_delay < d * 2 = ground arith in rw (nonzero, big) (omega arith)
      | inr small ↦ let le : d * 2 ≤ max_delay = ground arith in rw (nonzero, small) (omega arith)
    ]

pow_pos : (k : ℕ) → 0 < 2 ^ k
pow_pos zero = omega arith
pow_pos (suc k) = omega (arith, pow_pos k)

next_delay-backoff : (k : ℕ) → next_delay (backoff k) ≡ backoff (suc k)
unfolding next_delay
next_delay-backoff zero = refl
next_delay-backoff (suc k) =
    next_delay_double (backoff (suc k)) (omega (arith, pow_pos k)) ∙ omega arith

-- What the loop is to do from `k` errors in a row on: connections go on up to the first error after a
-- shutdown, a connection forgets the errors before it, and each error waits its backoff.
abbrev pub conns_of : List Accept → List ℕ
conns_of [] = []
conns_of (conn n ∷ rest) = n ∷ conns_of rest
conns_of (accept_error true ∷ rest) = []
conns_of (accept_error false ∷ rest) = conns_of rest

abbrev pub delays_of : ℕ → List Accept → List ℕ
delays_of k [] = []
delays_of k (conn n ∷ rest) = delays_of 0 rest
delays_of k (accept_error true ∷ rest) = []
delays_of k (accept_error false ∷ rest) = backoff (suc k) ∷ delays_of (suc k) rest

abbrev pub ends : List Accept → Bool
ends [] = false
ends (conn n ∷ rest) = ends rest
ends (accept_error true ∷ rest) = true
ends (accept_error false ∷ rest) = ends rest

tcp_listen_from :
    (es : List Accept) (k : ℕ)
    → tcp_listen es (backoff k)
      ≡ record { conns = conns_of es; delays = delays_of k es; stopped = ends es }
unfolding tcp_listen
tcp_listen_from [] k = refl
tcp_listen_from (conn n ∷ rest) k = ap (hand_on n) (tcp_listen_from rest 0)
tcp_listen_from (accept_error true ∷ rest) k = refl
tcp_listen_from (accept_error false ∷ rest) k =
    rw (next_delay-backoff k) (ap (slept (backoff (suc k))) (tcp_listen_from rest (suc k)))

-- `tcpListen` hands on every connection that is accepted before the first error after a shutdown, in
-- order; the n-th error in a row before that is followed by a sleep of 5 ms times 2 ^ (n - 1), or of one
-- second where that is less, and a connection starts the count anew; it ends with that first error.
pub tcp_listen_lem :
    (es : List Accept)
    → tcp_listen es 0 ≡ record { conns = conns_of es; delays = delays_of 0 es; stopped = ends es }
tcp_listen_lem es = tcp_listen_from es 0
