-- ===== src/Members/Timeouts.antt =====
-- state.go: what the closure `timeoutFn` does when its timer fires.
use Prim.Native.String.{String}
use mlist.Prelude.{ℕ, ◌<◌, ◌≡◌, ◌≢◌, Bool, true, false, none, some, arith, Option-cases, inl, inr}
use mlist.Suspicion.{Suspicion, TimeoutFn}
use mlist.Members.Types.{Alive, Dead, Config, Memberlist, state_dead, is_alive}
use mlist.Members.Handlers.{
  alive_node, add_node, renew_node, renew, ip_allowed, dead_node, dead_known, bury, timeout_check,
  timeout_fn,
}
use mlist.Members.Valid.{IsSound}

-- In a sound table the timer of a current suspicion marks its node dead: `timeoutFn` returns, the
-- node is dead with the life number that it had, and the suspicion is dropped.
pub timeout_fn-marks_dead :
    (c : Config) (m : Memberlist) (id : String) (sc : Suspicion) (now : ℕ)
    → IsSound c m
    → m.suspicions id ≡ some sc
    → (m' : Memberlist) × (p : ℕ) × (timeout_fn c sc.timeout_fn now m ≡ some m')
      × (m'.node_map id ≡ some p)
      × ((m'.store p).state ≡ state_dead)
      × ((m'.store p).lives ≡ (m.store p).lives)
      × (m'.suspicions id ≡ none)
unfolding timeout_fn timeout_check dead_node dead_known bury
timeout_fn-marks_dead c m id sc now h e =
    let (p, w) = h.valid.watched id sc e in
    let d : Dead = record { lives = (m.store p).lives; id = id; left = false } in
    let known = h.valid.mapped_id id p w.same_node in
    let calm = h.self.calm p in
    (
      bury d false now p m,
      p,
      ground (arith, w, known, calm),
      w.same_node,
      ground arith,
      ground arith,
      ground arith,
    )

-- In a sound table `timeoutFn` always returns: this node is never suspected, so it never refutes there.
pub timeout_fn-terminates :
    (c : Config) (m : Memberlist) (f : TimeoutFn) (now : ℕ)
    → IsSound c m
    → (m' : Memberlist) × (timeout_fn c f now m ≡ some m')
unfolding timeout_fn timeout_check dead_node dead_known
timeout_fn-terminates c m f now h = elim (Option-cases (timeout_fn c f now m)) [
  | inr r ↦ r
  | inl stuck ↦ absurd (elim (Option-cases (m.node_map f.id)) [
    | inl absent ↦ ground arith
    | inr (p, here) ↦
        let known = h.valid.mapped_id f.id p here in let calm = h.self.calm p in ground arith
  ])
]

-- The timer of an earlier life does nothing.
timeout_fn-stale :
    (c : Config) (m : Memberlist) (f : TimeoutFn) (p now : ℕ)
    → m.node_map f.id ≡ some p
    → (m.store p).lives ≢ f.lives
    → timeout_fn c f now m ≡ some m
unfolding timeout_fn timeout_check
timeout_fn-stale c m f p now here ne = ground arith

-- A newer alive message from an allowed address, about a suspected node, cancels the suspicion: it is
-- dropped, the node is alive in its new life, and the old timer then does nothing when it fires.
pub alive_node-cancels_timeout :
    (c : Config) (m : Memberlist) (a : Alive) (sc : Suspicion) (p now rnd later : ℕ) (notify : Bool)
    → IsSound c m
    → m.suspicions a.id ≡ some sc
    → m.node_map a.id ≡ some p
    → (m.store p).lives < a.lives
    → ip_allowed c a.ip ≡ true
    → let m' = alive_node c a notify now rnd m in
      (m'.suspicions a.id ≡ none)
      × ((m'.store p).lives ≡ a.lives)
      × (is_alive (m'.store p).state ≡ true)
      × (timeout_fn c sc.timeout_fn later m' ≡ some m')
unfolding alive_node renew_node renew timeout_fn timeout_check
alive_node-cancels_timeout c m a sc p now rnd later notify h e here newer allowed =
    let (q, w) = h.valid.watched a.id sc e in
    let calm = h.self.calm p in
    (
      ground (arith, w, calm),
      ground (arith, w, calm),
      ground (arith, w, calm),
      ground (arith, w, calm),
    )

-- A second delivery of an alive message changes nothing.
alive_node_idem :
    (c : Config) (a : Alive) (first second : Bool) (now rnd later rnd' : ℕ) (m : Memberlist)
    → alive_node c a second later rnd' (alive_node c a first now rnd m)
      ≡ alive_node c a first now rnd m
unfolding alive_node add_node renew_node renew
alive_node_idem c a first second now rnd later rnd' m = ground arith
