-- ===== src/Refinement/Races.antt =====
-- state.go: what happens between the two halves of `timeoutFn`, which lets go of the lock in between.
use mlist.Prelude.{
  ℕ, ◌+◌, ◌*◌, ◌≤◌, ◌<◌, ◌≡◌, ◌≢◌, refl, ap, sym, ◌∙◌, List, Bool, true, false, some, arith,
  Option-cases, inl, inr, Bool-cases, leb, if◌then◌else◌,
}
use mlist.Suspicion.{Floats, TimeoutFn}
use mlist.Members.Types.{is_alive, state_alive, NodeState, Alive, Dead, Config, Memberlist}
use mlist.Members.Handlers.{alive_node, ip_allowed, dead_node, timeout_check}
use mlist.Members.Valid.{IsSound}
use mlist.Members.Sound.{alive_node-IsSound}
use mlist.Maintenance.Run.{Input, run, run-IsSound_from}
use mlist.Refinement.Entry.{view}
use mlist.Refinement.Handlers.{view-alive_node}
use mlist.Broadcast.Named.{same-yes}
use mlist.Refinement.Precedence.{rank, NoReap, run-rank}

weight_bound : (n : NodeState) (k : ℕ) → 3 * (k + 1) ≤ rank n → k < n.lives
weight_bound n k h = ground arith

-- A node that is known in a later life than the message's is left alone.
dead_node-late :
    (c : Config) (d : Dead) (now : ℕ) (m : Memberlist) (n : NodeState)
    → view m d.id ≡ some n
    → d.lives < n.lives
    → dead_node c d false now m ≡ some m
unfolding dead_node
dead_node-late c d now m n known late = elim (Option-cases (m.node_map d.id)) [
  | inl absent ↦ ground arith
  | inr (p, here) ↦ ground arith
]

-- The first half has found the node of the timer.
timeout_check-known :
    (c : Config) (f : TimeoutFn) (d : Dead) (m : Memberlist)
    → IsSound c m
    → timeout_check f m ≡ some d
    → (n : NodeState) × (view m f.id ≡ some n) × (d.id ≡ f.id)
unfolding timeout_check
timeout_check-known c f d m h e = elim (Option-cases (m.node_map f.id)) [
  | inl absent ↦ absurd (ground arith)
  | inr (p, here) ↦ (m.store p, ground arith, ground (arith, h.valid.mapped_id f.id p here))
]

-- An alive message that is newer than a life leaves the node known in a later one.
alive_node-known :
    (c : Config) (m : Memberlist) (now : ℕ) (a : Alive) (notify : Bool) (rnd k : ℕ) (n : NodeState)
    → a.id ≢ c.local_id
    → IsSound c m
    → view m a.id ≡ some n
    → ip_allowed c a.ip ≡ true
    → k < a.lives
    → (n' : NodeState) × (view (alive_node c a notify now rnd m) a.id ≡ some n') × (k < n'.lives)
alive_node-known c m now a notify rnd k n far h known allowed newer =
    let seen = view-alive_node c m h now a.id far a notify rnd in
    let own = same-yes a.id a.id refl in
    elim (Bool-cases (leb a.lives n.lives)) [
      | inl old ↦ (n, ground arith, ground arith)
      | inr new ↦ (
        record {
          node = record n.node { tags = a.tags };
          lives = a.lives;
          state = state_alive;
          state_change = if is_alive n.state then n.state_change else now;
        },
        ground arith,
        newer,
      )
    ]

-- The two halves of `timeoutFn` with anything but a reaping between them: if a newer alive message about
-- the node is among it, the second half changes nothing, so that a node which contradicts its
-- suspicion in time is not marked dead, even when the timer has already fired.
pub timeout_fn-race :
    {F : Type 0} (fl : Floats F) (c : Config) (f : TimeoutFn) (d : Dead) (a : Alive)
    (before after : List (ℕ × Input)) (m m1 m2 : Memberlist) (now rnd later : ℕ) (notify : Bool)
    → f.id ≢ c.local_id
    → IsSound c m
    → timeout_check f m ≡ some d
    → NoReap before
    → run fl c before m ≡ some m1
    → a.id ≡ f.id
    → d.lives < a.lives
    → ip_allowed c a.ip ≡ true
    → NoReap after
    → run fl c after (alive_node c a notify now rnd m1) ≡ some m2
    → dead_node c d false later m2 ≡ some m2
timeout_fn-race fl c f d a before after m m1 m2 now rnd later notify far h checked stays ran id_eq
      newer allowed stays' ran' =
    let (n0, there, named) = timeout_check-known c f d m h checked in
    let far_a : a.id ≢ c.local_id = λ e. far (sym id_eq ∙ e) in
    let (n1, known1, up1) = run-rank fl c f.id before m m1 n0 far h stays ran there in
    let h1 = run-IsSound_from fl c before m h ran in
    let known1' : view m1 a.id ≡ some n1 = ap (view m1) id_eq ∙ known1 in
    let (n2, known2, late2) =
      alive_node-known c m1 now a notify rnd d.lives n1 far_a h1 known1' allowed newer in
    let m1' = alive_node c a notify now rnd m1 in
    let h2 = alive_node-IsSound c m1 h1 now a notify rnd in
    let (n3, known3, up3) = run-rank fl c a.id after m1' m2 n2 far_a h2 stays' ran' known2 in
    let late3 : d.lives < n3.lives = weight_bound n3 d.lives (omega arith) in
    let at_id : view m2 d.id ≡ some n3 = ap (view m2) (named ∙ sym id_eq) ∙ known3 in
    dead_node-late c d later m2 n3 at_id late3
