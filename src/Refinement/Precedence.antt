-- ===== src/Refinement/Precedence.antt =====
-- Which news of a remote node wins: a later life over an earlier one, and in one life dead or left over
-- suspected over alive.
use Prim.Native.String.{String}
use mlist.Prelude.{
  ℕ, ◌+◌, ◌*◌, ◌≤◌, ◌≡◌, ◌≢◌, refl, ap, ◌∙◌, List, [], ◌∷◌, some, arith, inl, inr, Bool-cases, ◌&&◌,
  ◌||◌, if◌then◌else◌, leb, ◌==◌,
}
use mlist.Prelude.Maps.{same}
use mlist.Suspicion.{Floats, TimeoutFn}
use mlist.Members.Types.{
  StateType, state_alive, state_suspect, state_dead, state_left, NodeState, Alive, Suspect, Dead,
  Config, Memberlist, is_alive, is_suspect,
}
use mlist.Members.Handlers.{ip_allowed}
use mlist.Members.Valid.{IsSound}
use mlist.Maintenance.Run.{Input, lives, is_suspected, dies, times_out, reaps, leaves, run}
use mlist.Refinement.Entry.{
  Entry, view, entry_alive, entry_suspect, entry_dead, entry_timeout, entry_step, replay,
}
use mlist.Refinement.Runs.{run_refines_from}

abbrev weight : StateType → ℕ
weight state_alive = 0
weight state_suspect = 1
weight state_dead = 2
weight state_left = 2

-- Compares the life first and the state second.
abbrev pub rank : NodeState → ℕ
rank n = 3 * n.lives + weight n.state

-- No node is reaped.
abbrev pub NoReap : List (ℕ × Input) → Type 0
NoReap [] = Unit
NoReap ((_, reaps _ _) ∷ is) = ⊥
NoReap ((_, _) ∷ is) = NoReap is

abbrev IsAtLeast : ℕ → Entry → Type 0
IsAtLeast r e = (n : NodeState) × (e ≡ some n) × (r ≤ rank n)

-- An entry that is there stays, and its rank does not fall.
entry_alive-rank :
    (a : Alive) (now : ℕ) (n : NodeState) → IsAtLeast (rank n) (entry_alive a now (some n))
entry_alive-rank a now n = elim (Bool-cases (leb a.lives n.lives)) [
  | inl old ↦ (n, ground arith, omega arith)
  | inr new ↦ (
    record {
      node = record n.node { tags = a.tags };
      lives = a.lives;
      state = state_alive;
      state_change = if is_alive n.state then n.state_change else now;
    },
    ground arith,
    ground arith,
  )
]

entry_suspect-rank :
    (s : Suspect) (now : ℕ) (n : NodeState) → IsAtLeast (rank n) (entry_suspect s now (some n))
entry_suspect-rank s now n = elim (Bool-cases (leb n.lives s.lives && is_alive n.state)) [
  | inl taken ↦ (
    record n { lives = s.lives; state = state_suspect; state_change = now },
    ground arith,
    ground arith,
  )
  | inr kept ↦ (n, ground arith, omega arith)
]

entry_dead-rank :
    (d : Dead) (now : ℕ) (n : NodeState) → IsAtLeast (rank n) (entry_dead d now (some n))
entry_dead-rank d now n =
    elim (Bool-cases (leb n.lives d.lives && (is_alive n.state || is_suspect n.state))) [
      | inl taken ↦ (
        record n {
          lives = d.lives;
          state = if d.left then state_left else state_dead;
          state_change = now;
        },
        ground arith,
        ground arith,
      )
      | inr kept ↦ (n, ground arith, omega arith)
    ]

entry_timeout-rank :
    (f : TimeoutFn) (now : ℕ) (n : NodeState) → IsAtLeast (rank n) (entry_timeout f now (some n))
entry_timeout-rank f now n = elim (Bool-cases (is_suspect n.state && (n.lives == f.lives))) [
  | inl taken ↦ (record n { state = state_dead; state_change = now }, ground arith, ground arith)
  | inr kept ↦ (n, ground arith, omega arith)
]

step-rank :
    (c : Config) (id : String) (now : ℕ) (i : Input) (n : NodeState) (is : List (ℕ × Input))
    → NoReap ((now, i) ∷ is)
    → IsAtLeast (rank n) (entry_step c id now i (some n)) × NoReap is
unfolding entry_step
step-rank c id now (lives a notify rnd) n is h =
    elim (Bool-cases (same a.id id && ip_allowed c a.ip)) [
      | inl for_it ↦ rw (for_it, entry_step) (entry_alive-rank a now n, h)
      | inr other ↦ rw (other, entry_step) ((n, refl, omega arith), h)
    ]
step-rank c id now (is_suspected s) n is h = elim (Bool-cases (same s.id id)) [
  | inl for_it ↦ rw (for_it, entry_step) (entry_suspect-rank s now n, h)
  | inr other ↦ rw (other, entry_step) ((n, refl, omega arith), h)
]
step-rank c id now (dies d notify) n is h = elim (Bool-cases (same d.id id)) [
  | inl for_it ↦ rw (for_it, entry_step) (entry_dead-rank d now n, h)
  | inr other ↦ rw (other, entry_step) ((n, refl, omega arith), h)
]
step-rank c id now (times_out f) n is h = elim (Bool-cases (same f.id id)) [
  | inl for_it ↦ rw (for_it, entry_step) (entry_timeout-rank f now n, h)
  | inr other ↦ rw (other, entry_step) ((n, refl, omega arith), h)
]
step-rank c id now (reaps timeout draw) n is h = elim h [ ]
step-rank c id now leaves n is h = ((n, refl, omega arith), h)

replay-rank :
    (c : Config) (id : String) (is : List (ℕ × Input)) (n : NodeState)
    → NoReap is
    → IsAtLeast (rank n) (replay c id is (some n))
unfolding replay
replay-rank c id [] n h = (n, refl, omega arith)
replay-rank c id ((now, i) ∷ is) n h =
    let ((n1, e1, le1), h') = step-rank c id now i n is h in
    let (n2, e2, le2) = replay-rank c id is n1 h' in (n2, ap (replay c id is) e1 ∙ e2, omega arith)

-- From a sound table, over any inputs without a reaping, a remote node that is known stays known, and
-- what is known of it only moves up: to a later life, or in the same life from alive to suspected to
-- dead or left. A node that is dead or left does not come back in the same life.
pub run-rank :
    {F : Type 0} (fl : Floats F) (c : Config) (id : String) (is : List (ℕ × Input))
    (m m' : Memberlist) (n : NodeState)
    → id ≢ c.local_id
    → IsSound c m
    → NoReap is
    → run fl c is m ≡ some m'
    → view m id ≡ some n
    → (n' : NodeState) × (view m' id ≡ some n') × (rank n ≤ rank n')
run-rank fl c id is m m' n far h stays e known =
    let (n', e', le) = replay-rank c id is n stays in
    (n', run_refines_from fl c id far is m m' h e ∙ (ap (replay c id is) known ∙ e'), le)
