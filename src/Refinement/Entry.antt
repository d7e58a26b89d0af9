-- ===== src/Refinement/Entry.antt =====
-- What the table promises of one remote node: an entry that changes by a rule of its own, whatever
-- happens to the other nodes. `none` is a node that is not in the table.
use Prim.Native.String.{String}
use mlist.Prelude.{
  ℕ, ◌-◌, List, [], ◌∷◌, ◌&&◌, ◌||◌, Option, none, some, ltb, leb, ◌==◌, if◌then◌else◌,
}
use mlist.Prelude.Maps.{same}
use mlist.Suspicion.{TimeoutFn}
use mlist.Members.Types.{
  state_alive, state_suspect, state_dead, state_left, NodeState, dead_or_left, is_alive, is_suspect,
  Alive, Suspect, Dead, Config, Memberlist,
}
use mlist.Members.Handlers.{ip_allowed}
use mlist.Maintenance.Run.{Input, lives, is_suspected, dies, times_out, reaps, leaves}

abbrev pub Entry : Type 0
Entry = Option NodeState

-- What the table holds under an ID.
abbrev pub view : Memberlist → String → Entry
view m id = elim (m.node_map id) [ none ↦ none | some p ↦ some (m.store p) ]

-- A new node comes alive; a known one only in a later life.
abbrev pub entry_alive : Alive → ℕ → Entry → Entry
entry_alive a now none = some (record {
  node = record { id = a.id; ip = a.ip; port = a.port; tags = a.tags };
  lives = a.lives;
  state = state_alive;
  state_change = now;
})
entry_alive a now (some n) =
    if leb a.lives n.lives
    then some n
    else some (record {
      node = record n.node { tags = a.tags };
      lives = a.lives;
      state = state_alive;
      state_change = if is_alive n.state then n.state_change else now;
    })

-- Only a node that is alive, in this life or an earlier one, is suspected.
abbrev pub entry_suspect : Suspect → ℕ → Entry → Entry
entry_suspect s now none = none
entry_suspect s now (some n) =
    if leb n.lives s.lives && is_alive n.state
    then some (record n { lives = s.lives; state = state_suspect; state_change = now })
    else some n

-- A node that is alive or suspected, in this life or an earlier one, dies or leaves.
abbrev pub entry_dead : Dead → ℕ → Entry → Entry
entry_dead d now none = none
entry_dead d now (some n) =
    if leb n.lives d.lives && (is_alive n.state || is_suspect n.state)
    then some (record n {
      lives = d.lives;
      state = if d.left then state_left else state_dead;
      state_change = now;
    })
    else some n

-- The timer of a suspicion marks the node dead that is still suspected in the same life.
abbrev pub entry_timeout : TimeoutFn → ℕ → Entry → Entry
entry_timeout f now none = none
entry_timeout f now (some n) =
    if is_suspect n.state && (n.lives == f.lives)
    then some (record n { state = state_dead; state_change = now })
    else some n

abbrev pub entry_reap : ℕ → ℕ → Entry → Entry
entry_reap timeout now none = none
entry_reap timeout now (some n) =
    if dead_or_left n && ltb timeout (now - n.state_change) then none else some n

-- A message for another node changes nothing.
unfoldable pub entry_step : Config → String → ℕ → Input → Entry → Entry
entry_step c id now (lives a _ _) e =
    if same a.id id && ip_allowed c a.ip then entry_alive a now e else e
entry_step c id now (is_suspected s) e = if same s.id id then entry_suspect s now e else e
entry_step c id now (dies d _) e = if same d.id id then entry_dead d now e else e
entry_step c id now (times_out f) e = if same f.id id then entry_timeout f now e else e
entry_step c id now (reaps timeout _) e = entry_reap timeout now e
entry_step c id now leaves e = e

unfoldable pub replay : Config → String → List (ℕ × Input) → Entry → Entry
replay c id [] e = e
replay c id ((now, i) ∷ is) e = replay c id is (entry_step c id now i e)
