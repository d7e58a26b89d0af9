-- ===== src/PushPull/Merge.antt =====
-- pushpull.go: `localState` and `mergeState`. Each message of the loop takes the lock by itself; `rnd`
-- gives the draws of the alive messages.
use Prim.Native.String.{String}
use mlist.Prelude.{ℕ, List, [], ◌∷◌, true, false, Option, none, some, length}
use mlist.Suspicion.{Floats}
use mlist.Members.Types.{
  StateType, state_alive, state_suspect, state_dead, state_left, Bytes, NodeState, Alive, Suspect,
  Config, Memberlist,
}
use mlist.Members.Handlers.{alive_node, suspect_node, dead_node}

pub record StateToMerge : Type 0 where
  pub lives : ℕ
  pub id : String
  pub ip : Bytes
  pub port : ℕ
  pub tags : Bytes
  pub state : StateType

abbrev pub to_merge : NodeState → StateToMerge
to_merge n = record {
  lives = n.lives;
  id = n.node.id;
  ip = n.node.ip;
  port = n.node.port;
  tags = n.node.tags;
  state = n.state;
}

unfoldable pub states_of : Memberlist → List ℕ → List StateToMerge
states_of m [] = []
states_of m (p ∷ ps) = to_merge (m.store p) ∷ states_of m ps

unfoldable pub local_state : Memberlist → List StateToMerge
unfolding states_of
local_state m = states_of m m.nodes

abbrev pub alive_of : StateToMerge → Alive
alive_of r = record { lives = r.lives; id = r.id; ip = r.ip; port = r.port; tags = r.tags }

-- A dead node is taken for a suspected one, so that it can refute.
abbrev suspect_of : Config → StateToMerge → Suspect
suspect_of c r = record { lives = r.lives; id = r.id; from = c.local_id }

module _ {F : Type 0} (fl : Floats F) (c : Config) where
  unfoldable pub merge_as : StateType → StateToMerge → ℕ → ℕ → Memberlist → Option Memberlist
  merge_as state_alive r now rnd m = some (alive_node c (alive_of r) false now rnd m)
  merge_as state_left r now rnd m =
      dead_node c (record { lives = r.lives; id = r.id; left = true }) false now m
  merge_as state_dead r now rnd m = suspect_node fl c (suspect_of c r) now m
  merge_as state_suspect r now rnd m = suspect_node fl c (suspect_of c r) now m

  unfoldable pub merge_one : StateToMerge → ℕ → ℕ → Memberlist → Option Memberlist
  unfolding merge_as
  merge_one r now rnd m = merge_as r.state r now rnd m

  unfoldable pub merge_state : List StateToMerge → ℕ → (ℕ → ℕ) → Memberlist → Option Memberlist
  merge_state [] now rnd m = some m
  merge_state (r ∷ rs) now rnd m = elim (merge_one r now (rnd (length rs)) m) [
    | none ↦ none
    | some m' ↦ merge_state rs now rnd m'
  ]
