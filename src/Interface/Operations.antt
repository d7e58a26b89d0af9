-- ===== src/Interface/Operations.antt =====
-- memberlist.go: `setAlive`, `Leave`, `UpdateTags`, the lists of nodes, and `GetNodeState`. What the
-- select of `Leave` and of `UpdateTags` waits for is an argument: whether the broadcast, if there is
-- one, goes out in time. A call of one of them is one step, though it does not hold `nodeL` from start
-- to end; Process has their parts as steps.
use Prim.Native.String.{String}
use mlist.Prelude.{
  ℕ, suc, List, [], ◌∷◌, Bool, true, false, not, ◌&&◌, ◌||◌, Option, none, some, ltb, ◌==◌,
  if◌then◌else◌, length,
}
use mlist.Prelude.Maps.{same}
use mlist.Members.Types.{Bytes, NodeState, dead_or_left, Alive, Dead, Config, Memberlist}
use mlist.Members.Handlers.{alive_node, dead_node, next_live_no}

abbrev pub tag_max_size : ℕ
tag_max_size = 512

pub data Outcome : Type 0 where
  done timed_out_waiting tags_too_large panics : Outcome

unfoldable pub has_active : Config → Memberlist → List ℕ → Bool
has_active c m [] = false
has_active c m (p ∷ ps) =
    (not (dead_or_left (m.store p)) && not (same (m.store p).node.id c.local_id))
    || has_active c m ps

unfoldable pub has_active_peers : Config → Memberlist → Bool
unfolding has_active
has_active_peers c m = has_active c m m.nodes

unfoldable pub count_active : Memberlist → List ℕ → ℕ
count_active m [] = 0
count_active m (p ∷ ps) =
    let rest = count_active m ps in if dead_or_left (m.store p) then rest else suc rest

unfoldable pub num_active : Memberlist → ℕ
unfolding count_active
num_active m = count_active m m.nodes

unfoldable pub active_of : Memberlist → List ℕ → List NodeState
active_of m [] = []
active_of m (p ∷ ps) =
    let rest = active_of m ps in if dead_or_left (m.store p) then rest else m.store p ∷ rest

unfoldable pub active_nodes : Memberlist → List NodeState
unfolding active_of
active_nodes m = active_of m m.nodes

-- The clones of `Members` and `GetNodeState` are the entries themselves: no entry is written afterwards.
unfoldable pub members_of : Memberlist → List ℕ → List NodeState
members_of m [] = []
members_of m (p ∷ ps) = m.store p ∷ members_of m ps

unfoldable pub members : Memberlist → List NodeState
unfolding members_of
members m = members_of m m.nodes

unfoldable pub get_node_state : Memberlist → String → Option NodeState
get_node_state m id = elim (m.node_map id) [ none ↦ none | some p ↦ some (m.store p) ]

unfoldable pub local_node_state : Config → Memberlist → Option NodeState
unfolding get_node_state
local_node_state c m = get_node_state m c.local_id

-- Whether a handler queued a broadcast, which alone can be notified of.
abbrev pub has_queued : Memberlist → Memberlist → Bool
has_queued m m' = ltb (length m.effects) (length m'.effects)

-- The end of `Leave` and of `UpdateTags`, with `BroadcastWaitTimeout`.
unfoldable pub wait : Config → ℕ → Bool → Memberlist → Outcome
unfolding has_active_peers
wait c timeout notified m =
    if not (has_active_peers c m) || timeout == 0
    then done
    else if notified
    then done
    else timed_out_waiting

abbrev pub next_lives : Memberlist → Memberlist
next_lives m = record m { lives = next_live_no m.lives }

-- `ip` and `port` are the advertised address, and `tags` those of the configuration.
unfoldable pub set_alive : Config → Bytes → ℕ → Bytes → ℕ → ℕ → Memberlist → Memberlist × Outcome
set_alive c ip port tags now rnd m =
    if ltb tag_max_size (length tags)
    then (m, tags_too_large)
    else let a : Alive = record {
      lives = next_live_no m.lives;
      id = c.local_id;
      ip = ip;
      port = port;
      tags = tags;
    } in
      (alive_node c a false now rnd (next_lives m), done)

abbrev pub local_dead : Memberlist → ℕ → Dead
local_dead m p = record { lives = (m.store p).lives; id = (m.store p).node.id; left = true }

unfoldable pub leave : Config → Bool → ℕ → Bool → ℕ → Memberlist → Option (Memberlist × Outcome)
unfolding wait
leave c shutdown timeout notified now m =
    if shutdown
    then some (m, panics)
    else if m.left
    then some (m, done)
    else elim (m.node_map c.local_id) [
      | none ↦ some (record m { left = true }, done)
      | some p ↦ elim (dead_node c (local_dead m p) true now (record m { left = true })) [
        | none ↦ none
        | some m' ↦ some (m', wait c timeout (notified && has_queued m m') m')
      ]
    ]

-- A node that is not in its own table has no `node.Node`: the access panics.
unfoldable pub update_tags : Config → Bytes → ℕ → Bool → ℕ → ℕ → Memberlist → Memberlist × Outcome
unfolding wait
update_tags c tags timeout notified now rnd m =
    if ltb tag_max_size (length tags) then (m, tags_too_large) else elim (m.node_map c.local_id) [
      | none ↦ (m, panics)
      | some p ↦
          let d = (m.store p).node in
          let a : Alive = record {
            lives = next_live_no m.lives;
            id = c.local_id;
            ip = d.ip;
            port = d.port;
            tags = tags;
          } in
          let m' = alive_node c a true now rnd (next_lives m) in
          (m', wait c timeout (notified && has_queued m m') m')
    ]
