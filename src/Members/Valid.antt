-- ===== src/Members/Valid.antt =====
-- The well-formedness of the membership table.
use Prim.Native.String.{String}
use mlist.Prelude.{ℕ, ◌<◌, ◌≡◌, ◌≢◌, false, some, ℕ_discrete, length, count}
use mlist.Suspicion.{Suspicion}
use mlist.Members.Types.{state_alive, state_suspect, Config, Memberlist}

-- What a suspicion of a node knows of it: the life that its timer was set for.
pub record IsWatched (m : Memberlist) (id : String) (sc : Suspicion) (p : ℕ) : Type 0 where
  pub same_node : m.node_map id ≡ some p
  pub suspected : (m.store p).state ≡ state_suspect
  pub for_id : sc.timeout_fn.id ≡ id
  pub for_life : sc.timeout_fn.lives ≡ (m.store p).lives

-- `nodes` and `nodeMap` hold the same nodes, each once, under their IDs; `numNodes` counts them; and
-- exactly the suspected nodes have a suspicion, set for their current life.
pub record IsValid (m : Memberlist) : Type 0 where
  pub mapped_id : (id : String) (p : ℕ) → m.node_map id ≡ some p → (m.store p).node.id ≡ id
  pub mapped_old : (id : String) (p : ℕ) → m.node_map id ≡ some p → p < m.next
  pub mapped_once : (id : String) (p : ℕ) → m.node_map id ≡ some p → count ℕ_discrete p m.nodes ≡ 1
  pub listed : (p : ℕ) → 0 < count ℕ_discrete p m.nodes → m.node_map (m.store p).node.id ≡ some p
  pub counted : m.num_nodes ≡ length m.nodes
  pub watched :
      (id : String) (sc : Suspicion) → m.suspicions id ≡ some sc → (p : ℕ) × IsWatched m id sc p
  pub suspects :
      (id : String) (p : ℕ)
      → m.node_map id ≡ some p
      → (m.store p).state ≡ state_suspect
      → (sc : Suspicion) × (m.suspicions id ≡ some sc)

-- This node is never suspected by itself, and is alive until `Leave` is called.
pub record IsSelfSafe (c : Config) (m : Memberlist) : Type 0 where
  pub calm : (p : ℕ) → m.node_map c.local_id ≡ some p → (m.store p).state ≢ state_suspect
  pub alive :
      (p : ℕ) → m.node_map c.local_id ≡ some p → m.left ≡ false → (m.store p).state ≡ state_alive

pub record IsSound (c : Config) (m : Memberlist) : Type 0 where
  pub valid : IsValid m
  pub self : IsSelfSafe c m
