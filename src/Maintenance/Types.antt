-- ===== src/Maintenance/Types.antt =====
-- maintenance.go: `swapExpiredToEnd` and `reap`; util.go: `shuffleNodes`. `reap` reads the clock once
-- here, where the source reads it for each node.
use Prim.Native.String.{String}
use mlist.Prelude.{
  ℕ, zero, suc, ◌+◌, ◌-◌, ◌%◌, List, [], ◌∷◌, Bool, Option, ◌&&◌, ltb, if◌then◌else◌, length,
  get_or, take, drop,
}
use mlist.Prelude.Maps.{str_dec, delete}
use mlist.Prelude.Slices.{swap}
use mlist.Members.Types.{dead_or_left, Memberlist}

-- Dead or left for longer than the timeout.
unfoldable pub is_expired : Memberlist → ℕ → ℕ → ℕ → Bool
is_expired m timeout now p =
    dead_or_left (m.store p) && ltb timeout (now - (m.store p).state_change)

-- The loop from `i` with `expiredIdx = i + d`: each round lowers `d` by one, by `i++` or by
-- `expiredIdx--`. The result is the slice and the last `expiredIdx`.
unfoldable pub sweep : (ℕ → Bool) → ℕ → List ℕ → ℕ → List ℕ × ℕ
sweep expired zero nodes i = (nodes, i)
sweep expired (suc d) nodes i =
    let gone = expired (get_or nodes i 0) in
    sweep expired d (if gone then swap nodes i (i + d) else nodes) (if gone then i else i + 1)

unfoldable pub swap_expired_to_end : Memberlist → ℕ → ℕ → List ℕ × ℕ
unfolding sweep is_expired
swap_expired_to_end m timeout now = sweep (is_expired m timeout now) (length m.nodes) m.nodes 0

-- `delete(m.nodeMap, m.nodes[i].Node.ID)` for each of the nodes given.
unfoldable pub deregister : Memberlist → List ℕ → (String → Option ℕ) → String → Option ℕ
deregister m [] node_map = node_map
deregister m (p ∷ ps) node_map = deregister m ps (delete str_dec (m.store p).node.id node_map)

-- `rand.Shuffle`: for `i` from `n - 1` down to 1, an exchange with an entry up to `i`.
unfoldable pub shuffle_nodes : (ℕ → ℕ) → ℕ → List ℕ → List ℕ
shuffle_nodes draw zero nodes = nodes
shuffle_nodes draw (suc i) nodes = shuffle_nodes draw i (swap nodes i (draw i % suc i))

unfoldable pub reap : ℕ → ℕ → (ℕ → ℕ) → Memberlist → Memberlist
reap timeout now draw m =
    let (nodes, expired_idx) = swap_expired_to_end m timeout now in
    record m {
      node_map = deregister m (drop expired_idx nodes) m.node_map;
      nodes = shuffle_nodes draw expired_idx (take expired_idx nodes);
      num_nodes = expired_idx;
    }
