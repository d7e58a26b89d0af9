-- ===== src/Maintenance/Choose.antt =====
-- maintenance.go: `nextProbeNode`, which goes round the table, and `pickRandomNodes`. A node is its
-- address in the store; the clone that the source returns has the same contents.
use Prim.Native.String.{String}
use mlist.Prelude.{
  ℕ, zero, suc, ◌+◌, ◌*◌, List, [], ◌∷◌, ◌++◌, Bool, false, not, ◌&&◌, ◌||◌, Option, none, some,
  ltb, leb, if◌then◌else◌, length, drop, get_or,
}
use mlist.Prelude.Maps.{same}
use mlist.Prelude.Int.{ℤ, pos, pos_part, ◌+ℤ◌}
use mlist.Members.Types.{Config, Memberlist, dead_or_left}
use mlist.Members.Handlers.{rand_int_n}

-- The test by which `nextProbeNode` passes a node over, negated.
unfoldable pub can_probe : Config → Memberlist → ℕ → Bool
can_probe c m p = not (same (m.store p).node.id c.local_id) && not (dead_or_left (m.store p))

-- The inner loop, from index `i` on: the node found, and the last value of `probeIdx`.
unfoldable pub scan : (ℕ → Bool) → List ℕ → ℕ → Option ℕ × ℕ
scan ok [] i = (none, i)
scan ok (p ∷ ps) i = let rest = scan ok ps (i + 1) in if ok p then (some p, i) else rest

-- The outer loop, from `i = probeIdx` after its increment: the rest of the table, then all of it.
unfoldable pub probe_from : (ℕ → Bool) → List ℕ → ℕ → Option ℕ × ℕ
unfolding scan
probe_from ok nodes i =
    if leb (length nodes) i
    then scan ok nodes 0
    else let (found, idx) = scan ok (drop i nodes) i in
      elim found [ some p ↦ (some p, idx) | none ↦ scan ok nodes 0 ]

-- `probe_idx` is `m.probeIdx`, at least -1. The result has the new one.
unfoldable pub next_probe_node : Config → Memberlist → ℤ → Option ℕ × ℤ
unfolding probe_from can_probe ◌+ℤ◌
next_probe_node c m probe_idx =
    let (found, idx) = probe_from (can_probe c m) m.nodes (pos_part (probe_idx +ℤ pos 1)) in
    (found, pos idx)

abbrev pub has_id : Memberlist → List ℕ → String → Bool
has_id m [] id = false
has_id m (p ∷ ps) id = same id (m.store p).node.id || has_id m ps id

-- One round of `pickRandomNodes` with the index drawn, and its loop with the rounds that are left.
unfoldable pub pick_round : Memberlist → (ℕ → Bool) → ℕ → List ℕ → List ℕ
pick_round m accept p picked =
    if not (accept p) || has_id m picked (m.store p).node.id then picked else picked ++ (p ∷ [])

unfoldable pub pick_rounds : Memberlist → (ℕ → Bool) → (ℕ → ℕ) → ℕ → ℕ → List ℕ → List ℕ
unfolding pick_round rand_int_n
pick_rounds m accept draw num_nodes zero picked = picked
pick_rounds m accept draw num_nodes (suc rounds) picked =
    let p = get_or m.nodes (rand_int_n (length m.nodes) (draw rounds)) 0 in
    pick_rounds m accept draw num_nodes rounds
      (if ltb (length picked) num_nodes then pick_round m accept p picked else picked)

unfoldable pub pick_random_nodes : Memberlist → (ℕ → Bool) → (ℕ → ℕ) → ℕ → List ℕ
unfolding pick_rounds
pick_random_nodes m accept draw num_nodes =
    pick_rounds m accept draw num_nodes (3 * length m.nodes) []
