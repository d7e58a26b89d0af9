-- ===== src/Interface/ListLaws.antt =====
-- memberlist.go: the lists of nodes agree with the table.
use mathlib.Core.List.{Memᴰ}
use mathlib.Core.List.Memᴰ.{head, tail, not-nil, cases_cons}
use mlist.Prelude.{
  ℕ, ◌≤◌, ◌<◌, ◌≡◌, sym, ap, subst, List, [], ◌∷◌, some, arith, length, count, ℕ_discrete,
  Option-cases, inl, inr,
}
use mlist.Prelude.Maps.{same}
use mlist.Members.Types.{NodeState, Memberlist}
use mlist.Members.Valid.{IsValid}
use mlist.Interface.Operations.{
  count_active, num_active, active_of, active_nodes, members_of, members, get_node_state,
}

count_active-active_of :
    (m : Memberlist) (ps : List ℕ)
    → (count_active m ps ≡ length (active_of m ps)) × (count_active m ps ≤ length ps)
unfolding count_active active_of
count_active-active_of m [] = ground arith
count_active-active_of m (p ∷ ps) = ground (arith, count_active-active_of m ps)

-- `NumActive` is the length of `ActiveNodes`, and in a well-formed table it is at most `numNodes`.
pub num_active-active_nodes :
    (m : Memberlist)
    → IsValid m
    → (num_active m ≡ length (active_nodes m)) × (num_active m ≤ m.num_nodes)
unfolding num_active active_nodes
num_active-active_nodes m v =
    let (same, le) = count_active-active_of m m.nodes in (same, omega (arith, v.counted))

module _ (m : Memberlist) where
  members_of_has :
      (p : ℕ) (ps : List ℕ) → 0 < count ℕ_discrete p ps → Memᴰ (m.store p) (members_of m ps)
  unfolding members_of count
  members_of_has p [] h = absurd (omega (arith, h))
  members_of_has p (q ∷ ps) h = elim (ℕ_discrete p q) [
    | yes e ↦ head (ap m.store e)
    | no ne ↦ tail (members_of_has p ps (ground arith))
  ]

  members_of_from :
      (n : NodeState) (ps : List ℕ)
      → Memᴰ n (members_of m ps)
      → (p : ℕ) × (0 < count ℕ_discrete p ps) × (m.store p ≡ n)
  unfolding members_of count
  members_of_from n [] h = absurd (not-nil h)
  members_of_from n (q ∷ ps) h = elim (cases_cons h) [
    | inl e ↦ (q, ground arith, sym e)
    | inr rest ↦ let (p, has, e) = members_of_from n ps rest in (p, ground arith, e)
  ]

-- In a well-formed table an entry is among `Members` exactly if `GetNodeState` gives it for its ID.
get_node_state-members :
    (m : Memberlist) (n : NodeState)
    → IsValid m
    → (Memᴰ n (members m) → get_node_state m n.node.id ≡ some n)
      × (get_node_state m n.node.id ≡ some n → Memᴰ n (members m))
unfolding members get_node_state
get_node_state-members m n v = (
  λ h. let (p, has, same) = members_of_from m n m.nodes h in ground (arith, v.listed p has),
  λ e. elim (Option-cases (m.node_map n.node.id)) [
    | inl absent ↦ absurd (ground arith)
    | inr (p, here) ↦
        subst (λ n'. Memᴰ n' (members_of m m.nodes)) (ground arith)
          (members_of_has m p m.nodes (omega (arith, v.mapped_once n.node.id p here)))
  ],
)
