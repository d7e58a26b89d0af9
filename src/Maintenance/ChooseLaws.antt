-- ===== src/Maintenance/ChooseLaws.antt =====
-- maintenance.go: which nodes are chosen for a probe, for gossip and for indirect pings.
use Prim.Native.String.{String}
use mlist.Prelude.{
  ℕ, zero, suc, ◌+◌, ◌*◌, ◌-◌, ◌≤◌, ◌<◌, ◌≡◌, ◌⊎◌, inl, inr, refl, sym, ap, ◌∙◌, List, [], ◌∷◌,
  ◌++◌, Bool, true, false, not, ◌||◌, none, some, arith, ltb, ltb→lt, leb, dec_lt, ℕ_discrete,
  length, length-append, length-drop, drop, get_or, count, Bool-cases, Option-cases,
}
use mlist.Prelude.Maps.{same}
use mlist.Prelude.Int.{ℤ, pos, pos_part, ◌+ℤ◌}
use mlist.Members.Types.{Config, Memberlist}
use mlist.Members.Handlers.{rand_int_n}
use mlist.Maintenance.Choose.{
  can_probe, scan, probe_from, next_probe_node, has_id, pick_round, pick_rounds, pick_random_nodes,
}

module _ (ok : ℕ → Bool) where
  scan-found :
      (ps : List ℕ) (i p idx : ℕ)
      → scan ok ps i ≡ (some p, idx)
      → (ok p ≡ true)
        × (i ≤ idx)
        × (idx < i + length ps)
        × (get_or ps (idx - i) 0 ≡ p)
        × (0 < count ℕ_discrete p ps)
  unfolding scan count
  scan-found [] i p idx e = absurd (ground arith)
  scan-found (q ∷ ps) i p idx e = elim (Bool-cases (ok q)) [
    | inl here ↦ ground arith
    | inr there ↦
        let (good, le, lt, at, mem) = scan-found ps (i + 1) p idx (ground arith) in
        let next : idx - i ≡ suc (idx - (i + 1)) = omega arith in
        (good, omega arith, omega arith, ap (λ k. get_or (q ∷ ps) k 0) next ∙ at, ground arith)
  ]

  scan-none :
      (ps : List ℕ) (i : ℕ)
      → (scan ok ps i).0 ≡ none
      → (p : ℕ) → 0 < count ℕ_discrete p ps
      → ok p ≡ false
  unfolding scan count
  scan-none [] i e p h = elim h [ ]
  scan-none (q ∷ ps) i e p h = elim (Bool-cases (ok q)) [
    | inl here ↦ absurd (ground arith)
    | inr there ↦ elim (ℕ_discrete p q) [
      | yes e' ↦ ap ok e' ∙ there
      | no ne ↦ scan-none ps (i + 1) (ground arith) p (ground arith)
    ]
  ]

  get_or-drop : (xs : List ℕ) (i k : ℕ) → i ≤ k → get_or (drop i xs) (k - i) 0 ≡ get_or xs k 0
  get_or-drop [] zero k h = refl
  get_or-drop [] (suc i) k h = refl
  get_or-drop (x ∷ xs) zero k h = ap (λ j. get_or (x ∷ xs) j 0) (omega arith)
  get_or-drop (x ∷ xs) (suc i) zero h = absurd (omega arith)
  get_or-drop (x ∷ xs) (suc i) (suc k) h =
      ap (λ j. get_or (drop i xs) j 0) (omega arith) ∙ get_or-drop xs i k (omega arith)

  probe_from-found :
      (nodes : List ℕ) (i p idx : ℕ)
      → probe_from ok nodes i ≡ (some p, idx)
      → (ok p ≡ true) × (idx < length nodes) × (get_or nodes idx 0 ≡ p)
  unfolding probe_from
  probe_from-found nodes i p idx e = elim (Bool-cases (leb (length nodes) i)) [
    | inl wrap ↦ from_start (ground arith)
    | inr inside ↦ elim (Option-cases (scan ok (drop i nodes) i).0) [
      | inl none_left ↦ from_start (ground arith)
      | inr (q, here) ↦
          let (good, le, lt, at, mem) = scan-found (drop i nodes) i p idx (ground arith) in
          (good, ground (arith, length-drop i nodes), sym (get_or-drop nodes i idx le) ∙ at)
    ]
  ]
    where
      from_start :
          scan ok nodes 0 ≡ (some p, idx)
          → (ok p ≡ true) × (idx < length nodes) × (get_or nodes idx 0 ≡ p)
      from_start found =
          let (good, le, lt, at, mem) = scan-found nodes 0 p idx found in
          (good, omega arith, ap (λ k. get_or nodes k 0) (omega arith) ∙ at)

  probe_from-none :
      (nodes : List ℕ) (i : ℕ)
      → (probe_from ok nodes i).0 ≡ none
      → (p : ℕ) → 0 < count ℕ_discrete p nodes
      → ok p ≡ false
  unfolding probe_from
  probe_from-none nodes i e = scan-none nodes 0 (elim (Bool-cases (leb (length nodes) i)) [
    | inl wrap ↦ ground arith
    | inr inside ↦ ground arith
  ])

-- `nextProbeNode` either returns the node of the table at the index that it leaves in `probeIdx`, which is
-- not this node and neither dead nor left, or it fails, and then every node of the table is this node or
-- dead or left.
next_probe_node_lem :
    (c : Config) (m : Memberlist) (probe_idx : ℤ)
    → ((p idx : ℕ) × (next_probe_node c m probe_idx ≡ (some p, pos idx))
        × (can_probe c m p ≡ true)
        × (idx < length m.nodes)
        × (get_or m.nodes idx 0 ≡ p))
      ⊎ (((next_probe_node c m probe_idx).0 ≡ none)
          × ((p : ℕ) → 0 < count ℕ_discrete p m.nodes → can_probe c m p ≡ false))
unfolding next_probe_node
next_probe_node_lem c m probe_idx =
    let i = pos_part (probe_idx +ℤ pos 1) in
    let ok = can_probe c m in
    let r = probe_from ok m.nodes i in
    elim (Option-cases r.0) [
      | inl e ↦ inr (e, probe_from-none ok m.nodes i e)
      | inr (p, e) ↦
          let (good, lt, at) = probe_from-found ok m.nodes i p r.1 (ground arith) in
          inl (p, r.1, ground arith, good, lt, at)
    ]

module _ (m : Memberlist) (accept : ℕ → Bool) where
  -- Nodes of the table that the caller accepts, no two of one ID.
  abbrev pub ArePicked : List ℕ → Type 0
  ArePicked [] = Unit
  ArePicked (p ∷ ps) =
      (accept p ≡ true)
      × (0 < count ℕ_discrete p m.nodes)
      × (has_id m ps (m.store p).node.id ≡ false)
      × ArePicked ps

  count-get_or : (xs : List ℕ) (k : ℕ) → k < length xs → 0 < count ℕ_discrete (get_or xs k 0) xs
  unfolding count
  count-get_or [] k h = elim h [ ]
  count-get_or (x ∷ xs) zero h = ground arith
  count-get_or (x ∷ xs) (suc k) h = ground (arith, count-get_or xs k (omega arith))

  has_id-append :
      (ps : List ℕ) (p : ℕ) (id : String)
      → has_id m (ps ++ (p ∷ [])) id ≡ (has_id m ps id || same id (m.store p).node.id)
  has_id-append [] p id = ground arith
  has_id-append (q ∷ ps) p id = ground (arith, has_id-append ps p id)

  ArePicked-append :
      (ps : List ℕ) (p : ℕ)
      → accept p ≡ true
      → 0 < count ℕ_discrete p m.nodes
      → has_id m ps (m.store p).node.id ≡ false
      → ArePicked ps
      → ArePicked (ps ++ (p ∷ []))
  ArePicked-append [] p good mem fresh h = (good, mem, refl, tt)
  ArePicked-append (q ∷ ps) p good mem fresh h = (
    h.0,
    h.1,
    ground (arith, has_id-append ps p (m.store q).node.id),
    ArePicked-append ps p good mem (ground arith) h.3,
  )

  pick_round-ArePicked :
      (p : ℕ) (picked : List ℕ) (num_nodes : ℕ)
      → 0 < count ℕ_discrete p m.nodes
      → length picked < num_nodes
      → ArePicked picked
      → (length (pick_round m accept p picked) ≤ num_nodes)
        × ArePicked (pick_round m accept p picked)
  unfolding pick_round
  pick_round-ArePicked p picked num_nodes mem lt h =
      elim (Bool-cases (not (accept p) || has_id m picked (m.store p).node.id)) [
        | inl skip ↦ rw (skip, pick_round) (omega arith, h)
        | inr take_it ↦
            rw (take_it, pick_round)
              (
                omega (arith, length-append picked (p ∷ [])),
                ArePicked-append picked p (ground arith) mem (ground arith) h,
              )
      ]

  pick_rounds-ArePicked :
      (draw : ℕ → ℕ) (num_nodes rounds : ℕ) (picked : List ℕ)
      → 0 < length m.nodes
      → length picked ≤ num_nodes
      → ArePicked picked
      → (length (pick_rounds m accept draw num_nodes rounds picked) ≤ num_nodes)
        × ArePicked (pick_rounds m accept draw num_nodes rounds picked)
  unfolding pick_rounds
  pick_rounds-ArePicked draw num_nodes zero picked some_node le h = (le, h)
  pick_rounds-ArePicked draw num_nodes (suc rounds) picked some_node le h =
      let n = length m.nodes in
      let k = rand_int_n n (draw rounds) in
      let p = get_or m.nodes k 0 in
      let inside : k < n = unfold rand_int_n in ground arith in
      elim (Bool-cases (ltb (length picked) num_nodes)) [
        | inl room ↦
            let (le', h') =
              pick_round-ArePicked p picked num_nodes (count-get_or m.nodes k inside)
                (ltb→lt _ _ room) h in
            rw (room, pick_rounds)
              (pick_rounds-ArePicked draw num_nodes rounds (pick_round m accept p picked) some_node
                le' h')
        | inr full ↦
            rw (full, pick_rounds)
              (pick_rounds-ArePicked draw num_nodes rounds picked some_node le h)
      ]

  -- `pickRandomNodes` returns at most the number of nodes asked for, each a node of the table that the
  -- caller accepts, and no two with the same ID, whatever the random draws.
  pub pick_random_nodes-ArePicked :
      (draw : ℕ → ℕ) (num_nodes : ℕ)
      → (length (pick_random_nodes m accept draw num_nodes) ≤ num_nodes)
        × ArePicked (pick_random_nodes m accept draw num_nodes)
  unfolding pick_random_nodes pick_rounds
  pick_random_nodes-ArePicked draw num_nodes = elim (dec_lt 0 (length m.nodes)) [
    | yes some_node ↦
        pick_rounds-ArePicked draw num_nodes (3 * length m.nodes) [] some_node (omega arith) tt
    | no empty ↦
        let no_rounds : 3 * length m.nodes ≡ 0 = omega arith in
        rw (no_rounds, pick_random_nodes, pick_rounds) (omega arith, tt)
  ]
