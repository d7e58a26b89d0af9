-- ===== src/PushPull/MergeLaws.antt =====
-- pushpull.go: merging a remote table.
use mlist.Prelude.{
  ℕ, ◌≤◌, ◌<◌, ◌≡◌, refl, subst, List, [], ◌∷◌, ◌++◌, true, false, some, arith, length,
  Option-cases, inl, inr,
}
use mlist.Prelude.Maps.{same}
use mlist.Suspicion.{Floats}
use mlist.Members.Types.{
  StateType, state_alive, state_suspect, state_dead, state_left, Config, Memberlist,
}
use mlist.Members.Handlers.{alive_node, add_node, renew_node, renew, ip_allowed, uint32_max}
use mlist.Members.Valid.{IsSound}
use mlist.Members.Sound.{alive_node-IsSound, suspect_node-IsSound, dead_node-IsSound}
use mlist.Members.Refute.{suspect_node-terminates, dead_node-terminates}
use mlist.Members.Grows.{
  Grows, Grows-trans, same-Grows, alive_node-Grows, suspect_node-Grows, dead_node-Grows,
}
use mlist.PushPull.Merge.{StateToMerge, alive_of, merge_as, merge_one, merge_state}

-- No life number is the largest `uint32`.
abbrev pub AllOrdinary : List StateToMerge → Type 0
AllOrdinary [] = Unit
AllOrdinary (r ∷ rs) = (r.lives < uint32_max) × AllOrdinary rs

-- The node is known, in this life or a later one.
abbrev pub IsCovered : Memberlist → StateToMerge → Type 0
IsCovered m r = (p : ℕ) × (m.node_map r.id ≡ some p) × (r.lives ≤ (m.store p).lives)

-- The remote node is alive, at an allowed address, and not this node.
abbrev pub IsWelcome : Config → StateToMerge → Type 0
IsWelcome c r =
    (r.state ≡ state_alive) × (ip_allowed c r.ip ≡ true) × (same r.id c.local_id ≡ false)

alive_node-covers :
    (c : Config) (r : StateToMerge) (now rnd : ℕ) (m : Memberlist)
    → IsWelcome c r
    → IsCovered (alive_node c (alive_of r) false now rnd m) r
unfolding alive_node add_node renew_node renew
alive_node-covers c r now rnd m (s, ok, far) = elim (Option-cases (m.node_map r.id)) [
  | inl absent ↦ (m.next, ground arith, ground arith)
  | inr (p, known) ↦ (p, ground arith, ground arith)
]

module _ {F : Type 0} (fl : Floats F) (c : Config) where
  merge_as-IsSound :
      (t : StateType) (r : StateToMerge) (now rnd : ℕ) (m : Memberlist) {m' : Memberlist}
      → IsSound c m
      → merge_as fl c t r now rnd m ≡ some m'
      → IsSound c m'
  unfolding merge_as
  merge_as-IsSound state_alive r now rnd m h e =
      subst (IsSound c) (ground arith) (alive_node-IsSound c m h now (alive_of r) false rnd)
  merge_as-IsSound state_left r now rnd m h e = dead_node-IsSound c m h now _ false e
  merge_as-IsSound state_dead r now rnd m h e = suspect_node-IsSound c m h now fl _ e
  merge_as-IsSound state_suspect r now rnd m h e = suspect_node-IsSound c m h now fl _ e

  merge_as-Grows :
      (t : StateType) (r : StateToMerge) (now rnd : ℕ) (m : Memberlist) {m' : Memberlist}
      → merge_as fl c t r now rnd m ≡ some m'
      → Grows m m'
  unfolding merge_as
  merge_as-Grows state_alive r now rnd m e =
      subst (Grows m) (ground arith) (alive_node-Grows c (alive_of r) false now rnd m)
  merge_as-Grows state_left r now rnd m e = dead_node-Grows c _ false now m e
  merge_as-Grows state_dead r now rnd m e = suspect_node-Grows fl c _ now m e
  merge_as-Grows state_suspect r now rnd m e = suspect_node-Grows fl c _ now m e

  merge_as_total :
      (t : StateType) (r : StateToMerge) (now rnd : ℕ) (m : Memberlist)
      → r.lives < uint32_max
      → (m' : Memberlist) × (merge_as fl c t r now rnd m ≡ some m')
  unfolding merge_as
  merge_as_total state_alive r now rnd m h = (_, refl)
  merge_as_total state_left r now rnd m h = dead_node-terminates c _ false now m h
  merge_as_total state_dead r now rnd m h = suspect_node-terminates fl c _ now m h
  merge_as_total state_suspect r now rnd m h = suspect_node-terminates fl c _ now m h

  -- Merging a table in which no life number is the largest `uint32` returns, keeps the local table
  -- sound, keeps every node of it, and lowers no life number.
  pub merge_state_lem :
      (rs : List StateToMerge) (now : ℕ) (rnd : ℕ → ℕ) (m : Memberlist)
      → IsSound c m
      → AllOrdinary rs
      → (m' : Memberlist) × (merge_state fl c rs now rnd m ≡ some m') × IsSound c m' × Grows m m'
  unfolding merge_state merge_one
  merge_state_lem [] now rnd m h o = (m, refl, h, same-Grows m)
  merge_state_lem (r ∷ rs) now rnd m h o =
      let i = rnd (length rs) in
      let (m1, done) = merge_as_total r.state r now i m o.0 in
      let sound = merge_as-IsSound r.state r now i m h done in
      let (m', rest, sound', grows) = merge_state_lem rs now rnd m1 sound o.1 in
      (
        m',
        rw (done, merge_state, merge_one) rest,
        sound',
        Grows-trans (merge_as-Grows r.state r now i m done) grows,
      )

  -- Each welcome node of the remote table is known.
  abbrev AllCovered : Memberlist → List StateToMerge → Type 0
  AllCovered m' [] = Unit
  AllCovered m' (r ∷ rs) = (IsWelcome c r → IsCovered m' r) × AllCovered m' rs

  IsCovered-Grows :
      (m m' : Memberlist) (r : StateToMerge)
      → IsSound c m
      → Grows m m'
      → IsCovered m r
      → IsCovered m' r
  IsCovered-Grows m m' r h g (p, e, le) =
      let le' = g.lives p (h.valid.mapped_old r.id p e) in (p, g.kept r.id p e, omega arith)

  merge_one-covers :
      (r : StateToMerge) (now i : ℕ) (m m' : Memberlist)
      → merge_one fl c r now i m ≡ some m'
      → IsWelcome c r
      → IsCovered m' r
  unfolding merge_one merge_as
  merge_one-covers r now i m m' e w =
      let result : alive_node c (alive_of r) false now i m ≡ m' = ground (arith, w.0) in
      subst (λ x. IsCovered x r) result (alive_node-covers c r now i m w)

  merge_state-AllCovered :
      (rs : List StateToMerge) (now : ℕ) (rnd : ℕ → ℕ) (m m' : Memberlist)
      → IsSound c m
      → AllOrdinary rs
      → merge_state fl c rs now rnd m ≡ some m'
      → AllCovered m' rs
  unfolding merge_state
  merge_state-AllCovered [] now rnd m m' h o e = tt
  merge_state-AllCovered (r ∷ rs) now rnd m m' h o e =
      let i = rnd (length rs) in
      let (m1, done) = merge_as_total r.state r now i m o.0 in
      let one : merge_one fl c r now i m ≡ some m1 = unfold merge_one in done in
      let sound = merge_as-IsSound r.state r now i m h done in
      let rest : merge_state fl c rs now rnd m1 ≡ some m' = ground arith in
      let (last, run, _, grows) = merge_state_lem rs now rnd m1 sound o.1 in
      (
        λ w.
            IsCovered-Grows m1 m' r sound (subst (Grows m1) (ground arith) grows)
              (merge_one-covers r now i m m1 one w),
        merge_state-AllCovered rs now rnd m1 m' sound o.1 rest,
      )

  IsCovered-at :
      (before after : List StateToMerge) (r : StateToMerge) (m' : Memberlist)
      → AllCovered m' (before ++ (r ∷ after))
      → IsWelcome c r
      → IsCovered m' r
  IsCovered-at [] after r m' all w = all.0 w
  IsCovered-at (b ∷ before) after r m' all w = IsCovered-at before after r m' all.1 w

  -- After a merge of a table in which no life number is the largest `uint32`, each node `r` that is alive
  -- in the remote table, has an allowed address and is not this node is in the local table, in that life
  -- or a later one.
  pub merge_state-covers :
      (before after : List StateToMerge) (r : StateToMerge) (now : ℕ) (rnd : ℕ → ℕ)
      (m m' : Memberlist)
      → IsSound c m
      → AllOrdinary (before ++ (r ∷ after))
      → merge_state fl c (before ++ (r ∷ after)) now rnd m ≡ some m'
      → IsWelcome c r
      → IsCovered m' r
  merge_state-covers before after r now rnd m m' h o e w =
      IsCovered-at before after r m'
        (merge_state-AllCovered (before ++ (r ∷ after)) now rnd m m' h o e) w
