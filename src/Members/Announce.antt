-- ===== src/Members/Announce.antt =====
-- state.go: `aliveNode` in its two parts. It reads `m.left` and the CIDRs before it takes `nodeL`, and its
-- deferred function broadcasts and notifies after it has released it.
use mlist.Prelude.{
  ℕ, ◌≡◌, refl, List, [], ◌∷◌, Bool, true, false, not, ◌&&◌, none, some, arith, leb, if◌then◌else◌,
  Option-cases, Bool-cases, inl, inr,
}
use mlist.Prelude.Maps.{same}
use mlist.Members.Types.{
  dead_or_left, Alive, alive_msg, Effect, broadcast, notify_join, notify_update, Config, Memberlist,
}
use mlist.Members.Handlers.{
  node_of, emit, bytes_equal, renew, add_node, renew_node, alive_node, ip_allowed,
}
use mlist.Members.Valid.{IsSound}
use mlist.Members.AddNode.{add_node-IsValid}
use mlist.Members.Changes.{renew_node-IsValid}
use mlist.Members.Sound.{counters-IsSound, add_node-IsSelfSafe, renew_node-IsSelfSafe}

abbrev when : Bool → Effect → List Effect → List Effect
when b e es = if b then e ∷ es else es

-- What the deferred function will do, in its order: `rebroadcast`, `notifyJoin` and `notifyUpdate`.
unfoldable pub deferred : Alive → Bool → ℕ → Memberlist → List Effect
deferred a notify now m = elim (m.node_map a.id) [
  | none ↦ broadcast a.id (alive_msg a) notify ∷ notify_join (node_of a now).node ∷ []
  | some p ↦
      let n = m.store p in
      let new_node = (renew a now n).node in
      if leb a.lives n.lives
      then []
      else broadcast new_node.id (alive_msg a) notify
        ∷ when (dead_or_left n) (notify_join new_node)
            (when (not (bytes_equal n.node.tags a.tags)) (notify_update new_node) [])
]

-- From `nodeL.Lock()` to its release.
unfoldable pub alive_locked : Alive → Bool → ℕ → ℕ → Memberlist → Memberlist
alive_locked a notify now rnd m = elim (m.node_map a.id) [
  | none ↦ record (add_node a notify now rnd m) { effects = m.effects }
  | some p ↦
      if leb a.lives (m.store p).lives
      then m
      else record (renew_node a notify now p m) { effects = m.effects }
]

unfoldable pub announce : List Effect → Memberlist → Memberlist
announce [] m = m
announce (e ∷ es) m = announce es (emit m e)

-- With nothing between them, the two parts are `aliveNode`.
announce-alive_locked :
    (c : Config) (a : Alive) (notify : Bool) (now rnd : ℕ) (m : Memberlist)
    → (m.left && same a.id c.local_id) ≡ false
    → ip_allowed c a.ip ≡ true
    → alive_node c a notify now rnd m
      ≡ announce (deferred a notify now m) (alive_locked a notify now rnd m)
unfolding alive_node alive_locked deferred announce add_node renew_node
announce-alive_locked c a notify now rnd m on allowed = elim (Option-cases (m.node_map a.id)) [
  | inl absent ↦ ground (arith, on, allowed)
  | inr (p, here) ↦ elim (Bool-cases (leb a.lives (m.store p).lives)) [
    | inl old ↦ ground (arith, on, allowed)
    | inr new ↦ ground (arith, on, allowed)
  ]
]

-- Whatever `m.left` was when it was read, what happens under the lock keeps the table sound.
pub alive_locked-IsSound :
    (c : Config) (a : Alive) (notify : Bool) (now rnd : ℕ) (m : Memberlist)
    → IsSound c m
    → IsSound c (alive_locked a notify now rnd m)
unfolding alive_locked
alive_locked-IsSound c a notify now rnd m h = elim (Option-cases (m.node_map a.id)) [
  | inl absent ↦
      let m' = add_node a notify now rnd m in
      rw (absent, alive_locked)
        (counters-IsSound c m' m'.lives m'.awr m.effects (record {
          valid = add_node-IsValid m h.valid a notify now rnd absent;
          self = add_node-IsSelfSafe c m h now a notify rnd;
        }))
  | inr (p, here) ↦
      rw (here, alive_locked)
        (elim (Bool-cases (leb a.lives (m.store p).lives)) [
          | inl old ↦ rw old h
          | inr newer ↦
              let m' = renew_node a notify now p m in
              rw newer (
                counters-IsSound c m' m'.lives m'.awr m.effects (record {
                  valid = renew_node-IsValid m h.valid now a.id p here a notify refl;
                  self = renew_node-IsSelfSafe c m h now a.id p here a notify;
                }))
        ])
]

pub alive_locked_keeps :
    (a : Alive) (notify : Bool) (now rnd : ℕ) (m : Memberlist)
    → (alive_locked a notify now rnd m).awr ≡ m.awr
unfolding alive_locked add_node renew_node
alive_locked_keeps a notify now rnd m = ground arith
