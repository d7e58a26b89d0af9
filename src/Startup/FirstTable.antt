-- ===== src/Startup/FirstTable.antt =====
-- memberlist.go: the table after the first `setAlive`.
use mlist.Prelude.{
  ℕ, ◌≡◌, ◌≤◌, [], ◌∷◌, true, false, none, some, arith, length, Bool-cases, inl, inr, if◌then◌else◌,
}
use mlist.Prelude.Slices.{swap}
use mlist.Prelude.Int.{pos}
use mlist.Members.Types.{Bytes, NodeState, state_alive, Alive, Config, Memberlist, new_memberlist}
use mlist.Members.Handlers.{alive_node, add_node, ip_allowed, next_live_no, rand_int_n}
use mlist.Members.Valid.{IsSound}
use mlist.Members.Sound.{counters-IsSound, alive_node-IsSound}
use mlist.Maintenance.Run.{new_memberlist-IsSound}
use mlist.Interface.Operations.{Outcome, tag_max_size, set_alive}

-- The first table.
abbrev pub only_node : Config → Bytes → ℕ → Bytes → ℕ → NodeState
only_node c ip port tags now = record {
  node = record { id = c.local_id; ip = ip; port = port; tags = tags };
  lives = 1;
  state = state_alive;
  state_change = now;
}

-- It holds this node alone, alive in its first life, or nobody if its own address is not allowed.
abbrev pub IsFirst : Config → Bytes → ℕ → Bytes → ℕ → Memberlist → Type 0
IsFirst c ip port tags now m =
    (m.left ≡ false)
    × (m.lives ≡ 1)
    × (m.nodes ≡ (if ip_allowed c ip then 0 ∷ [] else []))
    × (m.node_map c.local_id ≡ (if ip_allowed c ip then some 0 else none))
    × ((ip_allowed c ip ≡ true) → m.store 0 ≡ only_node c ip port tags now)

abbrev pub own_alive : Config → Bytes → ℕ → Bytes → Alive
own_alive c ip port tags = record { lives = 1; id = c.local_id; ip = ip; port = port; tags = tags }

pub set_alive-eq :
    (c : Config) (ip : Bytes) (port : ℕ) (tags : Bytes) (now rnd max : ℕ)
    → length tags ≤ tag_max_size
    → set_alive c ip port tags now rnd (new_memberlist (pos max)) ≡ (
      alive_node c
          (own_alive c ip port tags)
          false
          now
          rnd
          (record (new_memberlist (pos max)) { lives = 1 }),
      Outcome.done,
    )
unfolding set_alive new_memberlist next_live_no
set_alive-eq c ip port tags now rnd max small = ground arith

pub alive_node-IsFirst :
    (c : Config) (ip : Bytes) (port : ℕ) (tags : Bytes) (now rnd max : ℕ)
    → IsFirst c ip port tags now (
        alive_node c
          (own_alive c ip port tags)
          false
          now
          rnd
          (record (new_memberlist (pos max)) { lives = 1 }))
unfolding alive_node add_node new_memberlist rand_int_n swap
alive_node-IsFirst c ip port tags now rnd max = elim (Bool-cases (ip_allowed c ip)) [
  | inl ok ↦ (ground arith, ground arith, ground arith, ground arith, λ h. ground arith)
  | inr blocked ↦
      (ground arith, ground arith, ground arith, ground arith, λ h. absurd (ground arith))
]

pub own_alive-IsSound :
    (c : Config) (ip : Bytes) (port : ℕ) (tags : Bytes) (now rnd max : ℕ)
    → IsSound c (
        alive_node c
          (own_alive c ip port tags)
          false
          now
          rnd
          (record (new_memberlist (pos max)) { lives = 1 }))
own_alive-IsSound c ip port tags now rnd max =
    alive_node-IsSound c (record (new_memberlist (pos max)) { lives = 1 })
      (counters-IsSound c (new_memberlist (pos max)) 1 (new_memberlist (pos max)).awr
        (new_memberlist (pos max)).effects (new_memberlist-IsSound c (pos max)))
      now (own_alive c ip port tags) false rnd
