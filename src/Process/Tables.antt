-- ===== src/Process/Tables.antt =====
-- state.go, pushpull.go, maintenance.go and memberlist.go: the table and its health score together.
use mlist.Prelude.{
  ℕ, ◌≡◌, sym, subst, List, [], ◌∷◌, Bool, true, false, some, arith, ltb, length, Bool-cases,
  Option-cases, inl, inr, ◌||◌,
}
use mlist.Prelude.Int.{ℤ, pos, negsuc, ◌-ℤ◌, ◌≤ℤ◌}
use mlist.Awareness.{punish, IsHealthy, new_awareness-IsHealthy, punish-IsHealthy}
use mlist.Suspicion.{Floats, TimeoutFn}
use mlist.Members.Types.{
  Bytes, StateType, state_alive, state_suspect, state_dead, state_left, NodeState, Alive, Suspect,
  Dead, Effect, Config, Memberlist, new_memberlist,
}
use mlist.Members.Handlers.{alive_node, dead_node, suspect_node, timeout_fn, next_live_no, emit}
use mlist.Members.Valid.{IsSound}
use mlist.Members.Sound.{
  counters-IsSound, alive_node-IsSound, dead_node-IsSound, suspect_node-IsSound, timeout_fn-IsSound,
}
use mlist.Members.Announce.{alive_locked, alive_locked-IsSound, alive_locked_keeps}
use mlist.Maintenance.Types.{reap}
use mlist.Maintenance.Reap.{reap-IsSound}
use mlist.Maintenance.Run.{new_memberlist-IsSound, leave-IsSound}
use mlist.Maintenance.Probe.{Arrival, wait_loop, no_result, healthier, probe_failed, probe_node}
use mlist.PushPull.Merge.{StateToMerge, alive_of, merge_as, merge_one, merge_state}
use mlist.Interface.Operations.{
  Outcome, tag_max_size, set_alive, next_lives, local_dead, leave, update_tags,
}
use mlist.Process.Health.{
  alive_node_keeps, dead_node-IsHealthy, suspect_node-IsHealthy, timeout_fn-IsHealthy,
}

-- A sound table with a health score in range.
pub record IsGood (c : Config) (m : Memberlist) : Type 0 where
  pub sound : IsSound c m
  pub healthy : IsHealthy m.awr

pub new_memberlist-IsGood : (c : Config) (max : ℤ) → pos 1 ≤ℤ max → IsGood c (new_memberlist max)
new_memberlist-IsGood c max h = record {
  sound = new_memberlist-IsSound c max;
  healthy = unfold new_memberlist in new_awareness-IsHealthy max h;
}

pub alive_node-IsGood :
    (c : Config) (a : Alive) (notify : Bool) (now rnd : ℕ) (m : Memberlist)
    → IsGood c m
    → IsGood c (alive_node c a notify now rnd m)
alive_node-IsGood c a notify now rnd m h = record {
  sound = alive_node-IsSound c m h.sound now a notify rnd;
  healthy = subst IsHealthy (sym (alive_node_keeps c a notify now rnd m)) h.healthy;
}

pub alive_locked-IsGood :
    (c : Config) (a : Alive) (notify : Bool) (now rnd : ℕ) (m : Memberlist)
    → IsGood c m
    → IsGood c (alive_locked a notify now rnd m)
alive_locked-IsGood c a notify now rnd m h = record {
  sound = alive_locked-IsSound c a notify now rnd m h.sound;
  healthy = subst IsHealthy (sym (alive_locked_keeps a notify now rnd m)) h.healthy;
}

pub emit-IsGood : (c : Config) (e : Effect) (m : Memberlist) → IsGood c m → IsGood c (emit m e)
emit-IsGood c e m h = record {
  sound = counters-IsSound c m m.lives m.awr (e ∷ m.effects) h.sound;
  healthy = h.healthy;
}

pub dead_node-IsGood :
    (c : Config) (d : Dead) (notify : Bool) (now : ℕ) (m : Memberlist) {m' : Memberlist}
    → IsGood c m
    → dead_node c d notify now m ≡ some m'
    → IsGood c m'
dead_node-IsGood c d notify now m {m' = m'} h e = record {
  sound = dead_node-IsSound c m h.sound now d notify e;
  healthy = dead_node-IsHealthy c d notify now m m' h.healthy e;
}

pub timeout_fn-IsGood :
    (c : Config) (f : TimeoutFn) (now : ℕ) (m : Memberlist) {m' : Memberlist}
    → IsGood c m
    → timeout_fn c f now m ≡ some m'
    → IsGood c m'
timeout_fn-IsGood c f now m {m' = m'} h e = record {
  sound = timeout_fn-IsSound c m h.sound now f e;
  healthy = timeout_fn-IsHealthy c f now m m' h.healthy e;
}

pub reap-IsGood :
    (c : Config) (timeout now : ℕ) (draw : ℕ → ℕ) (m : Memberlist)
    → IsGood c m
    → IsGood c (reap timeout now draw m)
reap-IsGood c timeout now draw m h = record {
  sound = reap-IsSound c m timeout now draw h.sound;
  healthy = unfold reap in h.healthy;
}

pub next_lives-IsGood : (c : Config) (m : Memberlist) → IsGood c m → IsGood c (next_lives m)
next_lives-IsGood c m h = record {
  sound = counters-IsSound c m (next_live_no m.lives) m.awr m.effects h.sound;
  healthy = h.healthy;
}

pub healthier-IsGood :
    (c : Config) (delta : ℤ) (m : Memberlist) → IsGood c m → IsGood c (healthier m delta)
healthier-IsGood c delta m h = record {
  sound = counters-IsSound c m m.lives (punish m.awr delta) m.effects h.sound;
  healthy = (punish-IsHealthy m.awr delta h.healthy).0;
}

pub set_alive-IsGood :
    (c : Config) (ip : Bytes) (port : ℕ) (tags : Bytes) (now rnd : ℕ) (m : Memberlist)
    → IsGood c m
    → IsGood c (set_alive c ip port tags now rnd m).0
unfolding set_alive
set_alive-IsGood c ip port tags now rnd m h =
    let a : Alive = record {
      lives = next_live_no m.lives;
      id = c.local_id;
      ip = ip;
      port = port;
      tags = tags;
    } in
    let next = next_lives m in
    elim (Bool-cases (ltb tag_max_size (length tags))) [
      | inl large ↦ subst (IsGood c) {x = m} (ground arith) h
      | inr fits ↦
          subst (IsGood c) {x = alive_node c a false now rnd next} (ground arith)
            (alive_node-IsGood c a false now rnd next (next_lives-IsGood c m h))
    ]

pub update_tags-IsGood :
    (c : Config) (tags : Bytes) (timeout : ℕ) (notified : Bool) (now rnd : ℕ) (m : Memberlist)
    → IsGood c m
    → IsGood c (update_tags c tags timeout notified now rnd m).0
unfolding update_tags
update_tags-IsGood c tags timeout notified now rnd m h =
    elim (Bool-cases (ltb tag_max_size (length tags))) [
      | inl large ↦ subst (IsGood c) {x = m} (ground arith) h
      | inr fits ↦ elim (Option-cases (m.node_map c.local_id)) [
        | inl absent ↦ subst (IsGood c) {x = m} (ground arith) h
        | inr (p, here) ↦
            let d = (m.store p).node in
            let a : Alive = record {
              lives = next_live_no m.lives;
              id = c.local_id;
              ip = d.ip;
              port = d.port;
              tags = tags;
            } in
            let next = next_lives m in
            subst (IsGood c) {x = alive_node c a true now rnd next} (ground arith)
              (alive_node-IsGood c a true now rnd next (next_lives-IsGood c m h))
      ]
    ]

pub off-IsGood : (c : Config) (m : Memberlist) → IsGood c m → IsGood c (record m { left = true })
off-IsGood c m h = record { sound = leave-IsSound c m h.sound; healthy = h.healthy }

pub leave-IsGood :
    (c : Config) (shutdown : Bool) (timeout : ℕ) (notified : Bool) (now : ℕ) (m : Memberlist)
    {m' : Memberlist} {out : Outcome}
    → IsGood c m
    → leave c shutdown timeout notified now m ≡ some (m', out)
    → IsGood c m'
unfolding leave
leave-IsGood c shutdown timeout notified now m h e =
    let off = record m { left = true } in
    let good = off-IsGood c m h in
    elim (Bool-cases (shutdown || m.left)) [
      | inl over ↦ subst (IsGood c) (ground arith) h
      | inr on ↦ elim (Option-cases (m.node_map c.local_id)) [
        | inl absent ↦ subst (IsGood c) {x = off} (ground arith) good
        | inr (p, here) ↦ elim (Option-cases (dead_node c (local_dead m p) true now off)) [
          | inl stuck ↦ absurd (ground arith)
          | inr (m1, done) ↦
              subst (IsGood c) {x = m1} (ground arith)
                (dead_node-IsGood c (local_dead m p) true now off good done)
        ]
      ]
    ]

module _ {F : Type 0} (fl : Floats F) (c : Config) where
  pub suspect_node-IsGood :
      (s : Suspect) (now : ℕ) (m : Memberlist) {m' : Memberlist}
      → IsGood c m
      → suspect_node fl c s now m ≡ some m'
      → IsGood c m'
  suspect_node-IsGood s now m {m' = m'} h e = record {
    sound = suspect_node-IsSound c m h.sound now fl s e;
    healthy = suspect_node-IsHealthy fl c s now m m' h.healthy e;
  }

  merge_as-IsGood :
      (t : StateType) (r : StateToMerge) (now rnd : ℕ) (m : Memberlist) {m' : Memberlist}
      → IsGood c m
      → merge_as fl c t r now rnd m ≡ some m'
      → IsGood c m'
  unfolding merge_as
  merge_as-IsGood state_alive r now rnd m h e =
      subst (IsGood c) (ground arith) (alive_node-IsGood c (alive_of r) false now rnd m h)
  merge_as-IsGood state_left r now rnd m h e = dead_node-IsGood c _ false now m h e
  merge_as-IsGood state_dead r now rnd m h e = suspect_node-IsGood _ now m h e
  merge_as-IsGood state_suspect r now rnd m h e = suspect_node-IsGood _ now m h e

  pub merge_state-IsGood :
      (rs : List StateToMerge) (now : ℕ) (rnd : ℕ → ℕ) (m m' : Memberlist)
      → IsGood c m
      → merge_state fl c rs now rnd m ≡ some m'
      → IsGood c m'
  unfolding merge_state merge_one
  merge_state-IsGood [] now rnd m m' h e = subst (IsGood c) (ground arith) h
  merge_state-IsGood (r ∷ rs) now rnd m m' h e =
      elim (Option-cases (merge_as fl c r.state r now (rnd (length rs)) m)) [
        | inl stuck ↦ absurd (ground arith)
        | inr (m1, done) ↦
            merge_state-IsGood rs now rnd m1 m'
              (merge_as-IsGood r.state r now (rnd (length rs)) m h done) (ground arith)
      ]

  pub probe_node-IsGood :
      (node : NodeState) (ok : Bool) (arrivals : List Arrival) (now : ℕ) (m : Memberlist)
      {m' : Memberlist}
      → IsGood c m
      → probe_node fl c node ok arrivals now m ≡ some m'
      → IsGood c m'
  unfolding probe_node probe_failed
  probe_node-IsGood node ok arrivals now m h e =
      let (success, res) = wait_loop arrivals no_result in
      let delta = pos res.num_node -ℤ pos res.n_nacks in
      let s : Suspect = record { lives = node.lives; id = node.node.id; from = c.local_id } in
      elim (Bool-cases (ok || success)) [
        | inl answered ↦
            subst (IsGood c) {x = healthier m (negsuc 0)} (ground arith)
              (healthier-IsGood c (negsuc 0) m h)
        | inr silent ↦
            suspect_node-IsGood s now (healthier m delta) (healthier-IsGood c delta m h)
              (ground arith)
      ]
