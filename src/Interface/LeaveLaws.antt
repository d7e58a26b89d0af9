-- ===== src/Interface/LeaveLaws.antt =====
-- memberlist.go: what `Leave` and `UpdateTags` do to the table.
use mlist.Prelude.{
  ℕ, ◌≤◌, ◌<◌, ◌≡◌, ◌⊎◌, inl, inr, refl, List, [], ◌∷◌, ◌∙◌, Bool, true, false, some, arith, leb,
  ◌==◌, not, ◌&&◌, if◌then◌else◌, length, Bool-cases,
}
use mlist.Members.Types.{Bytes, state_left, is_alive, Alive, Config, Memberlist}
use mlist.Members.Handlers.{
  alive_node, dead_node, dead_known, bury, renew_node, renew, ip_allowed, next_live_no,
}
use mlist.Members.Valid.{IsSound}
use mlist.Members.Sound.{dead_node-IsSound}
use mlist.Maintenance.Run.{leave-IsSound}
use mlist.Interface.Operations.{
  tag_max_size, next_lives, local_dead, wait, leave, update_tags, has_active_peers, has_active,
  has_queued, done, timed_out_waiting,
}

module _ (c : Config) where
  leave_buries :
      (m : Memberlist) (p now : ℕ)
      → IsSound c m
      → m.left ≡ false
      → m.node_map c.local_id ≡ some p
      → dead_node c (local_dead m p) true now (record m { left = true })
        ≡ some (bury (local_dead m p) true now p (record m { left = true }))
  unfolding dead_node dead_known
  leave_buries m p now h active known =
      ground (arith, h.self.alive p known active, h.valid.mapped_id c.local_id p known)

  -- A node in its table that has not left or shut down leaves: the table stays sound, its own entry stays
  -- there, as one that left, and no alive message about it, in whatever life, changes the table again.
  pub leave-marks_left :
      (m : Memberlist) (p timeout now : ℕ) (notified : Bool) (a : Alive) (notify : Bool)
      (later rnd : ℕ)
      → IsSound c m
      → m.left ≡ false
      → m.node_map c.local_id ≡ some p
      → a.id ≡ c.local_id
      → (m' : Memberlist) × (leave c false timeout notified now m
          ≡ some (m', wait c timeout notified m'))
        × IsSound c m'
        × (m'.left ≡ true)
        × (m'.node_map c.local_id ≡ some p)
        × ((m'.store p).state ≡ state_left)
        × (alive_node c a notify later rnd m' ≡ m')
  unfolding leave bury alive_node
  leave-marks_left m p timeout now notified a notify later rnd h active known self =
      let buried = leave_buries m p now h active known in
      let m' = bury (local_dead m p) true now p (record m { left = true }) in
      (
        m',
        ground (arith, buried),
        dead_node-IsSound c (record m { left = true }) (leave-IsSound c m h) now (local_dead m p)
            true buried,
        refl,
        known,
        ground arith,
        ground arith,
      )

  has_active-next_lives :
      (m : Memberlist) (ps : List ℕ) → has_active c (next_lives m) ps ≡ has_active c m ps
  unfolding has_active
  has_active-next_lives m [] = refl
  has_active-next_lives m (p ∷ ps) = ground (arith, has_active-next_lives m ps)

  -- With nothing queued the wait ends with the timeout.
  no_wait :
      (m : Memberlist) (timeout : ℕ) (notified : Bool)
      → wait c timeout (notified && has_queued m (next_lives m)) (next_lives m)
        ≡ (if has_active_peers c m && not (timeout == 0) then timed_out_waiting else done)
  unfolding wait has_active_peers
  no_wait m timeout notified = ground (arith, has_active-next_lives m m.nodes)

  -- `UpdateTags` with at most 512 bytes, on a node in its table that has not left and whose own address is
  -- allowed: if the next life number is above that of its entry, the entry takes the tags and that
  -- life number, and the call waits for the broadcast; if it does nothing but count up the life
  -- number, and with active peers and a timeout it always returns the timeout error, since there is no
  -- broadcast to wait for; with no peers or no timeout it returns no error.
  pub update_tags_lem :
      (m : Memberlist) (p timeout now rnd : ℕ) (notified : Bool) (tags : Bytes)
      → m.left ≡ false
      → m.node_map c.local_id ≡ some p
      → ip_allowed c (m.store p).node.ip ≡ true
      → length tags ≤ tag_max_size
      → let r = update_tags c tags timeout notified now rnd m in
        (r.0.lives ≡ next_live_no m.lives)
        × ((((m.store p).lives < next_live_no m.lives)
              × ((r.0.store p).node.tags ≡ tags)
              × ((r.0.store p).lives ≡ next_live_no m.lives)
              × (is_alive (r.0.store p).state ≡ true)
              × (r.1 ≡ wait c timeout notified r.0))
            ⊎ ((next_live_no m.lives ≤ (m.store p).lives)
                × (r.0 ≡ next_lives m)
                × (r.1 ≡ (
                    if has_active_peers c m && not (timeout == 0)
                    then timed_out_waiting
                    else done))))
  unfolding update_tags alive_node renew_node renew
  update_tags_lem m p timeout now rnd notified tags active known ok small =
      elim (Bool-cases (leb (next_live_no m.lives) (m.store p).lives)) [
        | inl old ↦ (
          ground arith,
          inr (ground arith, ground arith, (ground arith) ∙ no_wait m timeout notified),
        )
        | inr new ↦ (
          ground arith,
          inl (ground arith, ground arith, ground arith, ground arith, ground arith),
        )
      ]
