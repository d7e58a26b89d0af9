-- ===== src/Tests/Interface.antt =====
-- This node leaves, and changes its tags.
use mlist.Prelude.{
  not, ◌&&◌, ◌==◌, if◌then◌else◌, ◌≤◌, ◌<◌, ◌≡◌, ◌⊎◌, refl, [], ◌∷◌, true, false, some, arith,
  ℕ_discrete,
}
use mlist.Prelude.Maps.{str_dec}
use mlist.Prelude.Int.{pos}
use mlist.Members.Types.{Memberlist, new_memberlist, state_left, is_alive}
use mlist.Members.Handlers.{alive_node, add_node, ip_allowed, next_live_no, rand_int_n}
use mlist.Members.Valid.{IsSound}
use mlist.Maintenance.Run.{run, step, lives, run-IsSound}
use mlist.Interface.Operations.{
  has_active_peers, timed_out_waiting, done, wait, next_lives, leave, update_tags,
}
use mlist.Interface.LeaveLaws.{leave-marks_left, update_tags_lem}
use mlist.Tests.Members.{no_floats, config, alive_a, alive_b, two}

two_runs :
    run no_floats config
      ((10, lives alive_a false 0) ∷ (20, lives alive_b false 5) ∷ [])
      (new_memberlist (pos 8))
    ≡ some two
unfolding run step alive_node add_node new_memberlist str_dec ℕ_discrete ip_allowed
two_runs = refl

two-IsSound : IsSound config two
two-IsSound =
    run-IsSound no_floats config (pos 8)
      ((10, lives alive_a false 0) ∷ (20, lives alive_b false 5) ∷ []) two_runs

leave-marks_left_example :
    (m' : Memberlist) × (leave config false 100 true 30 two ≡ some (m', wait config 100 true m'))
    × IsSound config m'
    × (m'.left ≡ true)
    × (m'.node_map "a" ≡ some 0)
    × ((m'.store 0).state ≡ state_left)
    × (alive_node config (record alive_a { lives = 9 }) true 50 0 m' ≡ m')
unfolding alive_node add_node new_memberlist str_dec ℕ_discrete ip_allowed rand_int_n
leave-marks_left_example =
    leave-marks_left config two 0 100 30 true (record alive_a { lives = 9 }) true 50 0 two-IsSound
      refl refl refl

update_tags_lem_example :
    let r = update_tags config (7 ∷ []) 100 true 30 0 two in
    (r.0.lives ≡ next_live_no two.lives)
    × ((((two.store 0).lives < next_live_no two.lives)
          × ((r.0.store 0).node.tags ≡ 7 ∷ [])
          × ((r.0.store 0).lives ≡ next_live_no two.lives)
          × (is_alive (r.0.store 0).state ≡ true)
          × (r.1 ≡ wait config 100 true r.0))
        ⊎ ((next_live_no two.lives ≤ (two.store 0).lives)
            × (r.0 ≡ next_lives two)
            × (r.1 ≡ (
                if has_active_peers config two && not (100 == 0)
                then timed_out_waiting
                else done))))
unfolding alive_node add_node new_memberlist str_dec ℕ_discrete ip_allowed rand_int_n
update_tags_lem_example =
    update_tags_lem config two 0 100 30 0 true (7 ∷ []) refl refl refl (omega arith)
