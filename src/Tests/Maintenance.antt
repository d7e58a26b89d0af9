-- ===== src/Tests/Maintenance.antt =====
-- A cluster of two in which `b` has been dead for a while, and the merge of a remote table.
use mlist.Prelude.{◌≤◌, ◌≡◌, refl, [], ◌∷◌, ◌++◌, false, none, some, ℕ_discrete, length, count}
use mlist.Prelude.Maps.{str_dec}
use mlist.Prelude.Int.{pos}
use mlist.Members.Types.{Memberlist, new_memberlist, state_alive, state_dead}
use mlist.Members.Handlers.{
  alive_node, add_node, suspect_node, first_suspect, dead_node, bury, ip_allowed,
}
use mlist.Members.Valid.{IsSound}
use mlist.Maintenance.Types.{reap, is_expired}
use mlist.Maintenance.Run.{run, step, dies, run-IsSound}
use mlist.Maintenance.Reap.{reap-removes_expired}
use mlist.Maintenance.Choose.{can_probe, pick_random_nodes}
use mlist.Maintenance.ChooseLaws.{ArePicked, pick_random_nodes-ArePicked}
use mlist.PushPull.Merge.{StateToMerge}
use mlist.Tests.Members.{no_floats, config, inputs, dead_b, two, three_steps}

abbrev gone : Memberlist
gone = bury dead_b false 60 1 three_steps

gone_runs :
    run no_floats config (inputs ++ ((60, dies dead_b false) ∷ [])) (new_memberlist (pos 8))
    ≡ some gone
unfolding run step alive_node add_node suspect_node first_suspect dead_node new_memberlist str_dec
    ℕ_discrete ip_allowed
gone_runs = refl

gone-IsSound : IsSound config gone
gone-IsSound =
    run-IsSound no_floats config (pos 8) (inputs ++ ((60, dies dead_b false) ∷ [])) gone_runs

reap-removes_expired_example :
    ((reap 40 200 (λ n. n) gone).node_map "b" ≡ none)
    × (count ℕ_discrete 1 (reap 40 200 (λ n. n) gone).nodes ≡ 0)
    × ((reap 40 200 (λ n. n) gone).num_nodes ≡ length (reap 40 200 (λ n. n) gone).nodes)
    × ((reap 40 200 (λ n. n) gone).store ≡ gone.store)
unfolding bury first_suspect alive_node add_node new_memberlist str_dec ℕ_discrete ip_allowed
    is_expired
reap-removes_expired_example = reap-removes_expired gone gone-IsSound.valid 40 200 (λ n. n) "b" 1

pick_random_nodes-ArePicked_example :
    (length (pick_random_nodes two (can_probe config two) (λ n. n) 1) ≤ 1)
    × ArePicked two (can_probe config two) (pick_random_nodes two (can_probe config two) (λ n. n) 1)
pick_random_nodes-ArePicked_example =
    pick_random_nodes-ArePicked two (can_probe config two) (λ n. n) 1

abbrev remote_b : StateToMerge
remote_b = record { lives = 1; id = "b"; ip = 128 ∷ []; port = 7946; tags = []; state = state_dead }

abbrev remote_c : StateToMerge
remote_c = record {
  lives = 3;
  id = "c";
  ip = 129 ∷ [];
  port = 7946;
  tags = [];
  state = state_alive;
}
