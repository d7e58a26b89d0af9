-- ===== src/Tests/Refinement.antt =====
-- The entry of `b` in the cluster of two.
use text.Mathlib.TextEquality.{eq_iff}
use mlist.Prelude.{ℕ, ◌≤◌, ◌≡◌, ◌≢◌, refl, List, [], ◌∷◌, false, none, some, arith, ℕ_discrete}
use mlist.Prelude.Maps.{str_dec}
use mlist.Prelude.Int.{pos}
use mlist.Members.Types.{NodeState, Alive, Memberlist, new_memberlist}
use mlist.Members.Handlers.{
  alive_node, add_node, renew_node, renew, timeout_check, first_suspect, dead_node, bury,
  ip_allowed, rand_int_n,
}
use mlist.Maintenance.Run.{Input, run, step, dies}
use mlist.Refinement.Entry.{view, replay}
use mlist.Refinement.Runs.{run_refines}
use mlist.Refinement.Precedence.{rank, run-rank}
use mlist.Refinement.Races.{timeout_fn-race}
use mlist.Tests.Members.{no_floats, config, inputs, three_steps, runs, sound, dead_b, alive_b}

b_is_remote : "b" ≢ config.local_id
b_is_remote e = absurd (ground (arith, eq_iff "b" "a", e))

run_refines_example : view three_steps "b" ≡ replay config "b" inputs none
run_refines_example = run_refines no_floats config "b" b_is_remote (pos 8) inputs three_steps runs

abbrev dying : List (ℕ × Input)
dying = (60, dies dead_b false) ∷ []

dying_runs : run no_floats config dying three_steps ≡ some (bury dead_b false 60 1 three_steps)
unfolding run step dead_node alive_node add_node first_suspect new_memberlist str_dec ℕ_discrete
    ip_allowed
dying_runs = refl

run-rank_example :
    (n' : NodeState) × (view (bury dead_b false 60 1 three_steps) "b" ≡ some n')
    × (rank (three_steps.store 1) ≤ rank n')
unfolding alive_node add_node first_suspect new_memberlist str_dec ℕ_discrete ip_allowed rand_int_n
run-rank_example =
    run-rank no_floats config "b" dying three_steps (bury dead_b false 60 1 three_steps)
      (three_steps.store 1) b_is_remote sound tt dying_runs refl

abbrev back_b : Alive
back_b = record alive_b { lives = 2 }

abbrev refuted_b : Memberlist
refuted_b = alive_node config back_b false 55 0 three_steps

dying_late : run no_floats config dying refuted_b ≡ some refuted_b
unfolding run step dead_node alive_node renew_node renew add_node first_suspect new_memberlist
    str_dec ℕ_discrete ip_allowed
dying_late = refl

timeout_fn-race_example :
    dead_node config (record { lives = 1; id = "b"; left = false }) false 70 refuted_b
    ≡ some refuted_b
unfolding run timeout_check alive_node add_node first_suspect new_memberlist str_dec ℕ_discrete
    ip_allowed rand_int_n
timeout_fn-race_example =
    timeout_fn-race no_floats config (record { id = "b"; lives = 1 })
      (record { lives = 1; id = "b"; left = false }) back_b [] dying three_steps three_steps
      refuted_b 55 0 70 false b_is_remote sound refl tt refl refl (omega arith) refl tt dying_late
