-- ===== src/Tests/Members.antt =====
-- A cluster of two: this node `a`, and `b`, which is suspected.
use mlist.Prelude.{ℕ, ◌≡◌, refl, List, [], ◌∷◌, false, none, some, arith, ℕ_discrete}
use mlist.Prelude.Maps.{str_dec}
use mlist.Prelude.Int.{pos}
use mlist.Suspicion.{Floats, Suspicion}
use mlist.Members.Types.{Alive, Suspect, Dead, Config, Memberlist, new_memberlist, state_dead}
use mlist.Members.Handlers.{
  alive_node, add_node, suspect_node, first_suspect, start_suspicion, timeout_fn, uint32_max,
  ip_allowed, rand_int_n,
}
use mlist.Members.Valid.{IsSound}
use mlist.Members.Refute.{suspect_node-diverges}
use mlist.Members.Timeouts.{timeout_fn-marks_dead}
use mlist.Maintenance.Run.{Input, step, run, lives, is_suspected, run-IsSound, run-terminates}

-- Floating-point numbers cut off to integers.
abbrev pub no_floats : Floats ℕ
no_floats = record {
  log = λ n. n;
  quotient = λ a b. a;
  product = λ a b. a;
  difference = λ a b. a;
  seconds = λ n. n;
  floor_ms = λ n. pos n;
}

abbrev pub config : Config
config = record {
  local_id = "a";
  cidrs_allowed = [];
  suspicion_mult = 4;
  suspicion_max_timeout_mult = 6;
  probe_interval = 1100;
  node_scale = λ n. 1000;
}

abbrev pub alive_a : Alive
alive_a = record { lives = 1; id = "a"; ip = 127 ∷ []; port = 7946; tags = [] }

abbrev pub alive_b : Alive
alive_b = record { lives = 1; id = "b"; ip = 128 ∷ []; port = 7946; tags = [] }

abbrev suspect_b : Suspect
suspect_b = record { lives = 1; id = "b"; from = "a" }

abbrev pub inputs : List (ℕ × Input)
inputs =
    (10, lives alive_a false 0) ∷ (20, lives alive_b false 5) ∷ (30, is_suspected suspect_b) ∷ []

abbrev pub two : Memberlist
two =
    alive_node config alive_b false 20 5
      (alive_node config alive_a false 10 0 (new_memberlist (pos 8)))

abbrev pub three_steps : Memberlist
three_steps = first_suspect config suspect_b 30 1 two

pub runs : run no_floats config inputs (new_memberlist (pos 8)) ≡ some three_steps
unfolding run step alive_node add_node suspect_node first_suspect new_memberlist str_dec ℕ_discrete
    ip_allowed
runs = refl

pub sound : IsSound config three_steps
sound = run-IsSound no_floats config (pos 8) inputs runs

run-terminates_example :
    (m : Memberlist) × (run no_floats config inputs (new_memberlist (pos 8)) ≡ some m)
run-terminates_example =
    run-terminates no_floats config (pos 8) inputs (tt, (tt, (omega arith, tt)))

abbrev poison : Suspect
poison = record { lives = uint32_max; id = "a"; from = "b" }

suspect_node-diverges_example : suspect_node no_floats config poison 40 two ≡ none
unfolding alive_node add_node new_memberlist str_dec ℕ_discrete ip_allowed rand_int_n
suspect_node-diverges_example =
    suspect_node-diverges no_floats config poison 40 two 0 refl refl (omega arith) refl refl refl

abbrev watch : Suspicion
watch = start_suspicion config suspect_b 30 2

watched : three_steps.suspicions "b" ≡ some watch
unfolding first_suspect alive_node add_node new_memberlist str_dec ℕ_discrete ip_allowed rand_int_n
watched = refl

timeout_fn-marks_dead_example :
    (m' : Memberlist) × (p : ℕ) × (timeout_fn config watch.timeout_fn 9000 three_steps ≡ some m')
    × (m'.node_map "b" ≡ some p)
    × ((m'.store p).state ≡ state_dead)
    × ((m'.store p).lives ≡ (three_steps.store p).lives)
    × (m'.suspicions "b" ≡ none)
timeout_fn-marks_dead_example =
    timeout_fn-marks_dead config three_steps "b" watch 9000 sound watched

abbrev pub dead_b : Dead
dead_b = record { lives = 1; id = "b"; left = false }
