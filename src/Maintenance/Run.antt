-- ===== src/Maintenance/Run.antt =====
-- Sequences of the operations that change the membership table, in any order and at any times,
-- one call after another.
use mlist.Prelude.{
  ℕ, ◌<◌, ◌≡◌, refl, subst, List, [], ◌∷◌, Bool, true, Option, none, some, arith, Option-cases, inl,
  inr, count,
}
use mlist.Prelude.Int.{ℤ}
use mlist.Suspicion.{Floats, TimeoutFn}
use mlist.Members.Types.{Alive, Suspect, Dead, Config, Memberlist, new_memberlist}
use mlist.Members.Handlers.{alive_node, suspect_node, dead_node, timeout_fn, uint32_max}
use mlist.Members.Valid.{IsSound}
use mlist.Members.Sound.{
  alive_node-IsSound, suspect_node-IsSound, dead_node-IsSound, timeout_fn-IsSound,
}
use mlist.Members.Refute.{suspect_node-terminates, dead_node-terminates}
use mlist.Members.Timeouts.{timeout_fn-terminates}
use mlist.Maintenance.Types.{reap}
use mlist.Maintenance.Reap.{reap-IsSound}

-- `leaves` is the store `m.left = 1` of `Leave`, whose dead message is a `dies` of its own.
pub data Input : Type 0 where
  lives : Alive → Bool → ℕ → Input
  is_suspected : Suspect → Input
  dies : Dead → Bool → Input
  times_out : TimeoutFn → Input
  reaps : ℕ → (ℕ → ℕ) → Input
  leaves : Input

pub leave-IsSound :
    (c : Config) (m : Memberlist) → IsSound c m → IsSound c (record m { left = true })
leave-IsSound c m h = record {
  valid = record {
    mapped_id = h.valid.mapped_id;
    mapped_old = h.valid.mapped_old;
    mapped_once = h.valid.mapped_once;
    listed = h.valid.listed;
    counted = h.valid.counted;
    watched = λ id sc s.
        let (p, w) = h.valid.watched id sc s in
        (
          p,
          record {
            same_node = w.same_node;
            suspected = w.suspected;
            for_id = w.for_id;
            for_life = w.for_life;
          },
        );
    suspects = h.valid.suspects;
  };
  self = record { calm = h.self.calm; alive = λ p k l. cc };
}

-- An input whose life number is not the largest `uint32`.
abbrev pub IsOrdinary : Input → Type 0
IsOrdinary (is_suspected s) = s.lives < uint32_max
IsOrdinary (dies d _) = d.lives < uint32_max
IsOrdinary _ = Unit

abbrev pub AllOrdinary : List (ℕ × Input) → Type 0
AllOrdinary [] = Unit
AllOrdinary ((_, i) ∷ is) = IsOrdinary i × AllOrdinary is

-- The empty table is sound.
pub new_memberlist-IsSound : (c : Config) (max : ℤ) → IsSound c (new_memberlist max)
unfolding new_memberlist count
new_memberlist-IsSound c max = record {
  valid = record {
    mapped_id = λ id p e. absurd (ground arith);
    mapped_old = λ id p e. absurd (ground arith);
    mapped_once = λ id p e. absurd (ground arith);
    listed = λ p h. absurd (ground arith);
    counted = refl;
    watched = λ id sc e. absurd (ground arith);
    suspects = λ id p e. absurd (ground arith);
  };
  self = record { calm = λ p e. absurd (ground arith); alive = λ p e. absurd (ground arith) };
}

module _ {F : Type 0} (fl : Floats F) (c : Config) where
  unfoldable pub step : ℕ → Input → Memberlist → Option Memberlist
  step now (lives a notify rnd) m = some (alive_node c a notify now rnd m)
  step now (is_suspected s) m = suspect_node fl c s now m
  step now (dies d notify) m = dead_node c d notify now m
  step now (times_out f) m = timeout_fn c f now m
  step now (reaps timeout draw) m = some (reap timeout now draw m)
  step now leaves m = some (record m { left = true })

  -- `none` where a step does not return.
  unfoldable pub run : List (ℕ × Input) → Memberlist → Option Memberlist
  run [] m = some m
  run ((now, i) ∷ is) m = elim (step now i m) [ none ↦ none | some m' ↦ run is m' ]

  pub step-IsSound :
      (now : ℕ) (i : Input) (m : Memberlist) {m' : Memberlist}
      → IsSound c m
      → step now i m ≡ some m'
      → IsSound c m'
  unfolding step
  step-IsSound now (lives a notify rnd) m h e =
      subst (IsSound c) (ground arith) (alive_node-IsSound c m h now a notify rnd)
  step-IsSound now (is_suspected s) m h e = suspect_node-IsSound c m h now fl s e
  step-IsSound now (dies d notify) m h e = dead_node-IsSound c m h now d notify e
  step-IsSound now (times_out f) m h e = timeout_fn-IsSound c m h now f e
  step-IsSound now (reaps timeout draw) m h e =
      subst (IsSound c) (ground arith) (reap-IsSound c m timeout now draw h)
  step-IsSound now leaves m h e = subst (IsSound c) (ground arith) (leave-IsSound c m h)

  pub run-IsSound_from :
      (is : List (ℕ × Input)) (m : Memberlist) {m' : Memberlist}
      → IsSound c m
      → run is m ≡ some m'
      → IsSound c m'
  unfolding run
  run-IsSound_from [] m h e = subst (IsSound c) (ground arith) h
  run-IsSound_from ((now, i) ∷ is) m h e = elim (Option-cases (step now i m)) [
    | inl stuck ↦ absurd (ground arith)
    | inr (next, done) ↦ run-IsSound_from is next (step-IsSound now i m h done) (ground arith)
  ]

  -- Whatever messages arrive, timers fire, nodes are reaped and this node leaves, in any order from
  -- the empty table, the table stays sound: `nodes` and `nodeMap` hold the same nodes, each once;
  -- `numNodes` counts them; exactly the suspected nodes have a suspicion, set for their current life;
  -- and this node is never suspected, and is alive until it leaves.
  pub run-IsSound :
      (max : ℤ) (is : List (ℕ × Input)) {m : Memberlist}
      → run is (new_memberlist max) ≡ some m
      → IsSound c m
  run-IsSound max is e = run-IsSound_from is (new_memberlist max) (new_memberlist-IsSound c max) e

  step_total :
      (now : ℕ) (i : Input) (m : Memberlist)
      → IsSound c m
      → IsOrdinary i
      → (m' : Memberlist) × (step now i m ≡ some m')
  unfolding step
  step_total now (lives a notify rnd) m h o = (alive_node c a notify now rnd m, refl)
  step_total now (is_suspected s) m h o = suspect_node-terminates fl c s now m o
  step_total now (dies d notify) m h o = dead_node-terminates c d notify now m o
  step_total now (times_out f) m h o = timeout_fn-terminates c m f now h
  step_total now (reaps timeout draw) m h o = (reap timeout now draw m, refl)
  step_total now leaves m h o = (record m { left = true }, refl)

  pub run_total :
      (is : List (ℕ × Input)) (m : Memberlist)
      → IsSound c m
      → AllOrdinary is
      → (m' : Memberlist) × (run is m ≡ some m')
  unfolding run
  run_total [] m h o = (m, refl)
  run_total ((now, i) ∷ is) m h o =
      let (next, done) = step_total now i m h o.0 in
      let (last, rest) = run_total is next (step-IsSound now i m h done) o.1 in (last, ground arith)

  -- From the empty table every sequence of inputs, in which no suspect or dead message carries the
  -- largest `uint32` as its life number, runs to its end: no step loops for ever.
  pub run-terminates :
      (max : ℤ) (is : List (ℕ × Input))
      → AllOrdinary is
      → (m : Memberlist) × (run is (new_memberlist max) ≡ some m)
  run-terminates max is o = run_total is (new_memberlist max) (new_memberlist-IsSound c max) o
