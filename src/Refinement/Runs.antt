-- ===== src/Refinement/Runs.antt =====
-- Under any sequence of inputs the entry of a remote node changes by its own rule alone.
use Prim.Native.String.{String}
use mlist.Prelude.{
  true, ℕ, ◌≡◌, ◌≢◌, ap, ◌∙◌, List, [], ◌∷◌, none, some, arith, Option-cases, inl, inr,
}
use mlist.Prelude.Int.{ℤ}
use mlist.Suspicion.{Floats}
use mlist.Members.Types.{Config, Memberlist, new_memberlist}
use mlist.Members.Handlers.{alive_node}
use mlist.Maintenance.Types.{reap}
use mlist.Members.Valid.{IsSound}
use mlist.Maintenance.Run.{
  Input, lives, is_suspected, dies, times_out, reaps, leaves, step, run, step-IsSound,
  new_memberlist-IsSound,
}
use mlist.Refinement.Entry.{view, entry_step, replay}
use mlist.Refinement.Handlers.{
  view-alive_node, view-suspect_node, view-dead_node, view-timeout_fn, view-reap,
}

module _ {F : Type 0} (fl : Floats F) (c : Config) (id : String) (far : id ≢ c.local_id) where
  view-some : (x y : Memberlist) → some x ≡ some y → view y id ≡ view x id
  view-some x y e = ground arith

  step_refines :
      (now : ℕ) (i : Input) (m m' : Memberlist)
      → IsSound c m
      → step fl c now i m ≡ some m'
      → view m' id ≡ entry_step c id now i (view m id)
  unfolding step entry_step
  step_refines now (lives a notify rnd) m m' h e =
      view-some (alive_node c a notify now rnd m) m' e
      ∙ view-alive_node c m h now id far a notify rnd
  step_refines now (is_suspected s) m m' h e = view-suspect_node c m h now id far fl s e
  step_refines now (dies d notify) m m' h e = view-dead_node c m h now id far d notify e
  step_refines now (times_out f) m m' h e = view-timeout_fn c m h now id far f e
  step_refines now (reaps timeout draw) m m' h e =
      view-some (reap timeout now draw m) m' e ∙ view-reap c m h now id far timeout draw
  step_refines now leaves m m' h e = view-some (record m { left = true }) m' e

  pub run_refines_from :
      (is : List (ℕ × Input)) (m m' : Memberlist)
      → IsSound c m
      → run fl c is m ≡ some m'
      → view m' id ≡ replay c id is (view m id)
  unfolding run replay
  run_refines_from [] m m' h e = ground arith
  run_refines_from ((now, i) ∷ is) m m' h e = elim (Option-cases (step fl c now i m)) [
    | inl stuck ↦ absurd (ground arith)
    | inr (next, done) ↦
        run_refines_from is next m' (step-IsSound fl c now i m h done) (ground arith)
        ∙ ap (replay c id is) (step_refines now i m next h done)
  ]

  -- After any run from the empty table, what the table holds of a node other than this one is the replay of
  -- the inputs by the rule for one entry: no message, timer or reaping for another node has any
  -- part in it, nor have the random draws, the confirmations or this node's own leaving.
  pub run_refines :
      (max : ℤ) (is : List (ℕ × Input)) (m : Memberlist)
      → run fl c is (new_memberlist max) ≡ some m
      → view m id ≡ replay c id is none
  unfolding new_memberlist
  run_refines max is m e =
      run_refines_from is (new_memberlist max) m (new_memberlist-IsSound c max) e
