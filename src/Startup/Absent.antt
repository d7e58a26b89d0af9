-- ===== src/Startup/Absent.antt =====
-- state.go and maintenance.go: a node that is not in its own table does not come into it.
use Prim.Native.String.{String}
use mlist.Prelude.{
  ℕ, suc, ◌≡◌, subst, List, [], ◌∷◌, Bool, true, false, Option, none, some, arith, Option-cases,
  inl, inr,
}
use mlist.Prelude.Maps.{str_dec, same, delete}
use mlist.Suspicion.{Floats}
use mlist.Members.Types.{Config, Memberlist, Alive, Suspect, Dead}
use mlist.Members.Handlers.{
  ip_allowed, alive_node, add_node, renew_node, refute, refute_loop, next_live_no, first_suspect,
  suspect_known, suspect_node, bury, dead_known, dead_node, timeout_check, timeout_fn,
}
use mlist.Maintenance.Types.{reap, deregister}
use mlist.Maintenance.Run.{Input, lives, is_suspected, dies, times_out, reaps, leaves, step, run}

-- An alive message about this node has an address that is not allowed.
abbrev pub IsForeign : Config → Input → Type 0
IsForeign c (lives a _ _) = same a.id c.local_id ≡ true → ip_allowed c a.ip ≡ false
IsForeign c _ = Unit

abbrev pub AllForeign : Config → List (ℕ × Input) → Type 0
AllForeign c [] = Unit
AllForeign c ((_, i) ∷ is) = IsForeign c i × AllForeign c is

deregister-none :
    (m : Memberlist) (id : String) (ps : List ℕ) (mm : String → Option ℕ)
    → mm id ≡ none
    → deregister m ps mm id ≡ none
unfolding deregister
deregister-none m id [] mm h = h
deregister-none m id (p ∷ ps) mm h =
    deregister-none m id ps (delete str_dec (m.store p).node.id mm) (ground arith)

reap_absent :
    (m : Memberlist) (id : String) (timeout now : ℕ) (draw : ℕ → ℕ)
    → m.node_map id ≡ none
    → (reap timeout now draw m).node_map id ≡ none
unfolding reap
reap_absent m id timeout now draw h = deregister-none m id _ m.node_map h

alive_node_absent :
    (c : Config) (a : Alive) (notify : Bool) (now rnd : ℕ) (m : Memberlist)
    → (same a.id c.local_id ≡ true → ip_allowed c a.ip ≡ false)
    → m.node_map c.local_id ≡ none
    → (alive_node c a notify now rnd m).node_map c.local_id ≡ none
unfolding alive_node add_node renew_node
alive_node_absent c a notify now rnd m foreign h = ground (arith, foreign)

module _ (c : Config) where
  refute_keeps :
      (p life : ℕ) (m m' : Memberlist) → refute p life m ≡ some m' → m'.node_map ≡ m.node_map
  unfolding refute
  refute_keeps p life m m' e =
      elim (Option-cases (refute_loop (suc life) life (next_live_no m.lives))) [
        | inl stuck ↦ absurd (ground arith)
        | inr (l, done) ↦ ground arith
      ]

  dead_node_absent :
      (d : Dead) (notify : Bool) (now : ℕ) (m m' : Memberlist)
      → m.node_map c.local_id ≡ none
      → dead_node c d notify now m ≡ some m'
      → m'.node_map c.local_id ≡ none
  unfolding dead_node dead_known bury
  dead_node_absent d notify now m m' h e = elim (Option-cases (m.node_map d.id)) [
    | inl absent ↦ ground arith
    | inr (p, here) ↦ ground (arith, refute_keeps p d.lives m m')
  ]

  suspect_node_absent :
      {F : Type 0} (fl : Floats F) (s : Suspect) (now : ℕ) (m m' : Memberlist)
      → m.node_map c.local_id ≡ none
      → suspect_node fl c s now m ≡ some m'
      → m'.node_map c.local_id ≡ none
  unfolding suspect_node suspect_known first_suspect
  suspect_node_absent fl s now m m' h e = elim (Option-cases (m.node_map s.id)) [
    | inl absent ↦ ground arith
    | inr (p, here) ↦ ground (arith, refute_keeps p s.lives m m')
  ]

  step_absent :
      {F : Type 0} (fl : Floats F) (now : ℕ) (i : Input) (m m' : Memberlist)
      → IsForeign c i
      → m.node_map c.local_id ≡ none
      → step fl c now i m ≡ some m'
      → m'.node_map c.local_id ≡ none
  unfolding step timeout_fn
  step_absent fl now (lives a notify rnd) m m' f h e =
      ground (arith, alive_node_absent c a notify now rnd m f h)
  step_absent fl now (is_suspected s) m m' f h e = suspect_node_absent fl s now m m' h e
  step_absent fl now (dies d notify) m m' f h e = dead_node_absent d notify now m m' h e
  step_absent fl now (times_out t) m m' f h e = elim (Option-cases (timeout_check t m)) [
    | inl stale ↦ ground arith
    | inr (d, due) ↦ dead_node_absent d false now m m' h (ground arith)
  ]
  step_absent fl now (reaps timeout draw) m m' f h e =
      subst (λ (r : Memberlist). r.node_map c.local_id ≡ none) {x = reap timeout now draw m}
        {y = m'} (ground arith) (reap_absent m c.local_id timeout now draw h)
  step_absent fl now leaves m m' f h e = ground arith

  pub run_absent :
      {F : Type 0} (fl : Floats F) (is : List (ℕ × Input)) (m m' : Memberlist)
      → AllForeign c is
      → m.node_map c.local_id ≡ none
      → run fl c is m ≡ some m'
      → m'.node_map c.local_id ≡ none
  unfolding run
  run_absent fl [] m m' f h e = ground arith
  run_absent fl ((now, i) ∷ is) m m' f h e = elim (Option-cases (step fl c now i m)) [
    | inl stuck ↦ absurd (ground arith)
    | inr (next, done) ↦
        run_absent fl is next m' f.1 (step_absent fl now i m next f.0 h done) (ground arith)
  ]
