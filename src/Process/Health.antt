-- ===== src/Process/Health.antt =====
-- state.go: what the handlers do to the health score.
use mlist.Prelude.{
  ℕ, suc, ◌≡◌, subst, Bool, false, some, arith, ltb, Bool-cases, Option-cases, inl, inr, ◌||◌,
}
use mlist.Prelude.Int.{pos}
use mlist.Prelude.Maps.{str_dec}
use mlist.Awareness.{IsHealthy, punish-IsHealthy}
use mlist.Suspicion.{Floats, TimeoutFn}
use mlist.Members.Types.{is_alive, dead_or_left, Alive, Suspect, Dead, Config, Memberlist}
use mlist.Members.Handlers.{
  alive_node, add_node, renew_node, refute_loop, next_live_no, refute, first_suspect, suspect_known,
  suspect_node, bury, dead_known, dead_node, timeout_check, timeout_fn,
}

pub alive_node_keeps :
    (c : Config) (a : Alive) (notify : Bool) (now rnd : ℕ) (m : Memberlist)
    → (alive_node c a notify now rnd m).awr ≡ m.awr
unfolding alive_node add_node renew_node
alive_node_keeps c a notify now rnd m = ground arith

refute-IsHealthy :
    (p lives : ℕ) (m m' : Memberlist)
    → IsHealthy m.awr
    → refute p lives m ≡ some m'
    → IsHealthy m'.awr
unfolding refute
refute-IsHealthy p lives m m' h e =
    elim (Option-cases (refute_loop (suc lives) lives (next_live_no m.lives))) [
      | inl stuck ↦ absurd (ground arith)
      | inr (l, done) ↦ subst IsHealthy (ground arith) (punish-IsHealthy m.awr (pos 1) h).0
    ]

pub dead_node-IsHealthy :
    (c : Config) (d : Dead) (notify : Bool) (now : ℕ) (m m' : Memberlist)
    → IsHealthy m.awr
    → dead_node c d notify now m ≡ some m'
    → IsHealthy m'.awr
unfolding dead_node dead_known bury
dead_node-IsHealthy c d notify now m m' h e = elim (Option-cases (m.node_map d.id)) [
  | inl absent ↦ subst IsHealthy (ground arith) h
  | inr (p, here) ↦ elim (Option-cases (refute p d.lives m)) [
    | inl stuck ↦ subst IsHealthy (ground arith) h
    | inr (m1, done) ↦
        elim (Bool-cases (ltb d.lives (m.store p).lives || dead_or_left (m.store p))) [
          | inl late ↦ subst IsHealthy (ground arith) h
          | inr fresh ↦ elim (str_dec d.id c.local_id) [
            | no far ↦ subst IsHealthy (ground arith) h
            | yes near ↦ elim (Bool-cases m.left) [
              | inl gone ↦ subst IsHealthy (ground arith) h
              | inr on ↦ refute-IsHealthy p d.lives m m' h (ground arith)
            ]
          ]
        ]
  ]
]

pub timeout_fn-IsHealthy :
    (c : Config) (f : TimeoutFn) (now : ℕ) (m m' : Memberlist)
    → IsHealthy m.awr
    → timeout_fn c f now m ≡ some m'
    → IsHealthy m'.awr
unfolding timeout_fn
timeout_fn-IsHealthy c f now m m' h e = elim (Option-cases (timeout_check f m)) [
  | inl stale ↦ subst IsHealthy (ground arith) h
  | inr (d, due) ↦ dead_node-IsHealthy c d false now m m' h (ground arith)
]

module _ {F : Type 0} (fl : Floats F) (c : Config) where
  pub suspect_node-IsHealthy :
      (s : Suspect) (now : ℕ) (m m' : Memberlist)
      → IsHealthy m.awr
      → suspect_node fl c s now m ≡ some m'
      → IsHealthy m'.awr
  unfolding suspect_node suspect_known first_suspect
  suspect_node-IsHealthy s now m m' h e = elim (Option-cases (m.node_map s.id)) [
    | inl absent ↦ subst IsHealthy (ground arith) h
    | inr (p, here) ↦ elim (Bool-cases (ltb s.lives (m.store p).lives)) [
      | inl late ↦ subst IsHealthy (ground arith) h
      | inr fresh ↦ elim (Option-cases (m.suspicions s.id)) [
        | inr (sc, known) ↦ subst IsHealthy (ground arith) h
        | inl new ↦ elim (Bool-cases (is_alive (m.store p).state)) [
          | inr down ↦ subst IsHealthy (ground arith) h
          | inl up ↦ elim (str_dec s.id c.local_id) [
            | yes near ↦ refute-IsHealthy p s.lives m m' h (ground arith)
            | no far ↦ subst IsHealthy (ground arith) h
          ]
        ]
      ]
    ]
  ]
