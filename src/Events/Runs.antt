-- ===== src/Events/Runs.antt =====
-- state.go: the events of one node, over any sequence of inputs of which each is one call.
use Prim.Native.String.{String}
use mlist.Prelude.{
  ℕ, suc, ◌≡◌, refl, ◌∙◌, List, [], ◌∷◌, Bool, true, false, not, ◌&&◌, ◌||◌, some, arith, leb, ltb,
  if◌then◌else◌, subst, Bool-cases, Option-cases, inl, inr,
}
use mlist.Prelude.Int.{ℤ}
use mlist.Prelude.Maps.{same}
use mlist.Suspicion.{Floats, Confirmed, TimeoutFn, confirm}
use mlist.Members.Types.{
  is_alive, dead_or_left, Alive, Suspect, Dead, Message, Effect, broadcast, timed_out, Config,
  Memberlist, new_memberlist,
}
use mlist.Members.Handlers.{
  alive_node, refute, refute_loop, next_live_no, refuted, confirmed, first_suspect, suspect_known,
  suspect_node, bury, dead_known, dead_node, timeout_check, timeout_fn, ip_allowed,
}
use mlist.Members.Valid.{IsSound}
use mlist.Maintenance.Types.{reap, is_expired}
use mlist.Maintenance.Reap.{reap-removes_expired}
use mlist.Maintenance.Run.{
  Input, lives, is_suspected, dies, times_out, reaps, leaves, run, step, step-IsSound,
  new_memberlist-IsSound,
}
use mlist.Events.Alternation.{
  Alternates, is_joined, IsAnnounced, add_node-IsAnnounced, renew_node-IsAnnounced,
  refuted-IsAnnounced, first_suspect-IsAnnounced, bury-IsAnnounced,
}

-- A broadcast and a timeout, if there are such, are no events.
no_events :
    (id name other : String) (msg : Message) (fresh late : Bool) (es : List Effect)
    → let later = if late then timed_out other ∷ es else es in
      let all = if fresh then broadcast name msg false ∷ later else later in
      (Alternates id es → Alternates id all) × (is_joined id all ≡ is_joined id es)
no_events id name other msg true true es = (λ h. h, refl)
no_events id name other msg true false es = (λ h. h, refl)
no_events id name other msg false true es = (λ h. h, refl)
no_events id name other msg false false es = (λ h. h, refl)

module _ (c : Config) (m : Memberlist) (h : IsSound c m) (now : ℕ) (id : String)
    (g : IsAnnounced id m) where
  pub alive_node-IsAnnounced :
      (a : Alive) (notify : Bool) (rnd : ℕ) → IsAnnounced id (alive_node c a notify now rnd m)
  unfolding alive_node
  alive_node-IsAnnounced a notify rnd = elim (Bool-cases (m.left && same a.id c.local_id)) [
    | inl gone ↦ rw gone g
    | inr on ↦ rw on (elim (Bool-cases (ip_allowed c a.ip)) [
      | inr blocked ↦ rw blocked g
      | inl allowed ↦ rw allowed (elim (Option-cases (m.node_map a.id)) [
        | inl absent ↦ rw absent (add_node-IsAnnounced c m h now id g a notify rnd absent)
        | inr (p, here) ↦ rw here (elim (Bool-cases (leb a.lives (m.store p).lives)) [
          | inl old ↦ rw old g
          | inr new ↦ rw new (renew_node-IsAnnounced c m h now id g a.id p here a notify refl)
        ])
      ])
    ])
  ]

  confirmed-IsAnnounced : (s : Suspect) (r : Confirmed) → IsAnnounced id (confirmed s r m)
  confirmed-IsAnnounced s r =
      let (alternate, same_joined) =
        no_events id s.id s.id (Message.suspect_msg s) r.fresh r.timed_out m.effects in
      record { alternates = alternate g.alternates; joined = same_joined ∙ g.joined }

  refute-IsAnnounced :
      (key : String) (p life : ℕ) {m' : Memberlist}
      → m.node_map key ≡ some p
      → refute p life m ≡ some m'
      → IsAnnounced id m'
  unfolding refute
  refute-IsAnnounced key p life {m'} here e =
      elim (Option-cases (refute_loop (suc life) life (next_live_no m.lives))) [
        | inl stuck ↦ absurd (ground arith)
        | inr (l, done) ↦
            subst (IsAnnounced id) {x = refuted l p m} (ground arith)
              (refuted-IsAnnounced c m h now id g key p here l)
      ]

  pub dead_node-IsAnnounced :
      (d : Dead) (notify : Bool) {m' : Memberlist}
      → dead_node c d notify now m ≡ some m'
      → IsAnnounced id m'
  unfolding dead_node dead_known
  dead_node-IsAnnounced d notify e = elim (Option-cases (m.node_map d.id)) [
    | inl absent ↦ subst (IsAnnounced id) (ground arith) g
    | inr (p, here) ↦
        elim (Bool-cases (ltb d.lives (m.store p).lives || dead_or_left (m.store p))) [
          | inl ignored ↦ subst (IsAnnounced id) (ground arith) g
          | inr taken ↦ elim (Bool-cases (same d.id c.local_id && not m.left)) [
            | inl own ↦ refute-IsAnnounced d.id p d.lives here (ground arith)
            | inr other ↦
                subst (IsAnnounced id) {x = bury d notify now p m} (ground arith)
                  (bury-IsAnnounced c m h now id g d.id p here d notify (ground arith))
          ]
        ]
  ]

  pub timeout_fn-IsAnnounced :
      (f : TimeoutFn) {m' : Memberlist} → timeout_fn c f now m ≡ some m' → IsAnnounced id m'
  unfolding timeout_fn
  timeout_fn-IsAnnounced f e = elim (Option-cases (timeout_check f m)) [
    | inl stale ↦ subst (IsAnnounced id) (ground arith) g
    | inr (d, due) ↦ dead_node-IsAnnounced d false (ground arith)
  ]

  pub suspect_node-IsAnnounced :
      {F : Type 0} (fl : Floats F) (s : Suspect) {m' : Memberlist}
      → suspect_node fl c s now m ≡ some m'
      → IsAnnounced id m'
  unfolding suspect_node suspect_known
  suspect_node-IsAnnounced fl s e = elim (Option-cases (m.node_map s.id)) [
    | inl absent ↦ subst (IsAnnounced id) (ground arith) g
    | inr (p, here) ↦ elim (Bool-cases (ltb s.lives (m.store p).lives)) [
      | inl late ↦ subst (IsAnnounced id) (ground arith) g
      | inr fresh ↦ elim (Option-cases (m.suspicions s.id)) [
        | inr (sc, watched) ↦
            subst (IsAnnounced id) {x = confirmed s (confirm fl sc s.from now) m} (ground arith)
              (confirmed-IsAnnounced s (confirm fl sc s.from now))
        | inl unwatched ↦ elim (Bool-cases (is_alive (m.store p).state)) [
          | inr calm ↦ subst (IsAnnounced id) (ground arith) g
          | inl alive ↦ elim (Bool-cases (same s.id c.local_id)) [
            | inl own ↦ refute-IsAnnounced s.id p s.lives here (ground arith)
            | inr other ↦
                subst (IsAnnounced id) {x = first_suspect c s now p m} (ground arith)
                  (first_suspect-IsAnnounced c m h now id g s.id p here s alive)
          ]
        ]
      ]
    ]
  ]

  pub reap-IsAnnounced : (timeout : ℕ) (draw : ℕ → ℕ) → IsAnnounced id (reap timeout now draw m)
  unfolding reap is_expired
  reap-IsAnnounced timeout draw =
      let (gone, _, _, same_store) = reap-removes_expired m h.valid timeout now draw id 0 in
      record {
        alternates = g.alternates;
        joined = elim (Option-cases (m.node_map id)) [
          | inl absent ↦ ground (arith, g.joined)
          | inr (p, here) ↦ ground (arith, g.joined)
        ];
      }

  step-IsAnnounced :
      {F : Type 0} (fl : Floats F) (i : Input) {m' : Memberlist}
      → step fl c now i m ≡ some m'
      → IsAnnounced id m'
  unfolding step
  step-IsAnnounced fl (lives a notify rnd) e =
      subst (IsAnnounced id) (ground arith) (alive_node-IsAnnounced a notify rnd)
  step-IsAnnounced fl (is_suspected s) e = suspect_node-IsAnnounced fl s e
  step-IsAnnounced fl (dies d notify) e = dead_node-IsAnnounced d notify e
  step-IsAnnounced fl (times_out f) e = timeout_fn-IsAnnounced f e
  step-IsAnnounced fl (reaps timeout draw) e =
      subst (IsAnnounced id) (ground arith) (reap-IsAnnounced timeout draw)
  step-IsAnnounced fl leaves e =
      subst (IsAnnounced id) {x = record m { left = true }} (ground arith)
        (record { alternates = g.alternates; joined = g.joined })

module _ {F : Type 0} (fl : Floats F) (c : Config) (id : String) where
  run-IsAnnounced_from :
      (is : List (ℕ × Input)) (m : Memberlist) {m' : Memberlist}
      → IsSound c m
      → IsAnnounced id m
      → run fl c is m ≡ some m'
      → IsAnnounced id m'
  unfolding run
  run-IsAnnounced_from [] m h g e = subst (IsAnnounced id) (ground arith) g
  run-IsAnnounced_from ((now, i) ∷ is) m h g e = elim (Option-cases (step fl c now i m)) [
    | inl stuck ↦ absurd (ground arith)
    | inr (next, done) ↦
        run-IsAnnounced_from is next (step-IsSound fl c now i m h done)
          (step-IsAnnounced c m h now id g fl i done) (ground arith)
  ]

  -- When messages, timers and reapings are handled one after another, from the empty table: the join
  -- and leave events of a node alternate, with a join first, an update comes only between a join and
  -- the leave after it, and the last of them is a join exactly if the node is in the table and has not
  -- died or left.
  run-IsAnnounced :
      (max : ℤ) (is : List (ℕ × Input)) {m : Memberlist}
      → run fl c is (new_memberlist max) ≡ some m
      → IsAnnounced id m
  unfolding new_memberlist
  run-IsAnnounced max is e =
      run-IsAnnounced_from is (new_memberlist max) (new_memberlist-IsSound c max)
        (record { alternates = tt; joined = refl }) e
