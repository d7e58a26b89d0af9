-- ===== src/Refinement/Handlers.antt =====
-- Each handler changes the entry of a remote node by its rule.
use Prim.Native.String.{String}
use mlist.Prelude.{
  ℕ, suc, ◌≡◌, ◌≢◌, ap, sym, ◌∙◌, Bool, false, ◌&&◌, some, arith, if◌then◌else◌, Option-cases, inl,
  inr,
}
use mlist.Prelude.Maps.{str_dec, same}
use mlist.Suspicion.{Floats, TimeoutFn}
use mlist.Members.Types.{Alive, Suspect, Dead, Config, Memberlist}
use mlist.Members.Handlers.{
  refute, refute_loop, next_live_no, alive_node, add_node, renew_node, renew, ip_allowed, bytes_dec,
  suspect_node, suspect_known, first_suspect, dead_node, dead_known, bury, timeout_fn,
  timeout_check,
}
use mlist.Members.Valid.{IsSound}
use mlist.Maintenance.Types.{reap, is_expired}
use mlist.Maintenance.Reap.{reap-removes_expired}
use mlist.Refinement.Entry.{view, entry_alive, entry_suspect, entry_dead, entry_timeout, entry_reap}

module _ (c : Config) (m : Memberlist) (h : IsSound c m) (now : ℕ) (id : String)
    (far : id ≢ c.local_id) where
  -- The addresses of two nodes of the table differ.
  apart :
      (other : String) (p q : ℕ)
      → other ≢ id
      → m.node_map id ≡ some p
      → m.node_map other ≡ some q
      → p ≢ q
  apart other p q ne e e' same_place = ne (
      sym (h.valid.mapped_id other q e')
      ∙ ap (λ r. (m.store r).node.id) (sym same_place)
      ∙ h.valid.mapped_id id p e)

  pub view-alive_node :
      (a : Alive) (notify : Bool) (rnd : ℕ)
      → view (alive_node c a notify now rnd m) id
        ≡ (if same a.id id && ip_allowed c a.ip then entry_alive a now (view m id) else view m id)
  unfolding alive_node add_node renew_node renew
  view-alive_node a notify rnd = elim (str_dec a.id id) [
    | no other ↦ elim (Option-cases (m.node_map id)) [
      | inl absent ↦ ground arith
      | inr (p, here) ↦ elim (Option-cases (m.node_map a.id)) [
        | inl fresh ↦ ground (arith, h.valid.mapped_old id p here)
        | inr (q, known) ↦ ground (arith, apart a.id p q other here known)
      ]
    ]
    | yes mine ↦ elim (Option-cases (m.node_map id)) [
      | inl absent ↦ ground arith
      | inr (p, here) ↦ elim (bytes_dec (m.store p).node.tags a.tags) [
        | yes e ↦ ground arith
        | no ne ↦ ground arith
      ]
    ]
  ]

  -- `refute` writes the entry of this node.
  view-refute :
      (q lives : ℕ) {m' : Memberlist}
      → m.node_map c.local_id ≡ some q
      → refute q lives m ≡ some m'
      → view m' id ≡ view m id
  unfolding refute
  view-refute q lives here e =
      elim (Option-cases (refute_loop (suc lives) lives (next_live_no m.lives))) [
        | inl stuck ↦ absurd (ground arith)
        | inr (l, done) ↦ elim (Option-cases (m.node_map id)) [
          | inl absent ↦ ground arith
          | inr (p, known) ↦ ground (arith, apart c.local_id p q (λ e'. far (sym e')) known here)
        ]
      ]

  pub view-suspect_node :
      {F : Type 0} (fl : Floats F) (s : Suspect) {m' : Memberlist}
      → suspect_node fl c s now m ≡ some m'
      → view m' id ≡ (if same s.id id then entry_suspect s now (view m id) else view m id)
  unfolding suspect_node suspect_known first_suspect
  view-suspect_node fl s {m'} e = elim (Option-cases (m.node_map s.id)) [
    | inl unknown ↦ elim (str_dec s.id id) [ no other ↦ ground arith | yes mine ↦ ground arith ]
    | inr (q, known) ↦ elim (Option-cases (m.suspicions s.id)) [
      | inr (sc, watched) ↦
          let (k, w) = h.valid.watched s.id sc watched in
          elim (str_dec s.id id) [ no other ↦ ground arith | yes mine ↦ ground (arith, w) ]
      | inl calm ↦ elim (str_dec s.id id) [
        | yes mine ↦ ground arith
        | no other ↦ elim (str_dec s.id c.local_id) [
          | yes self ↦
              ground (arith, view-refute q s.lives {m' = m'} (ap m.node_map (sym self) ∙ known))
          | no remote ↦ elim (Option-cases (m.node_map id)) [
            | inl absent ↦ ground arith
            | inr (p, here) ↦ ground (arith, apart s.id p q other here known)
          ]
        ]
      ]
    ]
  ]

  pub view-dead_node :
      (d : Dead) (notify : Bool) {m' : Memberlist}
      → dead_node c d notify now m ≡ some m'
      → view m' id ≡ (if same d.id id then entry_dead d now (view m id) else view m id)
  unfolding dead_node dead_known bury
  view-dead_node d notify {m'} e = elim (Option-cases (m.node_map d.id)) [
    | inl unknown ↦ elim (str_dec d.id id) [ no other ↦ ground arith | yes mine ↦ ground arith ]
    | inr (q, known) ↦ elim (str_dec d.id id) [
      | yes mine ↦ ground arith
      | no other ↦ elim (str_dec d.id c.local_id) [
        | yes self ↦
            let refutes = view-refute q d.lives {m' = m'} (ap m.node_map (sym self) ∙ known) in
            elim (Option-cases (m.node_map id)) [
              | inl absent ↦ ground (arith, refutes)
              | inr (p, here) ↦ ground (arith, refutes, apart d.id p q other here known)
            ]
        | no remote ↦ elim (Option-cases (m.node_map id)) [
          | inl absent ↦ ground arith
          | inr (p, here) ↦ ground (arith, apart d.id p q other here known)
        ]
      ]
    ]
  ]

  pub view-timeout_fn :
      (f : TimeoutFn) {m' : Memberlist}
      → timeout_fn c f now m ≡ some m'
      → view m' id ≡ (if same f.id id then entry_timeout f now (view m id) else view m id)
  unfolding timeout_fn timeout_check
  view-timeout_fn f {m'} e = elim (Option-cases (m.node_map f.id)) [
    | inl unknown ↦ elim (str_dec f.id id) [ no other ↦ ground arith | yes mine ↦ ground arith ]
    | inr (q, known) ↦
        let d : Dead = record {
          lives = (m.store q).lives;
          id = (m.store q).node.id;
          left = false;
        } in
        let named = h.valid.mapped_id f.id q known in
        elim (str_dec f.id id) [
          | no other ↦ ground (arith, view-dead_node d false {m' = m'})
          | yes mine ↦ ground (arith, view-dead_node d false {m' = m'})
        ]
  ]

  pub view-reap :
      (timeout : ℕ) (draw : ℕ → ℕ)
      → view (reap timeout now draw m) id ≡ entry_reap timeout now (view m id)
  unfolding is_expired
  view-reap timeout draw =
      let (gone, _, _, same_store) = reap-removes_expired m h.valid timeout now draw id 0 in
      elim (Option-cases (m.node_map id)) [
        | inl absent ↦ ground arith
        | inr (p, here) ↦ ground arith
      ]
