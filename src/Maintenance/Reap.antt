-- ===== src/Maintenance/Reap.antt =====
-- maintenance.go: `reap` removes the expired nodes, and only those.
use Prim.Native.String.{String}
use mlist.Prelude.{
  ℕ, ◌+◌, ◌<◌, ◌≡◌, ◌≢◌, refl, sym, subst, ◌∙◌, List, [], ◌∷◌, Bool, true, false, Option, none,
  some, arith, ℕ_discrete, length, length-take, count, take, drop, if◌then◌else◌, Bool-cases, inl,
  inr, Option-cases,
}
use mlist.Prelude.Maps.{str_dec, delete}
use mlist.Prelude.Slices.{take_entries, drop_entries, count-take-drop}
use mlist.Suspicion.{Suspicion}
use mlist.Members.Types.{Memberlist, state_suspect, Config}
use mlist.Members.Valid.{IsValid, IsWatched, IsSound}
use mlist.Maintenance.Types.{is_expired, swap_expired_to_end, deregister, reap}
use mlist.Maintenance.Sweep.{swap_expired_to_end-IsSplit, count-shuffle_nodes, length-shuffle_nodes}

deregister_hit :
    (m : Memberlist) (p : ℕ) (ps : List ℕ) (mm : String → Option ℕ)
    → mm (m.store p).node.id ≡ none
    → deregister m ps mm (m.store p).node.id ≡ none
unfolding deregister
deregister_hit m p [] mm h = h
deregister_hit m p (q ∷ ps) mm h =
    deregister_hit m p ps (delete str_dec (m.store q).node.id mm) (ground arith)

deregister_gone :
    (m : Memberlist) (p : ℕ) (ps : List ℕ) (mm : String → Option ℕ)
    → 0 < count ℕ_discrete p ps
    → deregister m ps mm (m.store p).node.id ≡ none
unfolding deregister count
deregister_gone m p [] mm h = elim h [ ]
deregister_gone m p (q ∷ ps) mm h = elim (ℕ_discrete p q) [
  | yes e ↦ deregister_hit m p ps (delete str_dec (m.store q).node.id mm) (ground arith)
  | no ne ↦ deregister_gone m p ps (delete str_dec (m.store q).node.id mm) (ground arith)
]

deregister_kept :
    (m : Memberlist) (id : String) (ps : List ℕ) (mm : String → Option ℕ)
    → ((p : ℕ) → 0 < count ℕ_discrete p ps → (m.store p).node.id ≢ id)
    → deregister m ps mm id ≡ mm id
unfolding deregister count
deregister_kept m id [] mm h = refl
deregister_kept m id (q ∷ ps) mm h =
    let tail =
      deregister_kept m id ps (delete str_dec (m.store q).node.id mm)
        (λ p lt. h p (ground arith)) in
    ground (arith, tail, h q)

module _ (m : Memberlist) (v : IsValid m) (timeout now : ℕ) (draw : ℕ → ℕ) where
  abbrev split : List ℕ × ℕ
  split = swap_expired_to_end m timeout now

  abbrev expired : ℕ → Bool
  expired = is_expired m timeout now

  abbrev front : List ℕ
  front = take split.1 split.0

  abbrev back : List ℕ
  back = drop split.1 split.0

  front_kept : (p : ℕ) → 0 < count ℕ_discrete p front → expired p ≡ false
  front_kept p =
      take_entries (λ x. expired x ≡ false) split.0 split.1 p
        (swap_expired_to_end-IsSplit m timeout now).0.kept

  back_gone : (p : ℕ) → 0 < count ℕ_discrete p back → expired p ≡ true
  back_gone p =
      drop_entries (λ x. expired x ≡ true) split.0 split.1 p
        (swap_expired_to_end-IsSplit m timeout now).0.gone

  parts : (p : ℕ) → count ℕ_discrete p front + count ℕ_discrete p back ≡ count ℕ_discrete p m.nodes
  parts p = count-take-drop p split.1 split.0 ∙ (swap_expired_to_end-IsSplit m timeout now).1 p

  length-front : length front ≡ split.1
  length-front =
      let fits = (swap_expired_to_end-IsSplit m timeout now).0.fits in
      omega (arith, length-take split.1 split.0)

  count-reap :
      (p : ℕ) → count ℕ_discrete p (reap timeout now draw m).nodes ≡ count ℕ_discrete p front
  unfolding reap
  count-reap p = count-shuffle_nodes p draw split.1 front (omega (arith, length-front))

  node_map-reap_gone :
      (id : String) (p : ℕ)
      → m.node_map id ≡ some p
      → expired p ≡ true
      → (reap timeout now draw m).node_map id ≡ none
  unfolding reap
  node_map-reap_gone id p e x =
      let in_back : 0 < count ℕ_discrete p back =
        ground (arith, front_kept p, parts p, v.mapped_once id p e) in
      subst (λ j. deregister m back m.node_map j ≡ none) (v.mapped_id id p e)
        (deregister_gone m p back m.node_map in_back)

  node_map-reap_kept :
      (id : String) (p : ℕ)
      → m.node_map id ≡ some p
      → expired p ≡ false
      → (reap timeout now draw m).node_map id ≡ some p
  unfolding reap
  node_map-reap_kept id p e x =
      deregister_kept m id back m.node_map
        (λ q lt same_id. ground (arith, back_gone q lt, parts q, v.listed q))
      ∙ e

  node_map-reap_absent :
      (id : String) → m.node_map id ≡ none → (reap timeout now draw m).node_map id ≡ none
  unfolding reap
  node_map-reap_absent id e =
      deregister_kept m id back m.node_map
        (λ q lt same_id. ground (arith, back_gone q lt, parts q, v.listed q))
      ∙ e

  node_map-reap_sub :
      (id : String) (p : ℕ)
      → (reap timeout now draw m).node_map id ≡ some p
      → (m.node_map id ≡ some p) × (expired p ≡ false)
  node_map-reap_sub id p e = elim (Option-cases (m.node_map id)) [
    | inl absent ↦ absurd (ground (arith, node_map-reap_absent id absent))
    | inr (q, here) ↦ elim (Bool-cases (expired q)) [
      | inl gone ↦ absurd (ground (arith, node_map-reap_gone id q here gone))
      | inr kept ↦ ground (arith, node_map-reap_kept id q here kept)
    ]
  ]

  count-reap_kept :
      (p : ℕ)
      → count ℕ_discrete p (reap timeout now draw m).nodes
        ≡ (if is_expired m timeout now p then 0 else count ℕ_discrete p m.nodes)
  count-reap_kept p = elim (Bool-cases (is_expired m timeout now p)) [
    | inl gone ↦ ground (arith, count-reap p, front_kept p)
    | inr kept ↦ ground (arith, count-reap p, back_gone p, parts p)
  ]

  reap-counted : (reap timeout now draw m).num_nodes ≡ length (reap timeout now draw m).nodes
  unfolding reap
  reap-counted = sym (length-shuffle_nodes draw split.1 front ∙ length-front)

  -- In a well-formed table `reap` removes exactly the nodes that are dead or left for longer than the
  -- timeout, whatever the shuffle draws: from `nodeMap`, and from `nodes`, which holds the others as
  -- often as before, in some order, and which `numNodes` counts. It leaves the stored nodes as they are.
  pub reap-removes_expired :
      (id : String) (p : ℕ)
      → let m' = reap timeout now draw m in
        (m'.node_map id ≡ elim (m.node_map id) [
          | none ↦ none
          | some p ↦ if is_expired m timeout now p then none else some p
        ])
        × (count ℕ_discrete p m'.nodes
            ≡ (if is_expired m timeout now p then 0 else count ℕ_discrete p m.nodes))
        × (m'.num_nodes ≡ length m'.nodes)
        × (m'.store ≡ m.store)
  unfolding reap
  reap-removes_expired id p = (mapped, count-reap_kept p, reap-counted, refl)
    where
      mapped : (reap timeout now draw m).node_map id ≡ elim (m.node_map id) [
        | none ↦ none
        | some p ↦ if is_expired m timeout now p then none else some p
      ]
      mapped = elim (Option-cases (m.node_map id)) [
        | inl absent ↦ node_map-reap_absent id absent ∙ ground arith
        | inr (p, here) ↦ elim (Bool-cases (is_expired m timeout now p)) [
          | inl gone ↦ node_map-reap_gone id p here gone ∙ ground arith
          | inr kept ↦ node_map-reap_kept id p here kept ∙ ground arith
        ]
      ]

  suspect_kept : (p : ℕ) → (m.store p).state ≡ state_suspect → expired p ≡ false
  unfolding is_expired
  suspect_kept p e = ground arith

  reap-listed :
      (p : ℕ)
      → 0 < count ℕ_discrete p (reap timeout now draw m).nodes
      → (reap timeout now draw m).node_map (m.store p).node.id ≡ some p
  reap-listed p h =
      let in_front : 0 < count ℕ_discrete p front = omega (arith, count-reap p) in
      node_map-reap_kept (m.store p).node.id p (v.listed p (omega (arith, parts p)))
        (front_kept p in_front)

  reap-IsWatched :
      (id : String) (sc : Suspicion)
      → m.suspicions id ≡ some sc
      → (p : ℕ) × IsWatched (reap timeout now draw m) id sc p
  unfolding reap
  reap-IsWatched id sc e =
      let (p, w) = v.watched id sc e in
      (
        p,
        record {
          same_node = node_map-reap_kept id p w.same_node (suspect_kept p w.suspected);
          suspected = w.suspected;
          for_id = w.for_id;
          for_life = w.for_life;
        },
      )

  reap-mapped_once :
      (id : String) (p : ℕ)
      → (reap timeout now draw m).node_map id ≡ some p
      → count ℕ_discrete p (reap timeout now draw m).nodes ≡ 1
  reap-mapped_once id p e =
      let (here, kept) = node_map-reap_sub id p e in
      ground (arith, count-reap p, parts p, v.mapped_once id p here, back_gone p)

  reap-IsValid : IsValid (reap timeout now draw m)
  unfolding reap
  reap-IsValid = record {
    mapped_id = λ id p e. v.mapped_id id p (node_map-reap_sub id p e).0;
    mapped_old = λ id p e. v.mapped_old id p (node_map-reap_sub id p e).0;
    mapped_once = reap-mapped_once;
    listed = reap-listed;
    counted = reap-counted;
    watched = reap-IsWatched;
    suspects = λ id p e s. v.suspects id p (node_map-reap_sub id p e).0 s;
  }

-- `reap` keeps the membership table well formed and this node safe from its own suspicion.
pub reap-IsSound :
    (c : Config) (m : Memberlist) (timeout now : ℕ) (draw : ℕ → ℕ)
    → IsSound c m
    → IsSound c (reap timeout now draw m)
unfolding reap
reap-IsSound c m timeout now draw h = record {
  valid = reap-IsValid m h.valid timeout now draw;
  self = record {
    calm = λ p e. h.self.calm p (node_map-reap_sub m h.valid timeout now draw c.local_id p e).0;
    alive =
        λ p e l. h.self.alive p (node_map-reap_sub m h.valid timeout now draw c.local_id p e).0 l;
  };
}
