-- ===== src/Events/Alternation.antt =====
-- state.go: the events of one node, as the handlers hand them on when one call comes after another.
use Prim.Native.String.{String}
use mlist.Prelude.{
  ℕ, ◌≡◌, ◌≢◌, refl, sym, ap, ◌∙◌, List, [], ◌∷◌, Bool, true, false, not, none, some, arith,
  if◌then◌else◌, Option-cases, inl, inr, ◌||◌, ◌&&◌,
}
use mlist.Prelude.Maps.{str_dec, same}
use mlist.Members.Types.{
  Node, alive_msg, dead_or_left, is_alive, Alive, Suspect, Dead, Effect, broadcast, notify_join,
  notify_leave, notify_update, timed_out, Config, Memberlist,
}
use mlist.Members.Handlers.{add_node, renew_node, renew, refuted, first_suspect, bytes_equal, bury}
use mlist.Members.Valid.{IsSound}
use mlist.Broadcast.Named.Push.{same-≡}

-- Whether the last of the join and leave events of a node, the first of the list, is a join.
abbrev pub is_joined : String → List Effect → Bool
is_joined id [] = false
is_joined id (notify_join n ∷ es) = if same n.id id then true else is_joined id es
is_joined id (notify_leave n ∷ es) = if same n.id id then false else is_joined id es
is_joined id (broadcast _ _ _ ∷ es) = is_joined id es
is_joined id (notify_update _ ∷ es) = is_joined id es
is_joined id (timed_out _ ∷ es) = is_joined id es

-- A join comes only while the node has not joined, and a leave or an update only while it has.
abbrev pub Alternates : String → List Effect → Type 0
Alternates id [] = Unit
Alternates id (notify_join n ∷ es) =
    (same n.id id ≡ true → is_joined id es ≡ false) × Alternates id es
Alternates id (notify_leave n ∷ es) =
    (same n.id id ≡ true → is_joined id es ≡ true) × Alternates id es
Alternates id (notify_update n ∷ es) =
    (same n.id id ≡ true → is_joined id es ≡ true) × Alternates id es
Alternates id (broadcast _ _ _ ∷ es) = Alternates id es
Alternates id (timed_out _ ∷ es) = Alternates id es

-- The node is in the table and has not died or left.
abbrev pub is_active : Memberlist → String → Bool
is_active m id = elim (m.node_map id) [ none ↦ false | some p ↦ not (dead_or_left (m.store p)) ]

pub record IsAnnounced (id : String) (m : Memberlist) : Type 0 where
  pub alternates : Alternates id m.effects
  pub joined : is_joined id m.effects ≡ is_active m id

module _ (id : String) where
  Alternates-join_if :
      (b : Bool) (n : Node) (es : List Effect)
      → (b ≡ true → same n.id id ≡ true → is_joined id es ≡ false)
      → Alternates id es
      → Alternates id (if b then notify_join n ∷ es else es)
  Alternates-join_if true n es f g = (f refl, g)
  Alternates-join_if false n es f g = g

  Alternates-update_if :
      (b : Bool) (n : Node) (es : List Effect)
      → (same n.id id ≡ true → is_joined id es ≡ true)
      → Alternates id es
      → Alternates id (if b then notify_update n ∷ es else es)
  Alternates-update_if true n es f g = (f, g)
  Alternates-update_if false n es f g = g

  is_joined-join_if :
      (b : Bool) (n : Node) (es : List Effect)
      → is_joined id (if b then notify_join n ∷ es else es) ≡ (b && same n.id id || is_joined id es)
  is_joined-join_if true n es = ground arith
  is_joined-join_if false n es = refl

  is_joined-update_if :
      (b : Bool) (n : Node) (es : List Effect)
      → is_joined id (if b then notify_update n ∷ es else es) ≡ is_joined id es
  is_joined-update_if true n es = refl
  is_joined-update_if false n es = refl

module _ (c : Config) (m : Memberlist) (h : IsSound c m) (now : ℕ) (id : String)
    (g : IsAnnounced id m) where
  pub add_node-IsAnnounced :
      (a : Alive) (notify : Bool) (rnd : ℕ)
      → m.node_map a.id ≡ none
      → IsAnnounced id (add_node a notify now rnd m)
  unfolding add_node
  add_node-IsAnnounced a notify rnd absent = record {
    alternates = (
      λ e. elim (str_dec a.id id) [
        | yes mine ↦ g.joined ∙ ground arith
        | no other ↦ absurd (ground arith)
      ],
      g.alternates,
    );
    joined = elim (str_dec a.id id) [
      | yes mine ↦ ground arith
      | no other ↦ elim (Option-cases (m.node_map id)) [
        | inl unknown ↦ ground (arith, g.joined)
        | inr (p, here) ↦ ground (arith, g.joined, h.valid.mapped_old id p here)
      ]
    ];
  }

  module _ (key : String) (p : ℕ) (here : m.node_map key ≡ some p) where
    own_id : (m.store p).node.id ≡ key
    own_id = h.valid.mapped_id key p here

    -- A node of another ID stands elsewhere.
    elsewhere : key ≢ id → (q : ℕ) → m.node_map id ≡ some q → p ≢ q
    elsewhere ne q there e =
        ne (sym own_id ∙ ap (λ r. (m.store r).node.id) e ∙ h.valid.mapped_id id q there)

    at_id : key ≡ id → m.node_map id ≡ some p
    at_id e = ap m.node_map (sym e) ∙ here

    pub renew_node-IsAnnounced :
        (a : Alive) (notify : Bool) → a.id ≡ key → IsAnnounced id (renew_node a notify now p m)
    unfolding renew_node renew
    renew_node-IsAnnounced a notify same_key =
        let n = m.store p in
        let node = (renew a now n).node in
        let changed = not (bytes_equal n.node.tags a.tags) in
        let sent = broadcast node.id (alive_msg a) notify ∷ m.effects in
        let joins = if dead_or_left n then notify_join node ∷ sent else sent in
        let after = is_joined-join_if id (dead_or_left n) node sent in
        let updated = is_joined-update_if id changed node joins in
        let active : key ≡ id → is_joined id m.effects ≡ not (dead_or_left n) =
          λ e. ground (arith, g.joined, at_id e) in
        let its_id : node.id ≡ key = ground (arith, own_id) in
        let mine : same node.id id ≡ true → key ≡ id = λ e. sym its_id ∙ same-≡ node.id id e in
        record {
          alternates =
              Alternates-update_if id changed node joins
                (λ e. after ∙ ground (arith, active (mine e)))
                (Alternates-join_if id (dead_or_left n) node sent
                  (λ was e. active (mine e) ∙ ground arith) g.alternates);
          joined = updated ∙ after ∙ elim (str_dec key id) [
            | yes own ↦ ground (arith, active own, at_id own, its_id)
            | no other ↦ elim (Option-cases (m.node_map id)) [
              | inl unknown ↦ ground (arith, g.joined, its_id)
              | inr (q, there) ↦ ground (arith, g.joined, its_id, elsewhere other q there)
            ]
          ];
        }

    pub refuted-IsAnnounced : (l : ℕ) → IsAnnounced id (refuted l p m)
    refuted-IsAnnounced l = record {
      alternates = g.alternates;
      joined = elim (Option-cases (m.node_map id)) [
        | inl unknown ↦ ground (arith, g.joined)
        | inr (q, there) ↦ ground (arith, g.joined)
      ];
    }

    pub first_suspect-IsAnnounced :
        (s : Suspect)
        → is_alive (m.store p).state ≡ true
        → IsAnnounced id (first_suspect c s now p m)
    unfolding first_suspect
    first_suspect-IsAnnounced s was_alive = record {
      alternates = g.alternates;
      joined = elim (Option-cases (m.node_map id)) [
        | inl unknown ↦ ground (arith, g.joined)
        | inr (q, there) ↦ ground (arith, g.joined)
      ];
    }

    pub bury-IsAnnounced :
        (d : Dead) (notify : Bool)
        → dead_or_left (m.store p) ≡ false
        → IsAnnounced id (bury d notify now p m)
    unfolding bury
    bury-IsAnnounced d notify active = record {
      alternates = (
        λ e.
            let own = at_id (sym own_id ∙ same-≡ (m.store p).node.id id e) in
            ground (arith, g.joined, own),
        g.alternates,
      );
      joined = elim (str_dec key id) [
        | yes mine ↦ ground (arith, own_id, at_id mine)
        | no other ↦ elim (Option-cases (m.node_map id)) [
          | inl unknown ↦ ground (arith, g.joined, own_id)
          | inr (q, there) ↦ ground (arith, g.joined, own_id, elsewhere other q there)
        ]
      ];
    }
