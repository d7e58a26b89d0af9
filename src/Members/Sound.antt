-- ===== src/Members/Sound.antt =====
-- Every message, and the firing of a timer, keeps the membership table well formed and this node
-- safe from its own suspicion.
use Prim.Native.String.{String}
use mlist.Prelude.{
  ℕ, ◌≡◌, ◌≢◌, ◌⊎◌, inl, inr, subst, refl, List, Bool, true, false, ◌&&◌, ◌||◌, some, arith, ltb,
  leb, Option-cases, Bool-cases,
}
use mlist.Prelude.Maps.{str_dec, same}
use mlist.Awareness.{Awareness}
use mlist.Suspicion.{TimeoutFn, Floats}
use mlist.Members.Types.{
  state_suspect, is_alive, dead_or_left, Alive, Suspect, Dead, Effect, Config, Memberlist,
}
use mlist.Members.Handlers.{
  renew_node, add_node, alive_node, ip_allowed, refute, first_suspect, suspect_known, suspect_node,
  bury, dead_known, dead_node, timeout_check, timeout_fn,
}
use mlist.Members.Valid.{IsSelfSafe, IsSound}
use mlist.Members.AddNode.{add_node-IsValid}
use mlist.Members.Changes.{
  renew_node-IsValid, refute-IsValid, first_suspect-IsValid, bury-IsValid, confirmed-IsValid,
}

-- The counter of lives, the health score and the effects are free.
pub counters-IsSound :
    (c : Config) (m : Memberlist) (n : ℕ) (a : Awareness) (es : List Effect)
    → IsSound c m
    → IsSound c (record m { lives = n; awr = a; effects = es })
counters-IsSound c m n a es h = record {
  valid = record {
    mapped_id = h.valid.mapped_id;
    mapped_old = h.valid.mapped_old;
    mapped_once = h.valid.mapped_once;
    listed = h.valid.listed;
    counted = h.valid.counted;
    watched = λ id sc s.
        let (p, w) = h.valid.watched id sc s in
        (
          p,
          record {
            same_node = w.same_node;
            suspected = w.suspected;
            for_id = w.for_id;
            for_life = w.for_life;
          },
        );
    suspects = h.valid.suspects;
  };
  self = record { calm = h.self.calm; alive = h.self.alive };
}

module _ (c : Config) (m : Memberlist) (h : IsSound c m) (now : ℕ) where
  pub add_node-IsSelfSafe :
      (a : Alive) (notify : Bool) (rnd : ℕ) → IsSelfSafe c (add_node a notify now rnd m)
  unfolding add_node
  add_node-IsSelfSafe a notify rnd = record {
    calm = λ p e. ground (arith, h.self.calm p, h.valid.mapped_old c.local_id p);
    alive = λ p e l. ground (arith, h.self.alive p, h.valid.mapped_old c.local_id p);
  }

  module _ (id : String) (p : ℕ) (here : m.node_map id ≡ some p) where
    pub renew_node-IsSelfSafe :
        (a : Alive) (notify : Bool) → IsSelfSafe c (renew_node a notify now p m)
    unfolding renew_node
    renew_node-IsSelfSafe a notify = record {
      calm = λ q e. ground (arith, h.self.calm q);
      alive = λ q e l. ground (arith, h.self.alive q);
    }

    refute-IsSelfSafe : (lives : ℕ) {m' : Memberlist} → refute p lives m ≡ some m' → IsSelfSafe c m'
    unfolding refute
    refute-IsSelfSafe lives e = record {
      calm = λ q e'. ground (arith, h.self.calm q);
      alive = λ q e' l. ground (arith, h.self.alive q);
    }

    elsewhere : id ≢ c.local_id → m.node_map c.local_id ≢ some p
    elsewhere ne e =
        ne (ground (arith, h.valid.mapped_id id p here, h.valid.mapped_id c.local_id p e))

    first_suspect-IsSelfSafe :
        (s : Suspect) → id ≢ c.local_id → IsSelfSafe c (first_suspect c s now p m)
    unfolding first_suspect
    first_suspect-IsSelfSafe s ne = record {
      calm = λ q e. ground (arith, h.self.calm q, elsewhere ne);
      alive = λ q e l. ground (arith, h.self.alive q, elsewhere ne);
    }

    bury-IsSelfSafe :
        (d : Dead) (notify : Bool)
        → (m.left ≡ true) ⊎ (id ≢ c.local_id)
        → IsSelfSafe c (bury d notify now p m)
    unfolding bury
    bury-IsSelfSafe d notify off = record {
      calm = λ q e. ground (arith, h.self.calm q);
      alive = λ q e l. ground (arith, h.self.alive q, elsewhere);
    }

  pub alive_node-IsSound :
      (a : Alive) (notify : Bool) (rnd : ℕ) → IsSound c (alive_node c a notify now rnd m)
  unfolding alive_node
  alive_node-IsSound a notify rnd = elim (Bool-cases (m.left && same a.id c.local_id)) [
    | inl gone ↦ rw gone h
    | inr on ↦ rw on (elim (Bool-cases (ip_allowed c a.ip)) [
      | inr blocked ↦ rw blocked h
      | inl allowed ↦ rw allowed (elim (Option-cases (m.node_map a.id)) [
        | inl absent ↦ rw absent (record {
          valid = add_node-IsValid m h.valid a notify now rnd absent;
          self = add_node-IsSelfSafe a notify rnd;
        })
        | inr (p, here) ↦ rw here (elim (Bool-cases (leb a.lives (m.store p).lives)) [
          | inl old ↦ rw old h
          | inr newer ↦ rw newer (record {
            valid = renew_node-IsValid m h.valid now a.id p here a notify refl;
            self = renew_node-IsSelfSafe a.id p here a notify;
          })
        ])
      ])
    ])
  ]

  refute-IsSound :
      (id : String) (p : ℕ)
      → m.node_map id ≡ some p
      → (lives : ℕ) {m' : Memberlist} → (m.store p).state ≢ state_suspect
      → refute p lives m ≡ some m'
      → IsSound c m'
  refute-IsSound id p here lives ne e = record {
    valid = refute-IsValid m h.valid now id p here lives ne e;
    self = refute-IsSelfSafe id p here lives e;
  }

  pub dead_node-IsSound :
      (d : Dead) (notify : Bool) {m' : Memberlist}
      → dead_node c d notify now m ≡ some m'
      → IsSound c m'
  unfolding dead_node dead_known
  dead_node-IsSound d notify e = elim (Option-cases (m.node_map d.id)) [
    | inl absent ↦ subst (IsSound c) (ground arith) h
    | inr (p, here) ↦
        elim (Bool-cases (ltb d.lives (m.store p).lives || dead_or_left (m.store p))) [
          | inl late ↦ subst (IsSound c) (ground arith) h
          | inr fresh ↦ elim (str_dec d.id c.local_id) [
            | no far ↦ subst (IsSound c) (ground arith) (buried p here (inr far))
            | yes near ↦ elim (Bool-cases m.left) [
              | inl gone ↦ subst (IsSound c) (ground arith) (buried p here (inl gone))
              | inr on ↦
                  refute-IsSound d.id p here d.lives (h.self.calm p (ground arith)) (ground arith)
            ]
          ]
        ]
  ]
    where
      buried :
          (p : ℕ)
          → m.node_map d.id ≡ some p
          → (m.left ≡ true) ⊎ (d.id ≢ c.local_id)
          → IsSound c (bury d notify now p m)
      buried p here off = record {
        valid = bury-IsValid m h.valid now d.id p here d notify refl;
        self = bury-IsSelfSafe d.id p here d notify off;
      }

  pub timeout_fn-IsSound :
      (f : TimeoutFn) {m' : Memberlist} → timeout_fn c f now m ≡ some m' → IsSound c m'
  unfolding timeout_fn
  timeout_fn-IsSound f e = elim (Option-cases (timeout_check f m)) [
    | inl stale ↦ subst (IsSound c) (ground arith) h
    | inr (d, due) ↦ dead_node-IsSound d false (ground arith)
  ]

  pub suspect_node-IsSound :
      {F : Type 0} (fl : Floats F) (s : Suspect) {m' : Memberlist}
      → suspect_node fl c s now m ≡ some m'
      → IsSound c m'
  unfolding suspect_node suspect_known
  suspect_node-IsSound fl s e = elim (Option-cases (m.node_map s.id)) [
    | inl absent ↦ subst (IsSound c) (ground arith) h
    | inr (p, here) ↦ elim (Bool-cases (ltb s.lives (m.store p).lives)) [
      | inl late ↦ subst (IsSound c) (ground arith) h
      | inr fresh ↦ elim (Option-cases (m.suspicions s.id)) [
        | inr (sc, known) ↦ subst (IsSound c) (ground arith) (record {
          valid = confirmed-IsValid m h.valid now s.id p here fl s sc refl known;
          self = record { calm = h.self.calm; alive = h.self.alive };
        })
        | inl new ↦ elim (Bool-cases (is_alive (m.store p).state)) [
          | inr down ↦ subst (IsSound c) (ground arith) h
          | inl up ↦ elim (str_dec s.id c.local_id) [
            | yes near ↦
                refute-IsSound s.id p here s.lives (h.self.calm p (ground arith)) (ground arith)
            | no far ↦ subst (IsSound c) (ground arith) (record {
              valid = first_suspect-IsValid m h.valid now s.id p here c s refl;
              self = first_suspect-IsSelfSafe s.id p here s far;
            })
          ]
        ]
      ]
    ]
  ]
