-- ===== src/Members/Changes.antt =====
-- Each way in which a message changes a known node keeps the membership table well formed.
use Prim.Native.String.{String}
use mlist.Prelude.{ℕ, suc, ◌≡◌, ◌≢◌, inl, inr, subst, refl, Bool, none, some, arith, Option-cases}
use mlist.Suspicion.{Suspicion, Floats, confirm}
use mlist.Suspicion.Confirms.{confirm-timeout_fn}
use mlist.Members.Types.{state_suspect, Alive, Suspect, Dead, Config, Memberlist}
use mlist.Members.Handlers.{
  renew_node, refute, refute_loop, next_live_no, refuted, confirmed, start_suspicion, first_suspect,
  bury,
}
use mlist.Members.Valid.{IsValid}
use mlist.Members.Replace.{calm, tense, replaced-IsValid}

module _ (m : Memberlist) (v : IsValid m) (now : ℕ) where
  module _ (id : String) (p : ℕ) (here : m.node_map id ≡ some p) where
    pub renew_node-IsValid :
        (a : Alive) (notify : Bool) → a.id ≡ id → IsValid (renew_node a notify now p m)
    unfolding renew_node
    renew_node-IsValid a notify e =
        let m' = renew_node a notify now p m in
        replaced-IsValid m v id p here m'.store (ground (arith, v.mapped_id id p here))
          (λ q ne. ground arith) m'.suspicions (λ j ne. ground arith)
          (calm (λ s. ground arith) (ground arith)) m'.lives m'.awr m'.effects

    unsuspected : (m.store p).state ≢ state_suspect → m.suspicions id ≡ none
    unsuspected ne = elim (Option-cases (m.suspicions id)) [
      | inl e ↦ e
      | inr (sc, e) ↦ let (q, w) = v.watched id sc e in absurd (ne (ground (arith, w)))
    ]

    refuted-IsValid : (l : ℕ) → (m.store p).state ≢ state_suspect → IsValid (refuted l p m)
    refuted-IsValid l ne =
        let m' = refuted l p m in
        replaced-IsValid m v id p here m'.store (ground (arith, v.mapped_id id p here))
          (λ q far. ground arith) m.suspicions (λ j far. refl)
          (calm (λ s. ne (ground arith)) (unsuspected ne)) m'.lives m'.awr m'.effects

    pub refute-IsValid :
        (lives : ℕ) {m' : Memberlist}
        → (m.store p).state ≢ state_suspect
        → refute p lives m ≡ some m'
        → IsValid m'
    unfolding refute
    refute-IsValid lives ne e =
        elim (Option-cases (refute_loop (suc lives) lives (next_live_no m.lives))) [
          | inl stuck ↦ absurd (ground arith)
          | inr (l, done) ↦ subst IsValid (ground arith) (refuted-IsValid l ne)
        ]

    pub first_suspect-IsValid :
        (c : Config) (s : Suspect) → s.id ≡ id → IsValid (first_suspect c s now p m)
    unfolding first_suspect start_suspicion
    first_suspect-IsValid c s e =
        let m' = first_suspect c s now p m in
        replaced-IsValid m v id p here m'.store (ground (arith, v.mapped_id id p here))
          (λ q far. ground arith) m'.suspicions (λ j far. ground arith)
          (tense (start_suspicion c s now m.num_nodes) (ground arith) (ground arith) e
            (ground arith))
          m'.lives m'.awr m'.effects

    pub bury-IsValid : (d : Dead) (notify : Bool) → d.id ≡ id → IsValid (bury d notify now p m)
    unfolding bury
    bury-IsValid d notify e =
        let m' = bury d notify now p m in
        replaced-IsValid m v id p here m'.store (ground (arith, v.mapped_id id p here))
          (λ q ne. ground arith) m'.suspicions (λ j ne. ground arith)
          (calm (λ s. ground arith) (ground arith)) m'.lives m'.awr m'.effects

    module _ {F : Type 0} (fl : Floats F) where
      pub confirmed-IsValid :
          (s : Suspect) (sc : Suspicion)
          → s.id ≡ id
          → m.suspicions id ≡ some sc
          → IsValid (confirmed s (confirm fl sc s.from now) m)
      confirmed-IsValid s sc same_id e =
          let m' = confirmed s (confirm fl sc s.from now) m in
          let (q, w) = v.watched id sc e in
          let fn = confirm-timeout_fn fl sc s.from now in
          replaced-IsValid m v id p here m.store (v.mapped_id id p here) (λ q far. refl)
            m'.suspicions (λ j far. ground arith)
            (tense (confirm fl sc s.from now).suspicion (ground (arith, w)) (ground arith)
              (ground (arith, w)) (ground (arith, w)))
            m'.lives m'.awr m'.effects
