-- ===== src/Members/Replace.antt =====
-- A change of one node in place keeps the table well formed, if the node keeps its ID and its
-- suspicion is set and dropped with its state. The other handlers are such changes.
use Prim.Native.String.{String}
use mlist.Prelude.{ℕ, ◌≡◌, ◌≢◌, ◌∙◌, sym, List, Option, none, some, arith}
use mlist.Prelude.Maps.{str_dec}
use mlist.Awareness.{Awareness}
use mlist.Suspicion.{Suspicion}
use mlist.Members.Types.{state_suspect, NodeState, Effect, Memberlist}
use mlist.Members.Valid.{IsWatched, IsValid}

-- The suspicion that belongs to a node in a given state.
pub data Settled (id : String) (n : NodeState) (o : Option Suspicion) : Type 0 where
  calm : n.state ≢ state_suspect → o ≡ none → Settled id n o
  tense :
      (sc : Suspicion)
      → n.state ≡ state_suspect
      → o ≡ some sc
      → sc.timeout_fn.id ≡ id
      → sc.timeout_fn.lives ≡ n.lives
      → Settled id n o

module _ (m : Memberlist) (v : IsValid m) (id : String) (p : ℕ) (here : m.node_map id ≡ some p)
    (store : ℕ → NodeState) (keeps_id : (store p).node.id ≡ id)
    (elsewhere : (q : ℕ) → p ≢ q → store q ≡ m.store q) (sus : String → Option Suspicion)
    (others : (j : String) → id ≢ j → sus j ≡ m.suspicions j)
    (settled : Settled id (store p) (sus id)) (lives : ℕ) (awr : Awareness)
    (effects : List Effect) where
  abbrev replaced : Memberlist
  replaced = record m {
    store = store;
    suspicions = sus;
    lives = lives;
    awr = awr;
    effects = effects;
  }

  -- Another ID has another address.
  apart : (j : String) (q : ℕ) → m.node_map j ≡ some q → id ≢ j → p ≢ q
  apart j q e ne pq =
      let at_p : (m.store p).node.id ≡ id = v.mapped_id id p here in
      let at_q : (m.store q).node.id ≡ j = v.mapped_id j q e in ne (ground arith)

  Settled-IsWatched :
      (sc : Suspicion)
      → Settled id (store p) (sus id)
      → sus id ≡ some sc
      → IsWatched replaced id sc p
  Settled-IsWatched sc (calm _ e) h = absurd (ground arith)
  Settled-IsWatched sc (tense sc' s e i l) h = record {
    same_node = here;
    suspected = ground arith;
    for_id = ground arith;
    for_life = ground arith;
  }

  replaced-IsWatched :
      (j : String) (sc : Suspicion) → sus j ≡ some sc → (q : ℕ) × IsWatched replaced j sc q
  replaced-IsWatched j sc e = elim (str_dec id j) [
    | yes same ↦ (p, ground (arith, Settled-IsWatched sc settled))
    | no ne ↦
        let (q, w) = v.watched j sc (sym (others j ne) ∙ e) in
        let away = apart j q w.same_node ne in
        (
          q,
          record {
            same_node = w.same_node;
            suspected = ground (arith, w.suspected, elsewhere q);
            for_id = w.for_id;
            for_life = ground (arith, w.for_life, elsewhere q);
          },
        )
  ]

  Settled-suspects :
      Settled id (store p) (sus id)
      → (store p).state ≡ state_suspect
      → (sc : Suspicion) × (sus id ≡ some sc)
  Settled-suspects (calm ne _) s = absurd (ne s)
  Settled-suspects (tense sc _ e _ _) s = (sc, e)

  replaced-suspects :
      (j : String) (q : ℕ)
      → m.node_map j ≡ some q
      → (replaced.store q).state ≡ state_suspect
      → (sc : Suspicion) × (sus j ≡ some sc)
  replaced-suspects j q e s = elim (str_dec id j) [
    | yes same ↦ let (sc, h) = Settled-suspects settled (ground arith) in (sc, ground arith)
    | no ne ↦
        let away = apart j q e ne in
        let (sc, h) = v.suspects j q e (ground (arith, elsewhere q)) in (sc, others j ne ∙ h)
  ]

  pub replaced-IsValid : IsValid replaced
  replaced-IsValid = record {
    mapped_id =
        λ j q e. ground (arith, v.mapped_id j q, v.mapped_id id p here, keeps_id, elsewhere q);
    mapped_old = v.mapped_old;
    mapped_once = v.mapped_once;
    listed = λ q h. ground (arith, v.listed q h, v.mapped_id id p here, keeps_id, elsewhere q);
    counted = v.counted;
    watched = replaced-IsWatched;
    suspects = replaced-suspects;
  }
