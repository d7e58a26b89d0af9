-- ===== src/Members/AddNode.antt =====
-- `aliveNode` for an ID that is not in the table: the new node keeps the table well formed.
use Prim.Native.String.{String}
use mlist.Prelude.{
  ℕ, ◌+◌, ◌-◌, ◌≤◌, ◌<◌, ◌≡◌, ◌∙◌, [], ◌∷◌, ◌++◌, Bool, none, some, ite, ℕ_discrete, arith, length,
  length-append, count, count-append,
}
use mlist.Prelude.Slices.{count-swap, length-swap}
use mlist.Suspicion.{Suspicion}
use mlist.Members.Types.{state_suspect, Alive, Memberlist}
use mlist.Members.Handlers.{rand_int_n, add_node}
use mlist.Members.Valid.{IsWatched, IsValid}

rand_int_n-le : (n rnd : ℕ) → rand_int_n n rnd ≤ n
unfolding rand_int_n
rand_int_n-le n rnd = ground arith

module _ (m : Memberlist) (v : IsValid m) (a : Alive) (notify : Bool) (now rnd : ℕ)
    (absent : m.node_map a.id ≡ none) where
  abbrev added : Memberlist
  added = add_node a notify now rnd m

  next_unlisted : count ℕ_discrete m.next m.nodes ≡ 0
  next_unlisted = grind (arith, v.listed m.next, v.mapped_old)

  count-added :
      (p : ℕ)
      → count ℕ_discrete p added.nodes ≡ count ℕ_discrete p m.nodes + ite (ℕ_discrete p m.next) 1 0
  unfolding add_node count
  count-added p =
      let n = length (m.nodes ++ m.next ∷ []) - 1 in
      let len = length-append m.nodes (m.next ∷ []) in
      count-swap p (m.nodes ++ m.next ∷ []) (rand_int_n n rnd) n
        (omega (arith, rand_int_n-le n rnd)) (omega arith)
      ∙ (count-append ℕ_discrete p m.nodes (m.next ∷ []) ∙ ground arith)

  length-added : length added.nodes ≡ length m.nodes + 1
  unfolding add_node
  length-added = length-swap _ _ _ ∙ length-append m.nodes (m.next ∷ [])

  added-mapped_id :
      (id : String) (p : ℕ) → added.node_map id ≡ some p → (added.store p).node.id ≡ id
  unfolding add_node
  added-mapped_id id p e = ground (arith, v.mapped_id id p, v.mapped_old id p)

  added-mapped_once :
      (id : String) (p : ℕ) → added.node_map id ≡ some p → count ℕ_discrete p added.nodes ≡ 1
  unfolding add_node
  added-mapped_once id p e =
      ground (arith, count-added p, next_unlisted, v.mapped_once id p, v.mapped_old id p)

  added-listed :
      (p : ℕ) → 0 < count ℕ_discrete p added.nodes → added.node_map (added.store p).node.id ≡ some p
  unfolding add_node
  added-listed p h = ground (arith, count-added p, next_unlisted, v.listed p, absent)

  added-IsWatched :
      (id : String) (sc : Suspicion)
      → added.suspicions id ≡ some sc
      → (p : ℕ) × IsWatched added id sc p
  unfolding add_node
  added-IsWatched id sc e =
      let (p, w) = v.watched id sc e in
      let old = v.mapped_old id p w.same_node in
      (
        p,
        record {
          same_node = ground (arith, w.same_node, absent);
          suspected = ground (arith, w.suspected);
          for_id = w.for_id;
          for_life = ground (arith, w.for_life);
        },
      )

  added-suspects :
      (id : String) (p : ℕ)
      → added.node_map id ≡ some p
      → (added.store p).state ≡ state_suspect
      → (sc : Suspicion) × (added.suspicions id ≡ some sc)
  unfolding add_node
  added-suspects id p e s =
      v.suspects id p (ground (arith, v.mapped_old id p)) (ground (arith, v.mapped_old id p))

  pub add_node-IsValid : IsValid added
  unfolding add_node
  add_node-IsValid = record {
    mapped_id = added-mapped_id;
    mapped_old = λ id p e. ground (arith, v.mapped_old id p);
    mapped_once = added-mapped_once;
    listed = added-listed;
    counted = omega (arith, length-added, v.counted);
    watched = added-IsWatched;
    suspects = added-suspects;
  }
