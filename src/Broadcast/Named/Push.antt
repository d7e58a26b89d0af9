-- ===== src/Broadcast/Named/Push.antt =====
-- broadcast.go: what `Push`, `QueueMsg`, `GetMessages` and `Resize` do to the names and IDs in the queue.
use Prim.Native.String.{String}
use mlist.Prelude.{
  ℕ, ◌+◌, ◌≤◌, ◌≡◌, refl, List, ◌∷◌, Bool, true, false, Option, none, some, arith, Bool-cases,
  Option-cases, inl, inr, if_pos, if_neg, subst,
}
use mlist.Prelude.Maps.{str_dec, same, insert}
use mlist.Broadcast.Queue.{TransmitCapItem, HeapOps, TransmitCapQueue, invalidate, push}
use mlist.Broadcast.Named.{
  bit, count_of, named, has_id, both, both-le, same-yes, same-no, IsHeap, Known, IsNamed,
}

pub same-≡ : (s t : String) → same s t ≡ true → s ≡ t
same-≡ s t e = elim (str_dec s t) [ yes p ↦ p | no p ↦ absurd (ground (arith, same-no s t p)) ]

module _ {H : Type 0} (ops : HeapOps H) (heap : IsHeap ops) where
  -- The map is right for each name but one, which no item in the heap has.
  pub record IsNamedBut (name : String) (q : TransmitCapQueue H) (floating : List TransmitCapItem)
      : Type 0 where
    pub name_once :
        (n : String)
        → same n "" ≡ false
        → count_of (named n) (heap.items q.queue) + count_of (named n) floating ≤ 1
    pub id_once :
        (k : ℕ) → count_of (has_id k) (heap.items q.queue) + count_of (has_id k) floating ≤ 1
    pub id_old :
        (k : ℕ)
        → q.id_seq ≤ k
        → count_of (has_id k) (heap.items q.queue) + count_of (has_id k) floating ≡ 0
    pub known :
        (n : String)
        → same n "" ≡ false
        → same name n ≡ false
        → Known ops heap n (q.exists n) (heap.items q.queue)
    pub gone : same name "" ≡ false → count_of (named name) (heap.items q.queue) ≡ 0

  abbrev pub put : TransmitCapQueue H → TransmitCapItem → TransmitCapQueue H
  put q i = record q { queue = ops.push q.queue i; exists = insert str_dec i.name i q.exists }

  Known-insert :
      (n : String) (i : TransmitCapItem) (exists : String → Option TransmitCapItem)
      (l l' : List TransmitCapItem)
      → ((t : TransmitCapItem → Bool) → count_of t l' ≡ bit (t i) + count_of t l)
      → (same i.name n ≡ true → count_of (named n) l ≡ 0)
      → (same i.name n ≡ false → Known ops heap n (exists n) l)
      → Known ops heap n (insert str_dec i.name i exists n) l'
  Known-insert n i exists l l' counts fresh h = elim (str_dec i.name n) [
    | yes p ↦ rw (if_pos _ p) (
        ground (
          arith,
          counts (both n i.id),
          both-le n i.id l,
          fresh (same-yes i.name n p),
          same-yes i.name n p,
        ))
    | no p ↦ rw (if_neg _ p) (keeps (exists n) (same-no i.name n p) (h (same-no i.name n p)))
  ]
    where
      keeps :
          (e : Option TransmitCapItem)
          → same i.name n ≡ false
          → Known ops heap n e l
          → Known ops heap n e l'
      keeps none other h = ground (arith, counts (named n))
      keeps (some j) other h = ground (arith, counts (both n j.id))

  pub put-IsNamed :
      (q : TransmitCapQueue H) (i : TransmitCapItem) (f : List TransmitCapItem)
      → same i.name "" ≡ false
      → IsNamedBut i.name q (i ∷ f)
      → IsNamed ops heap (put q i) f
  put-IsNamed q i f ne h =
      let counts = λ (t : TransmitCapItem → Bool). heap.count_push q.queue i t in
      record {
        name_once = λ n n_ne. omega (arith, h.name_once n n_ne, counts (named n));
        id_once = λ k. omega (arith, h.id_once k, counts (has_id k));
        id_old = λ k old. omega (arith, h.id_old k old, counts (has_id k));
        known = λ n n_ne.
            Known-insert n i q.exists (heap.items q.queue) (heap.items (ops.push q.queue i)) counts
              (λ e.
                subst (λ x. count_of (named x) (heap.items q.queue) ≡ 0) (same-≡ i.name n e)
                  (h.gone ne))
              (λ other. h.known n n_ne other);
      }

  -- A message with no name is in the heap only.
  pub put_unnamed-IsNamed :
      (q : TransmitCapQueue H) (i : TransmitCapItem) (f : List TransmitCapItem)
      → same i.name "" ≡ true
      → IsNamed ops heap q (i ∷ f)
      → IsNamed ops heap (record q { queue = ops.push q.queue i }) f
  put_unnamed-IsNamed q i f e h =
      let counts = λ (t : TransmitCapItem → Bool). heap.count_push q.queue i t in
      record {
        name_once = λ n n_ne. omega (arith, h.name_once n n_ne, counts (named n));
        id_once = λ k. omega (arith, h.id_once k, counts (has_id k));
        id_old = λ k old. omega (arith, h.id_old k old, counts (has_id k));
        known = λ n n_ne. keeps n (q.exists n) (other n n_ne) (h.known n n_ne);
      }
    where
      other : (n : String) → same n "" ≡ false → same i.name n ≡ false
      other n ne = elim (Bool-cases (same i.name n)) [
        | inl yes_same ↦
            absurd (ground (arith, subst (λ x. same x "" ≡ true) (same-≡ i.name n yes_same) e))
        | inr differs ↦ differs
      ]

      keeps :
          (n : String) (e : Option TransmitCapItem)
          → same i.name n ≡ false
          → Known ops heap n e (heap.items q.queue)
          → Known ops heap n e (heap.items (ops.push q.queue i))
      keeps n none ne h = ground (arith, heap.count_push q.queue i (named n))
      keeps n (some j) ne h = ground (arith, heap.count_push q.queue i (both n j.id))

  -- Nothing of a floating item's name is in the heap.
  floating-IsNamedBut :
      (q : TransmitCapQueue H) (i : TransmitCapItem) (f : List TransmitCapItem)
      → IsNamed ops heap q (i ∷ f)
      → IsNamedBut i.name q (i ∷ f)
  floating-IsNamedBut q i f h = record {
    name_once = h.name_once;
    id_once = h.id_once;
    id_old = h.id_old;
    known = λ n ne other. h.known n ne;
    gone = λ ne. ground (arith, h.name_once i.name ne, same-yes i.name i.name refl);
  }

  not-Known :
      (n : String) (q : TransmitCapQueue H) (old : TransmitCapItem)
      → count_of (named n) (heap.items q.queue) ≡ 0
      → Known ops heap n (some old) (heap.items q.queue)
      → ⊥
  not-Known n q old none_left h = omega (arith, none_left, h, both-le n old.id (heap.items q.queue))

  -- A floating item is pushed back as it is: no message of its name has come meanwhile.
  pub push-IsNamed :
      (q : TransmitCapQueue H) (i : TransmitCapItem) (f : List TransmitCapItem)
      → IsNamed ops heap q (i ∷ f)
      → IsNamed ops heap (push ops q i) f
  unfolding push invalidate
  push-IsNamed q i f h = elim (Bool-cases (same i.name "")) [
    | inl unnamed ↦ rw (unnamed, push) (put_unnamed-IsNamed q i f unnamed h)
    | inr ne ↦
        let but = floating-IsNamedBut q i f h in
        elim (Option-cases (q.exists i.name)) [
          | inl absent ↦ rw (ne, push) (rw (absent, invalidate) (put-IsNamed q i f ne but))
          | inr (old, there) ↦ absurd (
              not-Known i.name q old (but.gone ne) (
                subst (λ e. Known ops heap i.name e (heap.items q.queue)) there
                  (h.known i.name ne)))
        ]
  ]
