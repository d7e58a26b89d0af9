-- ===== src/Broadcast/Named/Queue.antt =====
-- broadcast.go: a new message takes the place of the older one of its name.
use Prim.Native.String.{String}
use mlist.Prelude.{
  ◌+◌, ◌%◌, ◌<◌, ◌≡◌, sym, ap, List, [], ◌∷◌, Bool, true, false, Option, none, some, arith,
  Bool-cases, Option-cases, inl, inr, subst,
}
use mlist.Prelude.Maps.{same}
use mlist.Members.Types.{Bytes}
use mlist.Broadcast.Queue.{
  TransmitCapItem, HeapOps, TransmitCapQueue, finish, invalidate, push, queue_msg,
}
use mlist.Broadcast.Named.{bit, count_of, named, has_id, both, both-le, IsHeap, Known, IsNamed}
use mlist.Broadcast.Named.Push.{same-≡, IsNamedBut, put-IsNamed, put_unnamed-IsNamed}

module _ {H : Type 0} (ops : HeapOps H) (heap : IsHeap ops) where
  removed-IsNamedBut :
      (q : TransmitCapQueue H) (name : String) (old : TransmitCapItem)
      → IsNamed ops heap q []
      → same name "" ≡ false
      → q.exists name ≡ some old
      → IsNamedBut ops heap name
          (finish ops (record q { queue = ops.remove q.queue old.id }) old)
          []
  removed-IsNamedBut q name old h ne there =
      let l = heap.items q.queue in
      let l' = heap.items (ops.remove q.queue old.id) in
      let one : count_of (both name old.id) l ≡ 1 =
        subst (λ e. Known ops heap name e l) there (h.known name ne) in
      let (i, its_id, counts) =
        heap.count_remove q.queue old.id
          (omega (arith, one, both-le name old.id l, h.id_once old.id)) in
      let hit : has_id old.id i ≡ true = ground (arith, its_id) in
      let no_id : count_of (has_id old.id) l' ≡ 0 =
        omega (arith, counts (has_id old.id), ap bit hit, h.id_once old.id) in
      let its : bit (both name old.id i) ≡ 1 =
        omega (arith, counts (both name old.id), one, both-le name old.id l', no_id) in
      let its_name : same i.name name ≡ true = ground (arith, its) in
      record {
        name_once = λ n n_ne. omega (arith, h.name_once n n_ne, counts (named n));
        id_once = λ k. omega (arith, h.id_once k, counts (has_id k));
        id_old = λ k k_old. omega (arith, h.id_old k k_old, counts (has_id k));
        known = λ n n_ne other.
            keeps n i l l' counts (q.exists n)
              (subst (λ x. same x n ≡ false) (sym (same-≡ i.name name its_name)) other)
              (h.known n n_ne);
        gone = λ n_ne. omega (arith, counts (named name), ap bit its_name, h.name_once name ne);
      }
    where
      keeps :
          (n : String) (i : TransmitCapItem) (l l' : List TransmitCapItem)
          → ((t : TransmitCapItem → Bool) → count_of t l ≡ bit (t i) + count_of t l')
          → (e : Option TransmitCapItem) → same i.name n ≡ false
          → Known ops heap n e l
          → Known ops heap n e l'
      keeps n i l l' counts none ne h = omega (arith, counts (named n))
      keeps n i l l' counts (some j) ne h = ground (arith, counts (both n j.id))

  invalidate-IsNamedBut :
      (q : TransmitCapQueue H) (item : TransmitCapItem)
      → IsNamed ops heap q []
      → same item.name "" ≡ false
      → IsNamedBut ops heap item.name (invalidate ops item q) []
  unfolding invalidate
  invalidate-IsNamedBut q item h ne = elim (Option-cases (q.exists item.name)) [
    | inl absent ↦
        rw (absent, invalidate)
          (record {
            name_once = h.name_once;
            id_once = h.id_once;
            id_old = h.id_old;
            known = λ n n_ne other. h.known n n_ne;
            gone = λ n_ne.
                subst (λ e. Known ops heap item.name e (heap.items q.queue)) absent
                  (h.known item.name ne);
          })
    | inr (old, there) ↦ rw (there, invalidate) (removed-IsNamedBut q item.name old h ne there)
  ]

  -- The new item, with the next ID.
  abbrev new_item : String → Bytes → TransmitCapQueue H → TransmitCapItem
  new_item name encoded q = record { name = name; id = q.id_seq; transmits = 0; msg = encoded }

  abbrev counted : TransmitCapQueue H → TransmitCapQueue H
  counted q = record q { id_seq = (q.id_seq + 1) % 18446744073709551616 }

  fresh-IsNamedBut :
      (q : TransmitCapQueue H) (name : String) (encoded : Bytes)
      → q.id_seq + 1 < 18446744073709551616
      → same name "" ≡ false
      → IsNamedBut ops heap name q []
      → IsNamedBut ops heap name (counted q) (new_item name encoded q ∷ [])
  fresh-IsNamedBut q name encoded room ne h = record {
    name_once = λ n n_ne. elim (Bool-cases (same name n)) [
      | inl its_own ↦ ground (
        arith,
        subst (λ x. count_of (named x) (heap.items q.queue) ≡ 0) (same-≡ name n its_own)
            (h.gone ne),
      )
      | inr other ↦ ground (arith, h.name_once n n_ne)
    ];
    id_once = λ k. ground (arith, h.id_once k, h.id_old k);
    id_old = λ k old. ground (arith, h.id_old k (omega (arith, old, room)));
    known = h.known;
    gone = h.gone;
  }

  fresh_unnamed-IsNamed :
      (q : TransmitCapQueue H) (name : String) (encoded : Bytes)
      → q.id_seq + 1 < 18446744073709551616
      → same name "" ≡ true
      → IsNamed ops heap q []
      → IsNamed ops heap (counted q) (new_item name encoded q ∷ [])
  fresh_unnamed-IsNamed q name encoded room e h = record {
    name_once = λ n n_ne. elim (Bool-cases (same name n)) [
      | inl its_own ↦
          absurd (ground (arith, subst (λ x. same x "" ≡ true) (same-≡ name n its_own) e))
      | inr other ↦ ground (arith, h.name_once n n_ne)
    ];
    id_once = λ k. ground (arith, h.id_once k, h.id_old k);
    id_old = λ k old. ground (arith, h.id_old k (omega (arith, old, room)));
    known = h.known;
  }

  -- Queueing a message keeps the queue right, as long as the counter does not wrap.
  pub queue_msg-IsNamed :
      (name : String) (msg : Option Bytes) (q : TransmitCapQueue H)
      → q.id_seq + 1 < 18446744073709551616
      → IsNamed ops heap q []
      → IsNamed ops heap (queue_msg ops name msg q) []
  unfolding queue_msg push invalidate
  queue_msg-IsNamed name none q room h = h
  queue_msg-IsNamed name (some encoded) q room h =
      let item = new_item name encoded q in
      elim (Bool-cases (same name "")) [
        | inl unnamed ↦
            rw (unnamed, queue_msg, push)
              (put_unnamed-IsNamed ops heap (counted q) item [] unnamed
                (fresh_unnamed-IsNamed q name encoded room unnamed h))
        | inr ne ↦
            let but = invalidate-IsNamedBut q item h ne in
            elim (Option-cases (q.exists name)) [
              | inl absent ↦
                  rw (ne, queue_msg, push)
                    (rw (absent, invalidate)
                      (put-IsNamed ops heap (counted q) item [] ne
                        (fresh-IsNamedBut q name encoded room ne (rw (absent, invalidate) at but))))
              | inr (old, there) ↦
                  let q1 = finish ops (record q { queue = ops.remove q.queue old.id }) old in
                  rw (ne, queue_msg, push)
                    (rw (there, invalidate)
                      (put-IsNamed ops heap (counted q1) item [] ne (
                        fresh-IsNamedBut q1 name encoded room ne
                          (removed-IsNamedBut q name old h ne there))))
            ]
      ]
