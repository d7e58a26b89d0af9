-- ===== src/Broadcast/Limits.antt =====
-- broadcast.go: how often a message is sent.
use Prim.Native.String.{String}
use mlist.Prelude.{
  ℕ, ◌+◌, ◌%◌, ◌≡◌, refl, ap, sym, ◌∙◌, subst, Bool, false, ◌&&◌, Option, none, some, arith, ltb,
  leb, Bool-cases, Option-cases, inl, inr,
}
use mlist.Prelude.Maps.{str_dec, same, insert, delete}
use mlist.Members.Types.{Bytes}
use mlist.Broadcast.Queue.{
  TransmitCapItem, HeapOps, TransmitCapQueue, finish, bump, invalidate, push, pop, queue_msg,
}
use mlist.Broadcast.Named.{count_of, IsHeap}

-- A waiting message that was sent must have been sent less often than the limit; a finished one at most as
-- often, or once.
abbrev pub over : ℕ → TransmitCapItem → Bool
over limit i = ltb 0 i.transmits && leb limit i.transmits

abbrev pub beyond : ℕ → TransmitCapItem → Bool
beyond limit i = ltb 1 i.transmits && ltb limit i.transmits

module _ {H : Type 0} (ops : HeapOps H) (heap : IsHeap ops) (scale limit : ℕ) where
  pub record IsLimited (q : TransmitCapQueue H) : Type 0 where
    pub same_scale : q.transmit_scale ≡ scale
    pub waiting : count_of (over limit) (heap.items q.queue) ≡ 0
    pub known : (n : String) (i : TransmitCapItem) → q.exists n ≡ some i → over limit i ≡ false
    pub done : count_of (beyond limit) q.finished ≡ 0

  pub not-beyond : (i : TransmitCapItem) → over limit i ≡ false → beyond limit i ≡ false
  not-beyond i h = ground arith

  pub bump-not-beyond : (i : TransmitCapItem) → over limit i ≡ false → beyond limit (bump i) ≡ false
  bump-not-beyond i h = ground arith

  pub finish-IsLimited :
      (q : TransmitCapQueue H) (i : TransmitCapItem)
      → beyond limit i ≡ false
      → IsLimited q
      → IsLimited (finish ops q i)
  finish-IsLimited q i ok h = record {
    same_scale = h.same_scale;
    waiting = h.waiting;
    known = h.known;
    done = ground (arith, h.done);
  }

  removed-IsLimited :
      (q : TransmitCapQueue H) (k : ℕ)
      → IsLimited q
      → IsLimited (record q { queue = ops.remove q.queue k })
  removed-IsLimited q k h = record {
    same_scale = h.same_scale;
    waiting = omega (arith, h.waiting, heap.remove_adds_none q.queue k (over limit));
    known = h.known;
    done = h.done;
  }

  invalidate-IsLimited :
      (q : TransmitCapQueue H) (i : TransmitCapItem) → IsLimited q → IsLimited (invalidate ops i q)
  unfolding invalidate
  invalidate-IsLimited q i h = elim (Option-cases (q.exists i.name)) [
    | inl absent ↦ rw (absent, invalidate) h
    | inr (old, there) ↦
        rw (there, invalidate)
          (finish-IsLimited (record q { queue = ops.remove q.queue old.id }) old
            (not-beyond old (h.known i.name old there)) (removed-IsLimited q old.id h))
  ]

  heaped-IsLimited :
      (q : TransmitCapQueue H) (i : TransmitCapItem)
      → over limit i ≡ false
      → IsLimited q
      → IsLimited (record q { queue = ops.push q.queue i })
  heaped-IsLimited q i ok h = record {
    same_scale = h.same_scale;
    waiting = ground (arith, h.waiting, heap.count_push q.queue i (over limit));
    known = h.known;
    done = h.done;
  }

  inserted-IsLimited :
      (q : TransmitCapQueue H) (i : TransmitCapItem) (exists : String → Option TransmitCapItem)
      → over limit i ≡ false
      → ((n : String) (j : TransmitCapItem) → exists n ≡ some j → over limit j ≡ false)
      → IsLimited q
      → IsLimited (record q { exists = insert str_dec i.name i exists })
  inserted-IsLimited q i exists ok others h = record {
    same_scale = h.same_scale;
    waiting = h.waiting;
    known = λ n j e. ground (arith, others n j);
    done = h.done;
  }

  pub push-IsLimited :
      (q : TransmitCapQueue H) (i : TransmitCapItem)
      → over limit i ≡ false
      → IsLimited q
      → IsLimited (push ops q i)
  unfolding push
  push-IsLimited q i ok h = elim (Bool-cases (same i.name "")) [
    | inl unnamed ↦ rw (unnamed, push) (heaped-IsLimited q i ok h)
    | inr named ↦
        let q1 = invalidate ops i q in
        rw (named, push)
          (heaped-IsLimited (record q1 { exists = insert str_dec i.name i q.exists }) i ok
            (inserted-IsLimited q1 i q.exists ok h.known (invalidate-IsLimited q i h)))
  ]

  taken-IsLimited :
      (q : TransmitCapQueue H) (h' : H) (i : TransmitCapItem)
      → ops.pop q.queue ≡ some (i, h')
      → IsLimited q
      → IsLimited (record q { queue = h'; exists = delete str_dec i.name q.exists })
        × (over limit i ≡ false)
  taken-IsLimited q h' i e h =
      let counts = heap.count_pop q.queue h' i (over limit) e in
      (
        record {
          same_scale = h.same_scale;
          waiting = omega (arith, h.waiting, counts);
          known = λ n j there. ground (arith, h.known n j);
          done = h.done;
        },
        ground (arith, h.waiting, counts),
      )

  pub pop-IsLimited :
      (q q' : TransmitCapQueue H) (i : TransmitCapItem)
      → pop ops q ≡ some (i, q')
      → IsLimited q
      → IsLimited q' × (over limit i ≡ false)
  unfolding pop
  pop-IsLimited q q' i e h = elim (Option-cases (ops.pop q.queue)) [
    | inl bad ↦ absurd (ground arith)
    | inr ((i0, h'), got) ↦
        let same_item : i0 ≡ i = ground arith in
        let same_queue : record q { queue = h'; exists = delete str_dec i0.name q.exists } ≡ q' =
          ground arith in
        let (rest, under) = taken-IsLimited q h' i0 got h in
        (subst IsLimited same_queue rest, ap (over limit) (sym same_item) ∙ under)
  ]

  counted_up-IsLimited :
      (q : TransmitCapQueue H) (n : ℕ) → IsLimited q → IsLimited (record q { id_seq = n })
  counted_up-IsLimited q n h = record {
    same_scale = h.same_scale;
    waiting = h.waiting;
    known = h.known;
    done = h.done;
  }

  pub queue_msg-IsLimited :
      (name : String) (msg : Option Bytes) (q : TransmitCapQueue H)
      → IsLimited q
      → IsLimited (queue_msg ops name msg q)
  unfolding queue_msg
  queue_msg-IsLimited name none q h = h
  queue_msg-IsLimited name (some encoded) q h =
      push-IsLimited (record q { id_seq = (q.id_seq + 1) % 18446744073709551616 })
        (record { name = name; id = q.id_seq; transmits = 0; msg = encoded }) refl
        (counted_up-IsLimited q ((q.id_seq + 1) % 18446744073709551616) h)
