-- ===== src/Tests/Broadcast.antt =====
-- A queue on a stack, in which a message replaces another of its name.
use mlist.Prelude.{
  ℕ, ◌+◌, ◌≤◌, ◌≡◌, refl, List, [], ◌∷◌, Bool, some, arith, ◌==◌, Bool-cases, inl, inr,
}
use mlist.Prelude.Maps.{str_dec}
use mlist.Broadcast.Queue.{
  TransmitCapItem, new_broadcast_queue, queue_msg, push, pop, invalidate, get_messages, pick,
  push_all, send_all, transmit_limit,
}
use mlist.Broadcast.Named.{bit, count_of, has_id, IsHeap, IsNamed}
use mlist.Broadcast.Named.Run.{
  QueueOp, queues, gets, resizes, apply_op, apply_ops, apply_ops-IsNamed,
}
use mlist.Broadcast.Limits.{IsLimited}
use mlist.Broadcast.LimitRuns.{apply_ops-IsLimited}
use mlist.Tests.Parts.{stack, first, without}

first-counts :
    (t : TransmitCapItem → Bool) (h h' : List TransmitCapItem) (i : TransmitCapItem)
    → first h ≡ some (i, h')
    → count_of t h ≡ bit (t i) + count_of t h'
first-counts t [] h' i e = absurd (ground arith)
first-counts t (j ∷ is) h' i e = ground arith

without-none : (l : List TransmitCapItem) (k : ℕ) → count_of (has_id k) l ≡ 0 → without l k ≡ l
without-none [] k e = refl
without-none (i ∷ is) k e = ground (arith, without-none is k)

without-counts :
    (l : List TransmitCapItem) (k : ℕ)
    → count_of (has_id k) l ≡ 1
    → (i : TransmitCapItem) × (i.id ≡ k)
      × ((t : TransmitCapItem → Bool) → count_of t l ≡ bit (t i) + count_of t (without l k))
without-counts [] k e = absurd (omega arith)
without-counts (i ∷ is) k e = elim (Bool-cases (i.id == k)) [
  | inl it ↦ (i, ground arith, λ t. ground (arith, without-none is k))
  | inr other ↦
      let (j, same_id, counts) = without-counts is k (ground arith) in
      (j, same_id, λ t. ground (arith, counts t))
]

without-le :
    (l : List TransmitCapItem) (k : ℕ) (t : TransmitCapItem → Bool)
    → count_of t (without l k) ≤ count_of t l
without-le [] k t = omega arith
without-le (i ∷ is) k t = ground (arith, without-le is k t)

pub stack-IsHeap : IsHeap stack
stack-IsHeap = record {
  items = λ h. h;
  items_empty = refl;
  size_items = λ h. refl;
  count_push = λ h i t. refl;
  count_pop = λ h h' i t e. first-counts t h h' i e;
  count_remove = λ h k e. without-counts h k e;
  remove_adds_none = λ h k t. without-le h k t;
}

abbrev calls : List QueueOp
calls =
    queues "b" (some (5 ∷ 1 ∷ []))
    ∷ queues "c" (some (4 ∷ 2 ∷ []))
    ∷ queues "b" (some (4 ∷ 3 ∷ []))
    ∷ gets 3 2 60
    ∷ resizes 1
    ∷ []

apply_ops-IsNamed_example :
    IsNamed stack stack-IsHeap (apply_ops stack (λ n. n) calls (new_broadcast_queue stack 2)) []
unfolding apply_op new_broadcast_queue queue_msg push invalidate str_dec get_messages pick pop
    push_all send_all transmit_limit
apply_ops-IsNamed_example =
    apply_ops-IsNamed stack (λ n. n) stack-IsHeap 2 calls
      (omega arith, (omega arith, (omega arith, (omega arith, (omega arith, tt)))))

apply_ops-IsLimited_example :
    IsLimited stack stack-IsHeap 2 8 (apply_ops stack (λ n. n) calls (new_broadcast_queue stack 2))
unfolding transmit_limit
apply_ops-IsLimited_example =
    apply_ops-IsLimited stack stack-IsHeap (λ n. n) 2 8 calls (omega arith, tt)
