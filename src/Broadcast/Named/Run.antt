-- ===== src/Broadcast/Named/Run.antt =====
-- broadcast.go: the queue under any sequence of its operations.
use Prim.Native.String.{String}
use mlist.Prelude.{ℕ, ◌+◌, ◌<◌, refl, List, [], ◌∷◌, Option, arith}
use mlist.Members.Types.{Bytes}
use mlist.Broadcast.Queue.{
  HeapOps, TransmitCapQueue, len, queue_msg, get_messages, resize, new_broadcast_queue,
}
use mlist.Broadcast.Named.{IsHeap, IsNamed}
use mlist.Broadcast.Named.Queue.{queue_msg-IsNamed}
use mlist.Broadcast.Named.Take.{get_messages-IsNamed, shrink_to-IsNamed}

-- The calls of the queue, with the result of `encode` and that of `NumNodes`.
pub data QueueOp : Type 0 where
  queues : String → Option Bytes → QueueOp
  gets : ℕ → ℕ → ℕ → QueueOp
  resizes : ℕ → QueueOp

module _ {H : Type 0} (ops : HeapOps H) (ceil_log10 : ℕ → ℕ) where
  unfoldable pub apply_op : QueueOp → TransmitCapQueue H → TransmitCapQueue H
  apply_op (queues name msg) q = queue_msg ops name msg q
  apply_op (gets num_nodes overhead size) q =
      (get_messages ops ceil_log10 num_nodes overhead size q).0
  apply_op (resizes size) q = resize ops size q

  unfoldable pub apply_ops : List QueueOp → TransmitCapQueue H → TransmitCapQueue H
  unfolding apply_op
  apply_ops [] q = q
  apply_ops (o ∷ os) q = apply_ops os (apply_op o q)

  -- The counter of IDs, a `uint64`, does not wrap on the way.
  abbrev pub HasIds : List QueueOp → TransmitCapQueue H → Type 0
  HasIds [] q = Unit
  HasIds (o ∷ os) q = (q.id_seq + 1 < 18446744073709551616) × HasIds os (apply_op o q)

  module _ (heap : IsHeap ops) where
    apply_op-IsNamed :
        (o : QueueOp) (q : TransmitCapQueue H)
        → q.id_seq + 1 < 18446744073709551616
        → IsNamed ops heap q []
        → IsNamed ops heap (apply_op o q) []
    unfolding apply_op resize
    apply_op-IsNamed (queues name msg) q room h = queue_msg-IsNamed ops heap name msg q room h
    apply_op-IsNamed (gets num_nodes overhead size) q room h =
        get_messages-IsNamed ops heap ceil_log10 num_nodes overhead size q h
    apply_op-IsNamed (resizes size) q room h = shrink_to-IsNamed ops heap (len ops q) size q h

    apply_ops-IsNamed_from :
        (os : List QueueOp) (q : TransmitCapQueue H)
        → HasIds os q
        → IsNamed ops heap q []
        → IsNamed ops heap (apply_ops os q) []
    unfolding apply_ops
    apply_ops-IsNamed_from [] q room h = h
    apply_ops-IsNamed_from (o ∷ os) q room h =
        apply_ops-IsNamed_from os (apply_op o q) room.1 (apply_op-IsNamed o q room.0 h)

    new_broadcast_queue-IsNamed : (scale : ℕ) → IsNamed ops heap (new_broadcast_queue ops scale) []
    unfolding new_broadcast_queue
    new_broadcast_queue-IsNamed scale = record {
      name_once = λ n ne. rw heap.items_empty (omega arith);
      id_once = λ k. rw heap.items_empty (omega arith);
      id_old = λ k old. rw heap.items_empty refl;
      known = λ n ne. rw heap.items_empty refl;
    }

    -- Whatever messages are queued, picked and dropped, in any order from the empty queue, and as long
    -- as the counter of IDs does not wrap: each name but the empty one has at most one message in the
    -- heap, and the map has the name if and only if there is one, with the ID of that message; no two
    -- messages share an ID, and the next ID is above all of them.
    pub apply_ops-IsNamed :
        (scale : ℕ) (os : List QueueOp)
        → HasIds os (new_broadcast_queue ops scale)
        → IsNamed ops heap (apply_ops os (new_broadcast_queue ops scale)) []
    apply_ops-IsNamed scale os room =
        apply_ops-IsNamed_from os (new_broadcast_queue ops scale) room
          (new_broadcast_queue-IsNamed scale)
