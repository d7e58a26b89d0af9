-- ===== src/Broadcast/LimitRuns.antt =====
-- broadcast.go: how often a message is sent under any sequence of calls.
use mlist.Prelude.{ℕ, ◌≤◌, List, [], ◌∷◌, arith, refl}
use mlist.Broadcast.Queue.{
  HeapOps, TransmitCapQueue, len, resize, transmit_limit, new_broadcast_queue,
}
use mlist.Broadcast.Named.{IsHeap}
use mlist.Broadcast.Named.Run.{QueueOp, queues, gets, resizes, apply_op, apply_ops}
use mlist.Broadcast.Limits.{IsLimited, queue_msg-IsLimited}
use mlist.Broadcast.LimitTakes.{get_messages-IsLimited, shrink_to-IsLimited}

module _ {H : Type 0} (ops : HeapOps H) (heap : IsHeap ops) (ceil_log10 : ℕ → ℕ)
    (scale limit : ℕ) where
  -- At no call of `GetMessages` there are so many nodes that more transmissions are allowed.
  abbrev pub AllWithinLimit : List QueueOp → Type 0
  AllWithinLimit [] = Unit
  AllWithinLimit (gets num_nodes _ _ ∷ os) =
      (transmit_limit ceil_log10 scale num_nodes ≤ limit) × AllWithinLimit os
  AllWithinLimit (queues _ _ ∷ os) = AllWithinLimit os
  AllWithinLimit (resizes _ ∷ os) = AllWithinLimit os

  apply_ops-IsLimited_from :
      (os : List QueueOp) (q : TransmitCapQueue H)
      → AllWithinLimit os
      → IsLimited ops heap scale limit q
      → IsLimited ops heap scale limit (apply_ops ops ceil_log10 os q)
  unfolding apply_ops apply_op resize
  apply_ops-IsLimited_from [] q all h = h
  apply_ops-IsLimited_from (queues name msg ∷ os) q all h =
      apply_ops-IsLimited_from os _ all (queue_msg-IsLimited ops heap scale limit name msg q h)
  apply_ops-IsLimited_from (gets num_nodes overhead size ∷ os) q all h =
      apply_ops-IsLimited_from os _ all.1
        (get_messages-IsLimited ops heap scale limit ceil_log10 num_nodes overhead size q all.0 h)
  apply_ops-IsLimited_from (resizes size ∷ os) q all h =
      apply_ops-IsLimited_from os _ all
        (shrink_to-IsLimited ops heap scale limit (len ops q) size q h)

  -- Whatever messages are queued, picked and dropped, in any order from the empty queue: while the limit
  -- of transmissions stays at most `limit`, a message that waits was never sent or was sent less than
  -- `limit` times, and one that is finished, sent to its end, replaced or dropped, was sent at most
  -- `limit` times, or once.
  pub apply_ops-IsLimited :
      (os : List QueueOp)
      → AllWithinLimit os
      → IsLimited ops heap scale limit (apply_ops ops ceil_log10 os (new_broadcast_queue ops scale))
  unfolding new_broadcast_queue
  apply_ops-IsLimited os all =
      apply_ops-IsLimited_from os (new_broadcast_queue ops scale) all (record {
        same_scale = refl;
        waiting = rw heap.items_empty refl;
        known = λ n i e. absurd (ground arith);
        done = refl;
      })
