-- ===== src/Inbox/LongRunLaws.antt =====
-- net_handlers.go: the order and the bound of the waiting messages, and what an overflow does.
use mlist.Prelude.{
  ◌≤◌, ◌<◌, ◌≡◌, ◌⊎◌, refl, List, [], ◌∷◌, Bool, true, false, none, some, arith, length,
}
use mlist.Inbox.LongRun.{
  LongRunMsg, LongRunMsgManager, is_prior, queue_for, push_back, queue_long_run_msg, get_next_msg,
}

-- Neither queue is longer than the depth.
pub record IsBounded (mng : LongRunMsgManager) : Type 0 where
  pub high : length mng.high_prior_queue ≤ mng.max_queue_depth
  pub low : length mng.low_prior_queue ≤ mng.max_queue_depth

-- Queueing a message keeps both queues within the depth, whether the message is taken or dropped.
pub queue_long_run_msg-IsBounded :
    (mng : LongRunMsgManager) (m : LongRunMsg) {r : LongRunMsgManager × Bool}
    → IsBounded mng
    → queue_long_run_msg mng m ≡ some r
    → IsBounded r.0
unfolding queue_long_run_msg
queue_long_run_msg-IsBounded mng m h e = ground arith

-- A message that finds its queue below the depth is taken, and is the next one handed out if it is an
-- alive message or no alive message waits; the queues are then as they were. The order is last in,
-- first out.
get_next-queue_long_run_msg :
    (mng : LongRunMsgManager) (m : LongRunMsg)
    → mng.locked ≡ false
    → length (queue_for mng m.m_type) < mng.max_queue_depth
    → (is_prior m.m_type ≡ true) ⊎ (mng.high_prior_queue ≡ [])
    → (mng' : LongRunMsgManager) × (queue_long_run_msg mng m ≡ some (mng', true))
      × (get_next_msg mng' ≡ some (mng, some m))
unfolding queue_long_run_msg get_next_msg
get_next-queue_long_run_msg mng m free room first = (push_back mng m, ground arith, ground arith)

-- While an alive message waits, no other message is handed out.
get_next_msg_priority :
    (mng mng' : LongRunMsgManager) (m el : LongRunMsg) (rest : List LongRunMsg)
    → mng.high_prior_queue ≡ el ∷ rest
    → get_next_msg mng ≡ some (mng', some m)
    → (m ≡ el) × (mng'.high_prior_queue ≡ rest) × (mng'.low_prior_queue ≡ mng.low_prior_queue)
unfolding get_next_msg
get_next_msg_priority mng mng' m el rest waits e = ground arith

-- An overflow drops the message and leaves the mutex locked: every later call, to queue or to take a
-- message, blocks for ever.
pub overflow_deadlocks :
    (mng : LongRunMsgManager) (m : LongRunMsg)
    → mng.locked ≡ false
    → mng.max_queue_depth ≤ length (queue_for mng m.m_type)
    → (mng' : LongRunMsgManager) × (queue_long_run_msg mng m ≡ some (mng', false))
      × ((m' : LongRunMsg) → queue_long_run_msg mng' m' ≡ none)
      × (get_next_msg mng' ≡ none)
unfolding queue_long_run_msg get_next_msg
overflow_deadlocks mng m free full = (record mng { locked = true }, ground arith, λ m'. refl, refl)
