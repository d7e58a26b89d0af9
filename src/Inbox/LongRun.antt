-- ===== src/Inbox/LongRun.antt =====
-- net_handlers.go: `longRunMsgManager`, the two queues of messages that wait for a handler. A list's
-- head is the back of the queue. `locked` is the mutex between two calls; a call that finds it locked
-- never returns, which is `none`. The wake-up through `gotMsgCh` changes no queue.
use mlist.Prelude.{
  ℕ, List, [], ◌∷◌, Bool, true, false, Option, none, some, leb, if◌then◌else◌, length,
}
use mlist.Members.Types.{Bytes}

pub data MsgType : Type 0 where
  ping_msg indirect_ping_msg ack_msg indirect_ack_msg alive_msg suspect_msg dead_msg : MsgType
  push_pull_msg compound_msg user_msg compress_msg encrypt_msg has_crc_msg err_msg : MsgType
  unknown_msg : ℕ → MsgType

-- `net.UDPAddr`, without its zone.
pub record UdpAddr : Type 0 where
  pub ip : Bytes
  pub port : ℕ

pub record LongRunMsg : Type 0 where
  pub m_type : MsgType
  pub msg : Bytes
  pub from : UdpAddr

abbrev pub is_long_run_msg : MsgType → Bool
is_long_run_msg alive_msg = true
is_long_run_msg suspect_msg = true
is_long_run_msg dead_msg = true
is_long_run_msg user_msg = true
is_long_run_msg _ = false

abbrev pub is_prior : MsgType → Bool
is_prior alive_msg = true
is_prior _ = false

pub record LongRunMsgManager : Type 0 where
  pub high_prior_queue : List LongRunMsg
  pub low_prior_queue : List LongRunMsg
  pub max_queue_depth : ℕ
  pub locked : Bool

unfoldable pub new_long_run_msg_manager : ℕ → LongRunMsgManager
new_long_run_msg_manager q_depth = record {
  high_prior_queue = [];
  low_prior_queue = [];
  max_queue_depth = q_depth;
  locked = false;
}

abbrev pub push_back : LongRunMsgManager → LongRunMsg → LongRunMsgManager
push_back mng m =
    if is_prior m.m_type
    then record mng { high_prior_queue = m ∷ mng.high_prior_queue }
    else record mng { low_prior_queue = m ∷ mng.low_prior_queue }

abbrev pub queue_for : LongRunMsgManager → MsgType → List LongRunMsg
queue_for mng t = if is_prior t then mng.high_prior_queue else mng.low_prior_queue

-- The manager, and whether the message was taken. The early return of the overflow does not unlock.
unfoldable pub queue_long_run_msg :
    LongRunMsgManager → LongRunMsg → Option (LongRunMsgManager × Bool)
queue_long_run_msg mng m =
    if mng.locked
    then none
    else if leb mng.max_queue_depth (length (queue_for mng m.m_type))
    then some (record mng { locked = true }, false)
    else some (push_back mng m, true)

-- The manager, and the next message, if there is one.
unfoldable pub get_next_msg : LongRunMsgManager → Option (LongRunMsgManager × Option LongRunMsg)
get_next_msg mng = if mng.locked then none else elim mng.high_prior_queue [
  | el ∷ rest ↦ some (record mng { high_prior_queue = rest }, some el)
  | [] ↦ elim mng.low_prior_queue [
    | el ∷ rest ↦ some (record mng { low_prior_queue = rest }, some el)
    | [] ↦ some (mng, none)
  ]
]
