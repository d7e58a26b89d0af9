-- ===== src/Inbox/Dispatch.antt =====
-- net_handlers.go: `handleUdpMsg` and `handleCompound`, which may hold further compound messages. The
-- result is the list of calls made, in order; the handlers behind them are other parts.
use mlist.Prelude.{
  ℕ, zero, suc, List, [], ◌∷◌, ◌++◌, Bool, true, false, if◌then◌else◌, length, get_or,
}
use mlist.Members.Types.{Bytes}
use mlist.Wire.Compound.{parts, unpack_compound_msg}
use mlist.Inbox.LongRun.{
  MsgType, ping_msg, indirect_ping_msg, ack_msg, indirect_ack_msg, alive_msg, suspect_msg, dead_msg,
  push_pull_msg, compound_msg, user_msg, compress_msg, encrypt_msg, has_crc_msg, err_msg,
  unknown_msg, is_long_run_msg,
}

-- The `iota` constants, in order from 0.
abbrev msg_types : List MsgType
msg_types =
    ping_msg ∷ indirect_ping_msg ∷ ack_msg ∷ indirect_ack_msg ∷ alive_msg ∷ suspect_msg ∷ dead_msg
    ∷ push_pull_msg ∷ compound_msg ∷ user_msg ∷ compress_msg ∷ encrypt_msg ∷ has_crc_msg ∷ err_msg
    ∷ []

unfoldable pub msg_type : ℕ → MsgType
msg_type n = get_or msg_types n (unknown_msg n)

pub data Call : Type 0 where
  queue_long_run : MsgType → Bytes → Call
  handle_ping handle_ack handle_indirect_ping handle_indirect_ack : Bytes → Call
  not_supported : MsgType → Call
  missing_type bad_compound : Call

-- The `switch` on the messages that are handled at once, but for the compound message.
unfoldable pub handle_quick : MsgType → Bytes → Call
handle_quick ping_msg msg = handle_ping msg
handle_quick ack_msg msg = handle_ack msg
handle_quick indirect_ping_msg msg = handle_indirect_ping msg
handle_quick indirect_ack_msg msg = handle_indirect_ack msg
handle_quick t msg = not_supported t

abbrev pub is_compound : MsgType → Bool
is_compound compound_msg = true
is_compound _ = false

-- The loop of `handleCompound` over the messages, given how one of them is handled.
unfoldable pub handle_each : (Bytes → List Call) → List Bytes → List Call
handle_each handle [] = []
handle_each handle (m ∷ ms) = handle m ++ handle_each handle ms

unfoldable pub handle_compound : (Bytes → List Call) → Bytes → List Call
unfolding handle_each
handle_compound handle msg = elim (unpack_compound_msg msg) [
  | parts trunc msgs ↦ handle_each handle msgs
  | _ ↦ bad_compound ∷ []
]

-- By fuel for the depth of nesting. A message inside a compound message is shorter than it, so the
-- length is fuel enough.
unfoldable pub handle_fueled : ℕ → Bytes → List Call
unfolding handle_compound handle_quick msg_type
handle_fueled fuel [] = missing_type ∷ []
handle_fueled zero (t ∷ msg) = []
handle_fueled (suc fuel) (t ∷ msg) =
    if is_long_run_msg (msg_type t)
    then queue_long_run (msg_type t) msg ∷ []
    else elim (is_compound (msg_type t)) [
      | true ↦ handle_compound (handle_fueled fuel) msg
      | false ↦ handle_quick (msg_type t) msg ∷ []
    ]

unfoldable pub handle_udp_msg : Bytes → List Call
unfolding handle_fueled
handle_udp_msg msg = handle_fueled (length msg) msg
