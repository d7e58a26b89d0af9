-- ===== src/Inbox/Drain.antt =====
-- net_handlers.go: `runLongRunMsgHandler` on one wake-up, and the handlers of the messages that change
-- the table, where no message is queued meanwhile. The user's channel is whether a reader takes the
-- next message, after those that were sent before. The clock and the draws are asked by the number of
-- rounds left.
use mlist.Prelude.{
  ℕ, zero, suc, ◌+◌, List, ◌∷◌, Bool, false, Option, none, some, if◌then◌else◌, length,
}
use mlist.Suspicion.{Floats}
use mlist.Members.Types.{Bytes, Config, Memberlist}
use mlist.Members.Handlers.{ip_allowed, alive_node, suspect_node, dead_node}
use mlist.Inbox.LongRun.{
  UdpAddr, LongRunMsg, LongRunMsgManager, MsgType, alive_msg, suspect_msg, dead_msg, user_msg,
  get_next_msg,
}
use mlist.Inbox.Replies.{MsgCodec}

-- The table, and what was sent on the user's channel, the last one first.
pub record Served : Type 0 where
  pub table : Memberlist
  pub users : List Bytes

module _ {F : Type 0} (fl : Floats F) (c : Config) (msgs : MsgCodec)
    (usr_msg_ch : Option (List Bytes → Bool)) where
  unfoldable pub handle_alive : Bytes → UdpAddr → ℕ → ℕ → Memberlist → Memberlist
  handle_alive msg from now rnd m =
      if ip_allowed c from.ip
      then elim (msgs.get_alive msg) [ none ↦ m | some a ↦ alive_node c a false now rnd m ]
      else m

  unfoldable pub handle_suspect : Bytes → ℕ → Memberlist → Option Memberlist
  handle_suspect msg now m = elim (msgs.get_suspect msg) [
    | none ↦ some m
    | some s ↦ suspect_node fl c s now m
  ]

  unfoldable pub handle_dead : Bytes → ℕ → Memberlist → Option Memberlist
  handle_dead msg now m = elim (msgs.get_dead msg) [
    | none ↦ some m
    | some d ↦ dead_node c d false now m
  ]

  -- The send waits for a reader: `none` if none comes.
  unfoldable pub handle_user : Bytes → Served → Option Served
  handle_user msg sv = elim usr_msg_ch [
    | none ↦ some sv
    | some takes ↦ if takes sv.users then some (record sv { users = msg ∷ sv.users }) else none
  ]

  abbrev pub with_table : Served → Option Memberlist → Option Served
  with_table sv none = none
  with_table sv (some m) = some (record sv { table = m })

  -- The `switch` on the type. `none` where a handler does not return.
  unfoldable pub handle_long_run : MsgType → LongRunMsg → ℕ → ℕ → Served → Option Served
  unfolding handle_alive handle_suspect handle_dead handle_user
  handle_long_run suspect_msg m now rnd sv = with_table sv (handle_suspect m.msg now sv.table)
  handle_long_run alive_msg m now rnd sv =
      with_table sv (some (handle_alive m.msg m.from now rnd sv.table))
  handle_long_run dead_msg m now rnd sv = with_table sv (handle_dead m.msg now sv.table)
  handle_long_run user_msg m now rnd sv = handle_user m.msg sv
  handle_long_run _ m now rnd sv = some sv

  -- `none` also without the fuel, which `drain_all` gives.
  unfoldable pub drain :
      ℕ → (ℕ → ℕ) → (ℕ → ℕ) → LongRunMsgManager → Served → Option (LongRunMsgManager × Served)
  unfolding handle_long_run
  drain zero clock rnd mng sv = none
  drain (suc fuel) clock rnd mng sv = elim (get_next_msg mng) [
    | none ↦ none
    | some (mng, none) ↦ some (mng, sv)
    | some (mng, some m) ↦ elim (handle_long_run m.m_type m (clock fuel) (rnd fuel) sv) [
      | none ↦ none
      | some sv ↦ drain fuel clock rnd mng sv
    ]
  ]

  -- Each round takes a message, and one more finds none.
  unfoldable pub drain_all :
      (ℕ → ℕ) → (ℕ → ℕ) → LongRunMsgManager → Served → Option (LongRunMsgManager × Served)
  unfolding drain
  drain_all clock rnd mng sv =
      drain (suc (length mng.high_prior_queue + length mng.low_prior_queue)) clock rnd mng sv
