-- ===== src/Process/Progress.antt =====
-- net_handlers.go: `runLongRunMsgHandler` in a node.
use mlist.Prelude.{ℕ, List, Bool, Option}
use mlist.Prelude.Int.{ℤ}
use mlist.Suspicion.{Floats}
use mlist.Members.Types.{Bytes, Config}
use mlist.Broadcast.Queue.{HeapOps, TransmitCapQueue}
use mlist.Wire.Encrypt.{Aead}
use mlist.Wire.Packet.{Codec, Settings}
use mlist.PushPull.Encoding.{StateCodec}
use mlist.Inbox.LongRun.{LongRunMsgManager}
use mlist.Inbox.Replies.{MsgCodec, Local}
use mlist.Inbox.Drain.{Served}
use mlist.Process.{Process, IsReachable}

abbrev pub with_drained : {H : Type 0} → Process H → LongRunMsgManager → Served → Process H
with_drained p mng sv = record p { served = sv; inbox = record p.inbox { long_run_mng = mng } }

module _ {F H : Type 0} (fl : Floats F) (ops : HeapOps H) (ceil_log10 : ℕ → ℕ)
    (ub : Option (ℕ → ℕ → List Bytes)) (codec : Codec) (aead : Aead) (states : StateCodec)
    (s : Settings) (msgs : MsgCodec) (l : Local) (c : Config) (has_ch : Option (List Bytes → Bool))
    (max : ℤ) (depth : ℕ) (q : TransmitCapQueue H) where
  abbrev Reaches : Process H → Type 0
  Reaches p = IsReachable fl ops ceil_log10 ub codec aead states s msgs l c has_ch max depth q p
