-- ===== src/Process.antt =====
-- The parts of one node together: the table of memberlist.go, the queues and tables of the handlers of
-- net_handlers.go and ping.go, and the steps that the goroutines of `start` and `schedule` and the calls
-- of the user take on them, in any order. What the network, the clock and the draws give is an argument.
pub mod Inboxes
pub mod Health
pub mod Tables
pub mod Invariant
pub mod Progress
use mlist.Prelude.{ℕ, ◌≡◌, List, [], ◌∷◌, ◌++◌, Bool, true, Option, some}
use mlist.Prelude.Int.{ℤ}
use mlist.Suspicion.{Floats}
use mlist.Members.Types.{Bytes, NodeState, Alive, Effect, Config, Memberlist, new_memberlist}
use mlist.Members.Handlers.{emit, ip_allowed}
use mlist.Members.Announce.{alive_locked, deferred}
use mlist.Maintenance.Run.{Input, step}
use mlist.Maintenance.Probe.{Arrival, healthier, probe_node}
use mlist.Broadcast.Queue.{HeapOps, TransmitCapQueue}
use mlist.Wire.Encrypt.{Aead}
use mlist.Wire.Packet.{Codec, Settings}
use mlist.PushPull.Encoding.{StateCodec, Remote}
use mlist.PushPull.Exchange.{merged, merge_remote}
use mlist.Ping.Manager.{PingManager, new_ping_manager}
use mlist.Inbox.LongRun.{
  UdpAddr, LongRunMsg, LongRunMsgManager, new_long_run_msg_manager, get_next_msg,
}
use mlist.Inbox.Replies.{MsgCodec, Inbox, Local, Relay, handle_packet, relay_done}
use mlist.Inbox.Drain.{Served, handle_long_run}
use mlist.Interface.Operations.{Outcome, next_lives, set_alive, leave, update_tags}

-- `late` holds what the calls of `aliveNode` that have released `nodeL` have still to broadcast and
-- notify, each in its order.
pub record Process (H : Type 0) : Type 0 where
  pub served : Served
  pub inbox : Inbox H
  pub late : List (List Effect)

abbrev pub with_members : {H : Type 0} → Process H → Memberlist → Process H
with_members p m = record p { served = record p.served { table = m } }

-- `numNodes` is read from the table.
abbrev pub local_of : Local → Memberlist → Local
local_of l m = record l { num_nodes = m.num_nodes }

abbrev pub new_process : {H : Type 0} → ℤ → ℕ → TransmitCapQueue H → Process H
new_process max depth broadcasts = record {
  served = record { table = new_memberlist max; users = [] };
  inbox = record {
    broadcasts = broadcasts;
    ping_mng = new_ping_manager;
    long_run_mng = new_long_run_msg_manager depth;
    sent = [];
    relays = [];
  };
  late = [];
}

module _ {F H : Type 0} (fl : Floats F) (ops : HeapOps H) (ceil_log10 : ℕ → ℕ)
    (ub : Option (ℕ → ℕ → List Bytes)) (codec : Codec) (aead : Aead) (states : StateCodec)
    (s : Settings) (msgs : MsgCodec) (l : Local) (c : Config)
    (usr_msg_ch : Option (List Bytes → Bool)) where
  -- `receives`, `serves`, `merges`, `probes`, `goes_alive`, `departs` and `retags` are calls with nothing
  -- in between. The parts in which calls interleave are steps too: `takes` is a message that was taken
  -- and is not handled yet; `locks` is what `aliveNode` does under `nodeL`, after its tests, and
  -- `announces` one of the things that it does afterwards; `acts` is one other message, timer, reaping
  -- or store of `m.left`, also as a part of `timeoutFn`, `mergeState` or `Leave`; `counts` and `scores`
  -- are a life number drawn and a change of the health score. `pings` is any change of the handlers that
  -- wait for replies, and `gossips` any of the queue of broadcasts and of what was sent.
  pub data ProcessStep : Process H → Process H → Type 0 where
    receives :
        (p : Process H) (nonces : ℕ → Bytes) (from : UdpAddr) (packet : Bytes) {i : Inbox H}
        → handle_packet ops ceil_log10 ub codec aead s msgs
            (local_of l p.served.table)
            nonces
            from
            packet
            p.inbox
          ≡ some i
        → ProcessStep p (record p { inbox = i })
    relays :
        (p : Process H) (nonce : Bytes) (r : Relay) (ok : Bool)
        → ProcessStep p (record p {
          inbox =
              relay_done ops ceil_log10 ub codec aead s msgs
                (local_of l p.served.table)
                nonce
                r
                ok
                p.inbox;
        })
    serves :
        (p : Process H) (now rnd : ℕ) {mng : LongRunMsgManager} {m : LongRunMsg} {sv : Served}
        → get_next_msg p.inbox.long_run_mng ≡ some (mng, some m)
        → handle_long_run fl c msgs usr_msg_ch m.m_type m now rnd p.served ≡ some sv
        → ProcessStep p (record p { served = sv; inbox = record p.inbox { long_run_mng = mng } })
    takes :
        (p : Process H) {mng : LongRunMsgManager} {m : LongRunMsg}
        → get_next_msg p.inbox.long_run_mng ≡ some (mng, some m)
        → ProcessStep p (record p { inbox = record p.inbox { long_run_mng = mng } })
    locks :
        (p : Process H) (a : Alive) (notify : Bool) (now rnd : ℕ)
        → ip_allowed c a.ip ≡ true
        → ProcessStep p (record (with_members p (alive_locked a notify now rnd p.served.table)) {
          late = deferred a notify now p.served.table ∷ p.late;
        })
    announces :
        (p : Process H) (earlier later : List (List Effect)) (e : Effect) (es : List Effect)
        → p.late ≡ earlier ++ ((e ∷ es) ∷ later)
        → ProcessStep p
            (record (with_members p (emit p.served.table e)) { late = earlier ++ (es ∷ later) })
    merges :
        (p : Process H) (usr : Option Bytes) (remote : Remote) (now : ℕ) (rnd : ℕ → ℕ)
        {m : Memberlist} {kept : Option Bytes}
        → merge_remote codec aead states s fl c usr remote now rnd p.served.table ≡ merged m kept
        → ProcessStep p (with_members p m)
    acts :
        (p : Process H) (now : ℕ) (i : Input) {m : Memberlist}
        → step fl c now i p.served.table ≡ some m
        → ProcessStep p (with_members p m)
    counts : (p : Process H) → ProcessStep p (with_members p (next_lives p.served.table))
    scores :
        (p : Process H) (delta : ℤ)
        → ProcessStep p (with_members p (healthier p.served.table delta))
    probes :
        (p : Process H) (node : NodeState) (ok : Bool) (arrivals : List Arrival) (now : ℕ)
        {m : Memberlist}
        → probe_node fl c node ok arrivals now p.served.table ≡ some m
        → ProcessStep p (with_members p m)
    goes_alive :
        (p : Process H) (ip : Bytes) (port : ℕ) (tags : Bytes) (now rnd : ℕ)
        → ProcessStep p (with_members p (set_alive c ip port tags now rnd p.served.table).0)
    departs :
        (p : Process H) (shutdown : Bool) (timeout : ℕ) (notified : Bool) (now : ℕ) {m : Memberlist}
        {out : Outcome}
        → leave c shutdown timeout notified now p.served.table ≡ some (m, out)
        → ProcessStep p (with_members p m)
    retags :
        (p : Process H) (tags : Bytes) (timeout : ℕ) (notified : Bool) (now rnd : ℕ)
        → ProcessStep p
            (with_members p (update_tags c tags timeout notified now rnd p.served.table).0)
    pings :
        (p : Process H) (mng : PingManager)
        → ProcessStep p (record p { inbox = record p.inbox { ping_mng = mng } })
    gossips :
        (p : Process H) (q : TransmitCapQueue H) (sent : List (UdpAddr × Bytes))
        → ProcessStep p (record p { inbox = record p.inbox { broadcasts = q; sent = sent } })

  pub data IsReachable (max : ℤ) (depth : ℕ) (broadcasts : TransmitCapQueue H)
      : Process H → Type 0 where
    start : IsReachable max depth broadcasts (new_process max depth broadcasts)
    after :
        {p p' : Process H}
        → IsReachable max depth broadcasts p
        → ProcessStep p p'
        → IsReachable max depth broadcasts p'
