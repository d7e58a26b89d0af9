-- ===== src/Inbox/Replies.antt =====
-- net_handlers.go: `handlePacket` and the handlers of the messages that are answered at once;
-- net_transport.go: `encodeAndSendUdp`. Msgpack is the parameter `MsgCodec`. Time stamps of packets, which
-- only reach the user's ping hook, are left out.
use Prim.Native.String.{String}
use mlist.Prelude.{
  ℕ, List, [], ◌∷◌, ◌++◌, Bool, false, not, ◌&&◌, Option, none, some, ltb, if◌then◌else◌, length,
}
use mlist.Prelude.Maps.{same}
use mlist.Members.Types.{Bytes, Alive, Suspect, Dead}
use mlist.Broadcast.Queue.{HeapOps, TransmitCapQueue}
use mlist.Wire.Encrypt.{Aead}
use mlist.Wire.Packet.{Codec, Settings, received, refused, panics, unpack_packet}
use mlist.Ping.Manager.{
  Ack, IndirectAck, PingManager, invoke_ack_handler, invoke_indirect_ack_handler,
}
use mlist.Inbox.LongRun.{UdpAddr, LongRunMsgManager, queue_long_run_msg}
use mlist.Inbox.Dispatch.{
  Call, queue_long_run, handle_ping, handle_ack, handle_indirect_ping, handle_indirect_ack,
  not_supported, missing_type, bad_compound, handle_udp_msg,
}
use mlist.Gossip.Send.{send_msg_piggyback}

pub record Ping : Type 0 where
  pub seq_no : ℕ
  pub id : String
  pub source_ip : Bytes
  pub source_port : ℕ

pub record IndirectPing : Type 0 where
  pub seq_no : ℕ
  pub id : String
  pub ip : Bytes
  pub port : ℕ
  pub source_ip : Bytes
  pub source_port : ℕ

-- `decode` into each of the structures, and what `encode` writes behind the type byte.
pub record MsgCodec : Type 0 where
  pub get_ping : Bytes → Option Ping
  pub get_ack : Bytes → Option Ack
  pub get_indirect_ping : Bytes → Option IndirectPing
  pub get_indirect_ack : Bytes → Option IndirectAck
  pub get_alive : Bytes → Option Alive
  pub get_suspect : Bytes → Option Suspect
  pub get_dead : Bytes → Option Dead
  pub put_ping : Ping → Option Bytes
  pub put_indirect_ping : IndirectPing → Option Bytes
  pub put_suspect : Suspect → Option Bytes
  pub put_ack : Ack → Option Bytes
  pub put_indirect_ack : IndirectAck → Option Bytes

abbrev pub ack_code : ℕ
ack_code = 2

abbrev indirect_ack_code : ℕ
indirect_ack_code = 3

-- The goroutine of `handleIndirectPing`, which waits for a ping of its own.
pub record Relay : Type 0 where
  pub target : UdpAddr
  pub target_id : String
  pub asker : UdpAddr
  pub seq_no : ℕ

-- What the handlers change, but for the table; `sent` lists the datagrams, the last one first.
pub record Inbox (H : Type 0) : Type 0 where
  pub broadcasts : TransmitCapQueue H
  pub ping_mng : PingManager
  pub long_run_mng : LongRunMsgManager
  pub sent : List (UdpAddr × Bytes)
  pub relays : List Relay

-- What the handlers read.
pub record Local : Type 0 where
  pub id : String
  pub num_nodes : ℕ
  pub udp_buffer_size : ℕ
  -- What the user's `Payload` gives, if there is a user's ping.
  pub payload : Option Bytes

-- The address that the message names, or else where it came from.
unfoldable pub reply_addr : Bytes → ℕ → UdpAddr → UdpAddr
reply_addr source_ip source_port from =
    if ltb 0 (length source_ip) && ltb 0 source_port
    then record { ip = source_ip; port = source_port }
    else from

-- `a.Payload`, nil with no user's ping.
abbrev pub payload_of : Option Bytes → Bytes
payload_of none = []
payload_of (some b) = b

abbrev pub addressed : UdpAddr → List Bytes → List (UdpAddr × Bytes)
addressed to [] = []
addressed to (d ∷ ds) = (to, d) ∷ addressed to ds

unfoldable pub is_for_us : Local → Ping → Bool
is_for_us l p = not (not (same p.id "") && not (same p.id l.id))

module _ {H : Type 0} (ops : HeapOps H) (ceil_log10 : ℕ → ℕ) (ub : Option (ℕ → ℕ → List Bytes))
    (codec : Codec) (aead : Aead) (s : Settings) (msgs : MsgCodec) (l : Local) where
  -- Of a message that was encoded, if it could be, with whether there was no error.
  unfoldable pub encode_and_send_udp : Bytes → UdpAddr → ℕ → Option Bytes → Inbox H → Inbox H × Bool
  encode_and_send_udp nonce to code none i = (i, false)
  encode_and_send_udp nonce to code (some body) i =
      let (q, packets) =
        send_msg_piggyback ops ceil_log10 ub codec aead s nonce l.udp_buffer_size l.num_nodes
          (code ∷ body) i.broadcasts in
      (record i { broadcasts = q; sent = addressed to packets ++ i.sent }, ltb 0 (length packets))

  unfoldable pub answer_ping : Bytes → UdpAddr → Ping → Inbox H → Inbox H
  unfolding encode_and_send_udp is_for_us reply_addr
  answer_ping nonce from p i =
      if is_for_us l p
      then (encode_and_send_udp nonce (reply_addr p.source_ip p.source_port from) ack_code
          (msgs.put_ack (record { seq_no = p.seq_no; payload = payload_of l.payload })) i).0
      else i

  unfoldable pub on_ping : Bytes → UdpAddr → Bytes → Inbox H → Inbox H
  unfolding answer_ping
  on_ping nonce from buf i = elim (msgs.get_ping buf) [
    | none ↦ i
    | some p ↦ answer_ping nonce from p i
  ]

  unfoldable pub on_ack : Bytes → Inbox H → Inbox H
  on_ack buf i = elim (msgs.get_ack buf) [
    | none ↦ i
    | some a ↦ record i { ping_mng = invoke_ack_handler a i.ping_mng }
  ]

  unfoldable pub on_indirect_ping : UdpAddr → Bytes → Inbox H → Inbox H
  unfolding reply_addr
  on_indirect_ping from buf i = elim (msgs.get_indirect_ping buf) [
    | none ↦ i
    | some p ↦
        let r : Relay = record {
          target = record { ip = p.ip; port = p.port };
          target_id = p.id;
          asker = reply_addr p.source_ip p.source_port from;
          seq_no = p.seq_no;
        } in
        record i { relays = r ∷ i.relays }
  ]

  -- The end of the goroutine, with what its `Ping` returned.
  unfoldable pub relay_done : Bytes → Relay → Bool → Inbox H → Inbox H
  unfolding encode_and_send_udp
  relay_done nonce r ok i =
      (encode_and_send_udp nonce r.asker indirect_ack_code
        (msgs.put_indirect_ack (record { seq_no = r.seq_no; success = ok })) i).0

  unfoldable pub on_indirect_ack : Bytes → Inbox H → Inbox H
  on_indirect_ack buf i = elim (msgs.get_indirect_ack buf) [
    | none ↦ i
    | some a ↦ record i { ping_mng = invoke_indirect_ack_handler a i.ping_mng }
  ]

  -- `none` where `queueLongRunMsg` blocks for ever.
  unfoldable pub perform : Bytes → UdpAddr → Call → Inbox H → Option (Inbox H)
  unfolding on_ping on_ack on_indirect_ping on_indirect_ack
  perform nonce from (queue_long_run t msg) i =
      elim (queue_long_run_msg i.long_run_mng (record { m_type = t; msg = msg; from = from })) [
        | none ↦ none
        | some (mng, _) ↦ some (record i { long_run_mng = mng })
      ]
  perform nonce from (handle_ping msg) i = some (on_ping nonce from msg i)
  perform nonce from (handle_ack msg) i = some (on_ack msg i)
  perform nonce from (handle_indirect_ping msg) i = some (on_indirect_ping from msg i)
  perform nonce from (handle_indirect_ack msg) i = some (on_indirect_ack msg i)
  perform nonce from (not_supported t) i = some i
  perform nonce from missing_type i = some i
  perform nonce from bad_compound i = some i

  unfoldable pub perform_all : (ℕ → Bytes) → UdpAddr → List Call → Inbox H → Option (Inbox H)
  unfolding perform
  perform_all nonces from [] i = some i
  perform_all nonces from (call ∷ calls) i = elim (perform (nonces (length calls)) from call i) [
    | none ↦ none
    | some i ↦ perform_all nonces from calls i
  ]

  -- A packet that panics is `none` too.
  unfoldable pub handle_packet : (ℕ → Bytes) → UdpAddr → Bytes → Inbox H → Option (Inbox H)
  unfolding perform_all
  handle_packet nonces from packet i = elim (unpack_packet codec aead s packet) [
    | received msg ↦ perform_all nonces from (handle_udp_msg msg) i
    | refused ↦ some i
    | panics ↦ none
  ]
