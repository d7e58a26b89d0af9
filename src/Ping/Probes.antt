-- ===== src/Ping/Probes.antt =====
-- ping.go: `Ping`, `IndirectPing` and `buddyPingMsg`. The two wait for an ack until the timeout: whether it
-- comes is an argument, and the counter of nacks is read from the manager at that time. A channel and a
-- counter are numbers. A write to the socket succeeds.
use Prim.Native.String.{String}
use mlist.Prelude.{
  ℕ, List, [], ◌∷◌, ◌++◌, Bool, true, false, not, ◌&&◌, Option, none, some, ltb, if◌then◌else◌,
  length,
}
use mlist.Prelude.Maps.{same}
use mlist.Members.Types.{Bytes, NodeState, Suspect, is_alive, Config, Memberlist}
use mlist.Maintenance.Choose.{pick_random_nodes}
use mlist.Maintenance.Probe.{IndirectPingResult, no_result}
use mlist.Broadcast.Queue.{HeapOps}
use mlist.Wire.Compound.{pack_compound_msg}
use mlist.Wire.Encrypt.{Aead}
use mlist.Wire.Packet.{Codec, Settings}
use mlist.Ping.Manager.{IndirectAckHandler, next_seq_no, set_ack_handler, set_indirect_ack_handler}
use mlist.Inbox.LongRun.{UdpAddr}
use mlist.Inbox.Replies.{Ping, IndirectPing, MsgCodec, Inbox, Local, addressed, encode_and_send_udp}
use mlist.Gossip.Send.{send_udp}

abbrev pub ping_code : ℕ
ping_code = 0

abbrev indirect_ping_code : ℕ
indirect_ping_code = 1

abbrev pub suspect_code : ℕ
suspect_code = 5

-- `node.Node.UDPAddress()`
abbrev pub udp_address : NodeState → UdpAddr
udp_address n = record { ip = n.node.ip; port = n.node.port }

-- The peers that `IndirectPing` asks about the node.
unfoldable pub accepts_indirect : Config → Memberlist → String → ℕ → Bool
accepts_indirect c m target p =
    not (same (m.store p).node.id c.local_id)
    && not (same (m.store p).node.id target)
    && is_alive (m.store p).state

-- The end of `IndirectPing`; `asked` is the number of peers, if all could be asked.
unfoldable pub indirect_ping_result : Option ℕ → Bool → ℕ → IndirectPingResult
indirect_ping_result none acked nacks = no_result
indirect_ping_result (some asked) acked nacks =
    if acked
    then record { success = true; n_nacks = 0; num_node = 0 }
    else record { success = false; n_nacks = nacks; num_node = asked }

module _ (msgs : MsgCodec) where
  unfoldable pub buddy_ping_msg : Ping → Suspect → Option Bytes
  buddy_ping_msg p s = elim (msgs.put_ping p) [
    | none ↦ none
    | some a ↦ elim (msgs.put_suspect s) [
      | none ↦ none
      | some b ↦ some (pack_compound_msg ((ping_code ∷ a) ∷ (suspect_code ∷ b) ∷ []))
    ]
  ]

module _ {H : Type 0} (ops : HeapOps H) (ceil_log10 : ℕ → ℕ) (ub : Option (ℕ → ℕ → List Bytes))
    (codec : Codec) (aead : Aead) (s : Settings) (msgs : MsgCodec) (l : Local) where
  -- With no piggyback.
  unfoldable pub send_buddy : Bytes → UdpAddr → Option Bytes → Inbox H → Inbox H × Bool
  send_buddy nonce to none i = (i, false)
  send_buddy nonce to (some msg) i =
      let packets = send_udp ops ceil_log10 ub codec aead s nonce msg in
      (record i { sent = addressed to packets ++ i.sent }, ltb 0 (length packets))

  abbrev pub suspect_of : NodeState → Suspect
  suspect_of n = record { lives = n.lives; id = n.node.id; from = l.id }

  -- A node that is not alive is told of its suspicion, so that it can refute.
  unfoldable pub send_ping : Bytes → NodeState → Ping → Inbox H → Inbox H × Bool
  unfolding encode_and_send_udp send_buddy buddy_ping_msg
  send_ping nonce n p i =
      if is_alive n.state
      then encode_and_send_udp ops ceil_log10 ub codec aead s msgs l nonce (udp_address n) ping_code
          (msgs.put_ping p) i
      else send_buddy nonce (udp_address n) (buddy_ping_msg msgs p (suspect_of n)) i

  -- `local_addr` is the result of `GetAdvertiseAddr`, `ch` the new channel.
  unfoldable pub ping : Option (Bytes × ℕ) → Bytes → ℕ → NodeState → Bool → Inbox H → Inbox H × Bool
  unfolding send_ping
  ping none nonce ch n acked i = (i, false)
  ping (some (ip, port)) nonce ch n acked i =
      let (mng, k) = next_seq_no i.ping_mng in
      let p : Ping = record { seq_no = k; id = n.node.id; source_ip = ip; source_port = port } in
      let (i, sent) = send_ping nonce n p (record i { ping_mng = set_ack_handler k ch mng }) in
      (i, sent && acked)

  -- The loop over the peers, which ends with the first error.
  unfoldable pub ask_peers :
      (ℕ → Bytes) → Memberlist → IndirectPing → List ℕ → Inbox H → Inbox H × Bool
  unfolding encode_and_send_udp
  ask_peers nonces m ind [] i = (i, true)
  ask_peers nonces m ind (p ∷ ps) i =
      let (i, sent) =
        encode_and_send_udp ops ceil_log10 ub codec aead s msgs l (nonces (length ps))
          (udp_address (m.store p)) indirect_ping_code (msgs.put_indirect_ping ind) i in
      let rest = ask_peers nonces m ind ps i in if sent then rest else (i, false)

  -- The channel and the counter of the handler are `h`; the result is what `indirect_ping_result` takes.
  unfoldable pub ask_indirect :
      Option (Bytes × ℕ)
      → (ℕ → Bytes)
      → Memberlist
      → IndirectAckHandler
      → NodeState
      → List ℕ
      → Inbox H
      → Inbox H × Option ℕ
  unfolding ask_peers
  ask_indirect none nonces m h n peers i = (i, none)
  ask_indirect (some addr) nonces m h n [] i = (i, none)
  ask_indirect (some (ip, port)) nonces m h n (p ∷ ps) i =
      let (mng, k) = next_seq_no i.ping_mng in
      let ind : IndirectPing = record {
        seq_no = k;
        id = n.node.id;
        ip = n.node.ip;
        port = n.node.port;
        source_ip = ip;
        source_port = port;
      } in
      let (i, all_sent) =
        ask_peers nonces m ind (p ∷ ps)
          (record i { ping_mng = set_indirect_ack_handler k h mng }) in
      (i, if all_sent then some (length (p ∷ ps)) else none)

  unfoldable pub indirect_ping :
      Config
      → Option (Bytes × ℕ)
      → (ℕ → Bytes)
      → (ℕ → ℕ)
      → ℕ
      → Memberlist
      → IndirectAckHandler
      → NodeState
      → Inbox H
      → Inbox H × Option ℕ
  unfolding ask_indirect accepts_indirect
  indirect_ping c local_addr nonces draw num_checks m h n i =
      ask_indirect local_addr nonces m h n
        (pick_random_nodes m (accepts_indirect c m n.node.id) draw num_checks) i
