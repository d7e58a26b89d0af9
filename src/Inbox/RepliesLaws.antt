-- ===== src/Inbox/RepliesLaws.antt =====
-- net_handlers.go: a ping is answered by an ack, which reaches the one who waits for it.
use mlist.Prelude.{
  ℕ, ◌≤◌, ◌≡◌, refl, ap, ◌∙◌, List, [], ◌∷◌, ◌++◌, true, Option, none, some, arith, length,
}
use mlist.Members.Types.{Bytes}
use mlist.Broadcast.Queue.{HeapOps}
use mlist.Wire.RoundTrip.{AllFit}
use mlist.Wire.Encrypt.{Aead, nonce_size}
use mlist.Wire.EncryptLaws.{IsAead}
use mlist.Wire.Packet.{Codec, Settings, pack_udp}
use mlist.Wire.PacketLaws.{IsCodec}
use mlist.Ping.Manager.{Ack, invoke_ack_handler}
use mlist.Inbox.LongRun.{UdpAddr}
use mlist.Inbox.Dispatch.{
  Call, handle_ack, handle_each, handle_udp_msg, handle_fueled, handle_quick, msg_type,
}
use mlist.Gossip.Send.{piggyback, with_piggyback, send_udp, send_msg_piggyback}
use mlist.Gossip.Delivery.{unpack_packet-with_piggyback}
use mlist.Inbox.Replies.{
  Ping, MsgCodec, ack_code, Inbox, Local, reply_addr, payload_of, is_for_us, encode_and_send_udp,
  answer_ping, on_ping, on_ack, perform, perform_all, handle_packet,
}

-- The ack that answers a ping.
abbrev pub ack_for : Local → Ping → Ack
ack_for l p = record { seq_no = p.seq_no; payload = payload_of l.payload }

handle_udp_msg-ack : (body : Bytes) → handle_udp_msg (ack_code ∷ body) ≡ handle_ack body ∷ []
unfolding handle_udp_msg handle_fueled handle_quick msg_type
handle_udp_msg-ack body = refl

module _ {H : Type 0} (ops : HeapOps H) (ceil_log10 : ℕ → ℕ) (ub : Option (ℕ → ℕ → List Bytes))
    (codec : Codec) (aead : Aead) (s : Settings) (msgs : MsgCodec) (l : Local) where
  -- A ping that is for this node is answered by one packet, sent to the address that it names or else
  -- to where it came from, if the ack can be packed with the broadcasts that go along. A node of the
  -- same settings, which has a handler for the number of the ping, handles that packet with the ack
  -- first, and then hands the payload to the channel of the handler, which is gone. The broadcasts
  -- that go along are at most 254, each of a length that fits 16 bits.
  pub on_ack-on_ping :
      (nonce buf body packet : Bytes) (nonces : ℕ → Bytes) (from from' : UdpAddr) (p : Ping)
      (ch : ℕ) (i j : Inbox H)
      → IsCodec codec
      → IsAead aead
      → length nonce ≡ nonce_size
      → msgs.get_ping buf ≡ some p
      → is_for_us l p ≡ true
      → msgs.put_ack (ack_for l p) ≡ some body
      → msgs.get_ack body ≡ some (ack_for l p)
      → length
          (piggyback ops ceil_log10 ub codec aead s l.udp_buffer_size l.num_nodes
            (ack_code ∷ body)
            i.broadcasts).1
        ≤ 254
      → AllFit (
          (ack_code ∷ body)
          ∷ (piggyback ops ceil_log10 ub codec aead s l.udp_buffer_size l.num_nodes
              (ack_code ∷ body)
              i.broadcasts).1)
      → pack_udp codec aead s nonce (
          with_piggyback ops ceil_log10 ub codec aead s
            (ack_code ∷ body)
            (piggyback ops ceil_log10 ub codec aead s l.udp_buffer_size l.num_nodes
              (ack_code ∷ body)
              i.broadcasts).1)
        ≡ some packet
      → j.ping_mng.ack_handlers p.seq_no ≡ some ch
      → ((on_ping ops ceil_log10 ub codec aead s msgs l nonce from buf i).sent
          ≡ (reply_addr p.source_ip p.source_port from, packet) ∷ i.sent)
        × ((others : List Call) × (handle_packet ops ceil_log10 ub codec aead s msgs l nonces from'
                packet j
              ≡ perform_all ops ceil_log10 ub codec aead s msgs l nonces from' others
                  (on_ack ops ceil_log10 ub codec aead s msgs l body j)))
        × ((on_ack ops ceil_log10 ub codec aead s msgs l body j).ping_mng.delivered
            ≡ (ch, payload_of l.payload) ∷ j.ping_mng.delivered)
        × ((on_ack ops ceil_log10 ub codec aead s msgs l body j).ping_mng.ack_handlers p.seq_no
            ≡ none)
  unfolding handle_packet perform_all perform on_ping answer_ping encode_and_send_udp
      send_msg_piggyback send_udp on_ack invoke_ack_handler
  on_ack-on_ping nonce buf body packet nonces from from' p ch i j laws sound len got ours put back
        few fit packed waits =
      let (whole, opens, calls) =
        unpack_packet-with_piggyback ops ceil_log10 ub codec aead s nonce body packet ack_code _
          laws sound len (omega arith) few fit packed in
      (
        ground arith,
        (
          handle_each handle_udp_msg
              (piggyback ops ceil_log10 ub codec aead s l.udp_buffer_size l.num_nodes
                (ack_code ∷ body) i.broadcasts).1,
          rw (opens, handle_packet)
              (rw
                (
                  calls
                      ∙ ap
                          (λ (cs : List Call).
                            cs
                            ++ handle_each handle_udp_msg
                                (piggyback ops ceil_log10 ub codec aead s l.udp_buffer_size
                                  l.num_nodes (ack_code ∷ body) i.broadcasts).1)
                          (handle_udp_msg-ack body),
                  handle_packet,
                )
                refl),
        ),
        ground arith,
        ground arith,
      )
