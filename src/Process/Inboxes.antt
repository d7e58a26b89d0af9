-- ===== src/Process/Inboxes.antt =====
-- net_handlers.go: what the handlers of datagrams do to the queues of waiting messages.
use mlist.Prelude.{
  ℕ, ◌≡◌, refl, subst, List, [], ◌∷◌, Bool, Option, none, some, arith, length, Bool-cases,
  Option-cases, inl, inr,
}
use mlist.Members.Types.{Bytes}
use mlist.Broadcast.Queue.{HeapOps}
use mlist.Wire.Encrypt.{Aead}
use mlist.Wire.Packet.{Codec, Settings, received, refused, panics, Received, unpack_packet}
use mlist.Inbox.LongRun.{UdpAddr, LongRunMsg, LongRunMsgManager, queue_long_run_msg, get_next_msg}
use mlist.Inbox.LongRunLaws.{IsBounded, queue_long_run_msg-IsBounded}
use mlist.Inbox.Dispatch.{
  Call, queue_long_run, handle_ping, handle_ack, handle_indirect_ping, handle_indirect_ack,
  not_supported, missing_type, bad_compound, handle_udp_msg,
}
use mlist.Inbox.Replies.{
  Ping, reply_addr, ack_code, payload_of, MsgCodec, Inbox, Local, Relay, encode_and_send_udp,
  answer_ping, on_ping, on_ack, on_indirect_ping, relay_done, on_indirect_ack, perform, perform_all,
  handle_packet,
}

pub get_next_msg-IsBounded :
    (mng : LongRunMsgManager) {mng' : LongRunMsgManager} {m : LongRunMsg}
    → IsBounded mng
    → get_next_msg mng ≡ some (mng', some m)
    → IsBounded mng'
unfolding get_next_msg
get_next_msg-IsBounded mng h e = elim (Bool-cases mng.locked) [
  | inl held ↦ absurd (ground arith)
  | inr free ↦ ground (arith, h.high, h.low)
]

module _ {H : Type 0} (ops : HeapOps H) (ceil_log10 : ℕ → ℕ) (ub : Option (ℕ → ℕ → List Bytes))
    (codec : Codec) (aead : Aead) (s : Settings) (msgs : MsgCodec) (l : Local) where
  encode_and_send_udp_keeps :
      (nonce : Bytes) (to : UdpAddr) (code : ℕ) (body : Option Bytes) (i : Inbox H)
      → (encode_and_send_udp ops ceil_log10 ub codec aead s msgs l nonce to code body
          i).0.long_run_mng
        ≡ i.long_run_mng
  unfolding encode_and_send_udp
  encode_and_send_udp_keeps nonce to code none i = refl
  encode_and_send_udp_keeps nonce to code (some body) i = refl

  pub relay_done_keeps :
      (nonce : Bytes) (r : Relay) (ok : Bool) (i : Inbox H)
      → (relay_done ops ceil_log10 ub codec aead s msgs l nonce r ok i).long_run_mng
        ≡ i.long_run_mng
  unfolding relay_done
  relay_done_keeps nonce r ok i = encode_and_send_udp_keeps nonce r.asker _ _ i

  answer_ping_keeps :
      (nonce : Bytes) (from : UdpAddr) (p : Ping) (i : Inbox H)
      → (answer_ping ops ceil_log10 ub codec aead s msgs l nonce from p i).long_run_mng
        ≡ i.long_run_mng
  unfolding answer_ping
  answer_ping_keeps nonce from p i = ground (
    arith,
    encode_and_send_udp_keeps nonce (reply_addr p.source_ip p.source_port from) ack_code
        (msgs.put_ack (record { seq_no = p.seq_no; payload = payload_of l.payload })) i,
  )

  perform-IsBounded :
      (nonce : Bytes) (from : UdpAddr) (call : Call) (i : Inbox H) {i' : Inbox H}
      → IsBounded i.long_run_mng
      → perform ops ceil_log10 ub codec aead s msgs l nonce from call i ≡ some i'
      → IsBounded i'.long_run_mng
  unfolding perform on_ping on_ack on_indirect_ping on_indirect_ack
  perform-IsBounded nonce from (queue_long_run t msg) i h e =
      elim (Option-cases
        (queue_long_run_msg i.long_run_mng (record { m_type = t; msg = msg; from = from }))) [
          | inl stuck ↦ absurd (ground arith)
          | inr (r, done) ↦
              subst IsBounded (ground arith) (queue_long_run_msg-IsBounded i.long_run_mng _ h done)
        ]
  perform-IsBounded nonce from (handle_ping msg) i h e = elim (Option-cases (msgs.get_ping msg)) [
    | inl bad ↦ subst IsBounded (ground arith) h
    | inr (p, good) ↦ subst IsBounded (ground (arith, answer_ping_keeps nonce from p i)) h
  ]
  perform-IsBounded nonce from (handle_ack msg) i h e = subst IsBounded (ground arith) h
  perform-IsBounded nonce from (handle_indirect_ping msg) i h e = subst IsBounded (ground arith) h
  perform-IsBounded nonce from (handle_indirect_ack msg) i h e = subst IsBounded (ground arith) h
  perform-IsBounded nonce from (not_supported t) i h e = subst IsBounded (ground arith) h
  perform-IsBounded nonce from missing_type i h e = subst IsBounded (ground arith) h
  perform-IsBounded nonce from bad_compound i h e = subst IsBounded (ground arith) h

  perform_all-IsBounded :
      (nonces : ℕ → Bytes) (from : UdpAddr) (calls : List Call) (i : Inbox H) (i' : Inbox H)
      → IsBounded i.long_run_mng
      → perform_all ops ceil_log10 ub codec aead s msgs l nonces from calls i ≡ some i'
      → IsBounded i'.long_run_mng
  unfolding perform_all
  perform_all-IsBounded nonces from [] i i' h e = subst IsBounded (ground arith) h
  perform_all-IsBounded nonces from (call ∷ calls) i i' h e =
      elim (Option-cases
        (perform ops ceil_log10 ub codec aead s msgs l (nonces (length calls)) from call i)) [
          | inl stuck ↦ absurd (ground arith)
          | inr (next, done) ↦
              perform_all-IsBounded nonces from calls next i'
                (perform-IsBounded (nonces (length calls)) from call i h done) (ground arith)
        ]

  pub handle_packet-IsBounded :
      (nonces : ℕ → Bytes) (from : UdpAddr) (packet : Bytes) (i : Inbox H) {i' : Inbox H}
      → IsBounded i.long_run_mng
      → handle_packet ops ceil_log10 ub codec aead s msgs l nonces from packet i ≡ some i'
      → IsBounded i'.long_run_mng
  unfolding handle_packet
  handle_packet-IsBounded nonces from packet i {i' = i'} h e =
      go (unpack_packet codec aead s packet) refl
    where
      go : (r : Received) → unpack_packet codec aead s packet ≡ r → IsBounded i'.long_run_mng
      go (received msg) u =
          perform_all-IsBounded nonces from (handle_udp_msg msg) i i' h (ground arith)
      go refused u = subst IsBounded (ground arith) h
      go panics u = absurd (ground arith)
