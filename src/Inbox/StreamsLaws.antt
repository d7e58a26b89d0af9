-- ===== src/Inbox/StreamsLaws.antt =====
-- net_handlers.go, ping.go: a ping over a stream is answered, and what counts as an answer.
use mlist.Prelude.{
  ℕ, ◌+◌, ◌≤◌, ◌≡◌, ◌≢◌, [], ◌∷◌, append-nil, Bool, true, Option, some, arith, length,
}
use mlist.Suspicion.{Floats}
use mlist.Members.Types.{Bytes, Config, Memberlist}
use mlist.Wire.Encrypt.{Aead, nonce_size, encrypt_code, encrypt_overhead, max_push_size}
use mlist.Wire.EncryptLaws.{IsAead}
use mlist.Wire.Packet.{Codec, Settings, received, compress_code}
use mlist.Wire.PacketLaws.{IsCodec}
use mlist.Wire.Stream.{pack_tcp, unpack_stream}
use mlist.Wire.StreamLaws.{unpack_stream-pack_tcp}
use mlist.Ping.Manager.{Ack}
use mlist.PushPull.Encoding.{StateCodec}
use mlist.PushPull.Exchange.{Conn, send_tcp}
use mlist.Inbox.Replies.{Ping, MsgCodec, Local, ack_code, is_for_us}
use mlist.Inbox.Streams.{
  ping_code, replied, send_encoded, handle_ping_tcp, handle_stream, handle_tcp_conn, is_ack_of,
  tcp_ping_with,
}

-- The documented behaviour of msgpack for the two messages.
pub record IsMsgCodec (msgs : MsgCodec) : Type 0 where
  pub get-put_ping : (p : Ping) (b : Bytes) → msgs.put_ping p ≡ some b → msgs.get_ping b ≡ some p
  pub get-put_ack : (a : Ack) (b : Bytes) → msgs.put_ack a ≡ some b → msgs.get_ack b ≡ some a

module _ (codec : Codec) (aead : Aead) (states : StateCodec) (s : Settings) (msgs : MsgCodec)
    (l : Local) where
  unpack_stream-send_encoded :
      (writes : Bool) (nonce body packed : Bytes) (t : ℕ)
      → IsCodec codec
      → IsAead aead
      → length nonce ≡ nonce_size
      → encrypt_overhead + length (t ∷ body) ≤ max_push_size
      → t ≢ compress_code
      → t ≢ encrypt_code
      → send_encoded codec aead states s msgs l writes nonce t (some body) ≡ some packed
      → unpack_stream codec aead s packed s.label ≡ received (t ∷ body)
  unfolding send_encoded send_tcp
  unpack_stream-send_encoded writes nonce body packed t laws sound len small nc ne e =
      let sent : pack_tcp codec aead s nonce (t ∷ body) s.label ≡ some packed = ground arith in
      let got =
        unpack_stream-pack_tcp codec aead laws s nonce body s.label packed [] t sound len small nc
          ne sent in
      ground (arith, got, append-nil packed, append-nil body)

  -- `TcpPing` succeeds with a node of the same settings that the ping is for, if the connection is
  -- made and what arrives on it is the node's answer: the node answers the ping by that ack. Both
  -- messages take at most 20 MB.
  pub tcp_ping_with-handle_tcp_conn :
      {F : Type 0} (fl : Floats F) (c : Config) (put_error : Option Bytes) (max_push_pulls n_pp : ℕ)
      (writes : Bool) (usr : Option Bytes) (nonce nonce' sent ping_body ack_body : Bytes) (now : ℕ)
      (rnd : ℕ → ℕ) (m : Memberlist) (is_eof : Bool) (conn : Conn) (p : Ping)
      → IsCodec codec
      → IsAead aead
      → IsMsgCodec msgs
      → length nonce ≡ nonce_size
      → length nonce' ≡ nonce_size
      → msgs.put_ping p ≡ some ping_body
      → msgs.put_ack (record { seq_no = p.seq_no; payload = [] }) ≡ some ack_body
      → encrypt_overhead + length (ping_code ∷ ping_body) ≤ max_push_size
      → encrypt_overhead + length (ack_code ∷ ack_body) ≤ max_push_size
      → is_for_us l p ≡ true
      → conn.dialled ≡ true
      → send_encoded codec aead states s msgs l conn.writes nonce ping_code (some ping_body)
        ≡ some sent
      → send_encoded codec aead states s msgs l writes nonce' ack_code (some ack_body)
        ≡ some conn.arrives
      → (handle_tcp_conn codec aead states s msgs l fl c put_error max_push_pulls n_pp writes usr
            nonce' now rnd m is_eof sent
          ≡ replied conn.arrives)
        × (tcp_ping_with codec aead states s msgs l conn nonce p ≡ some true)
  unfolding handle_tcp_conn handle_stream handle_ping_tcp tcp_ping_with is_ack_of
  tcp_ping_with-handle_tcp_conn fl c put_error max_push_pulls n_pp writes usr nonce nonce' sent
        ping_body ack_body now rnd m is_eof conn p laws sound good len len' put_p put_a small small'
        ours up out back =
      let asked =
        unpack_stream-send_encoded conn.writes nonce ping_body sent ping_code laws sound len small
          (omega arith) (omega arith) out in
      let answered =
        unpack_stream-send_encoded writes nonce' ack_body conn.arrives ack_code laws sound len'
          small' (omega arith) (omega arith) back in
      let read_p = good.get-put_ping p ping_body put_p in
      let read_a = good.get-put_ack (record { seq_no = p.seq_no; payload = [] }) ack_body put_a in
      (ground arith, ground arith)
