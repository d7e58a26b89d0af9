-- ===== src/Inbox/Streams.antt =====
-- net_handlers.go: `handleTcpConn` and `handlePingTcp`; ping.go: `TcpPing`. A connection is what it does
-- (`Conn`), with whether an error of reading is the `io.EOF` that is passed over in silence. `put_error`
-- encodes the response to the others.
use Prim.Native.String.{String}
use mlist.Prelude.{ℕ, [], ◌∷◌, Bool, false, Option, none, some, ◌==◌, if◌then◌else◌}
use mlist.Suspicion.{Floats}
use mlist.Members.Types.{Bytes, Config, Memberlist}
use mlist.Wire.Encrypt.{Aead}
use mlist.Wire.Packet.{Codec, Settings, received, refused, panics}
use mlist.Wire.Stream.{unpack_stream}
use mlist.Ping.Manager.{PingManager, next_seq_no}
use mlist.PushPull.Encoding.{StateCodec, push_pull_code}
use mlist.PushPull.Exchange.{Conn, Sync, send_tcp, handle_push_pull}
use mlist.Inbox.Replies.{Ping, MsgCodec, Local, ack_code, is_for_us}

abbrev pub ping_code : ℕ
ping_code = 0

abbrev err_code : ℕ
err_code = 13

-- `pushed` is what a push/pull does to the table; the others leave it alone.
pub data TcpResult : Type 0 where
  silent : TcpResult
  replied : Bytes → TcpResult
  pushed : Option Bytes → Sync → TcpResult
  crashes : TcpResult

abbrev pub replied_if : Option Bytes → TcpResult
replied_if none = silent
replied_if (some b) = replied b

abbrev pub pushed_by : Option Bytes × Sync → TcpResult
pushed_by (reply, sync) = pushed reply sync

module _ (codec : Codec) (aead : Aead) (states : StateCodec) (s : Settings) (msgs : MsgCodec)
    (l : Local) where
  -- What is written of a message that was encoded, if it could be.
  unfoldable pub send_encoded : Bool → Bytes → ℕ → Option Bytes → Option Bytes
  send_encoded writes nonce code none = none
  send_encoded writes nonce code (some body) =
      send_tcp codec aead states s writes nonce (code ∷ body)

  unfoldable pub handle_ping_tcp : Bool → Bytes → Bytes → Option Bytes
  unfolding send_encoded
  handle_ping_tcp writes nonce msg = elim (msgs.get_ping msg) [
    | none ↦ none
    | some p ↦
        if is_for_us l p
        then send_encoded writes nonce ack_code
            (msgs.put_ack (record { seq_no = p.seq_no; payload = [] }))
        else none
  ]

  module _ {F : Type 0} (fl : Floats F) (c : Config) (put_error : Option Bytes) where
    unfoldable pub handle_stream :
        ℕ → ℕ → Bool → Option Bytes → Bytes → ℕ → (ℕ → ℕ) → Memberlist → Bytes → TcpResult
    unfolding handle_ping_tcp
    handle_stream max_push_pulls n_pp writes usr nonce now rnd m [] = crashes
    handle_stream max_push_pulls n_pp writes usr nonce now rnd m (t ∷ msg) =
        if t == push_pull_code
        then pushed_by (
            handle_push_pull codec aead states s fl c max_push_pulls n_pp writes usr nonce msg now
              rnd m)
        else if t == ping_code
        then replied_if (handle_ping_tcp writes nonce msg)
        else silent

    unfoldable pub handle_tcp_conn :
        ℕ → ℕ → Bool → Option Bytes → Bytes → ℕ → (ℕ → ℕ) → Memberlist → Bool → Bytes → TcpResult
    unfolding handle_stream
    handle_tcp_conn max_push_pulls n_pp writes usr nonce now rnd m is_eof stream =
        elim (unpack_stream codec aead s stream s.label) [
          | received msg ↦ handle_stream max_push_pulls n_pp writes usr nonce now rnd m msg
          | refused ↦
              if is_eof then silent else replied_if (send_encoded writes nonce err_code put_error)
          | panics ↦ crashes
        ]

  -- The ack of `seq_no`.
  unfoldable pub is_ack_of : ℕ → Bytes → Bool
  is_ack_of seq_no [] = false
  is_ack_of seq_no (t ∷ msg) =
      if t == ack_code
      then elim (msgs.get_ack msg) [ none ↦ false | some a ↦ a.seq_no == seq_no ]
      else false

  -- From the sending of the ping on, with its number. A panic is `none`.
  unfoldable pub tcp_ping_with : Conn → Bytes → Ping → Option Bool
  unfolding send_encoded is_ack_of
  tcp_ping_with conn nonce p =
      if conn.dialled
      then elim (send_encoded conn.writes nonce ping_code (msgs.put_ping p)) [
        | none ↦ some false
        | some _ ↦ elim (unpack_stream codec aead s conn.arrives s.label) [
          | received msg ↦ some (is_ack_of p.seq_no msg)
          | refused ↦ some false
          | panics ↦ none
        ]
      ]
      else some false

  -- `local_addr` is the result of `GetAdvertiseAddr`. A number is taken also where the ping then fails.
  unfoldable pub tcp_ping :
      Option (Bytes × ℕ) → Conn → Bytes → String → PingManager → PingManager × Option Bool
  unfolding tcp_ping_with
  tcp_ping none conn nonce id mng = (mng, some false)
  tcp_ping (some (ip, port)) conn nonce id mng =
      let (mng, n) = next_seq_no mng in
      (
        mng,
        tcp_ping_with conn nonce
            (record { seq_no = n; id = id; source_ip = ip; source_port = port }),
      )
