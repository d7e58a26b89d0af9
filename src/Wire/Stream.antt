-- ===== src/Wire/Stream.antt =====
-- net_transport.go: `packTcp` and `unpackStream`. The stream is the list of its bytes; the result of
-- `unpackStream` is the message type with the bytes that its reader holds behind it.
use mlist.Prelude.{[], ◌∷◌, Option, none, some, ◌==◌, if◌then◌else◌}
use mlist.Members.Types.{Bytes}
use mlist.Keyring.Keys.{Keyring, get_keys, get_primary_key, encryption_enabled}
use mlist.Wire.Encrypt.{Aead, plain, encrypt_code, encrypt_tcp, decrypt_tcp}
use mlist.Wire.Packet.{
  Codec, compress_code, Settings, Received, received, refused, panics, decompress_msg, shrink,
}

module _ (codec : Codec) (aead : Aead) where
  -- The second step of `packTcp`.
  unfoldable pub seal_stream : Settings → Bytes → Bytes → Bytes → Option Bytes
  seal_stream s nonce msg stream_label = elim s.keyring [
    | none ↦ some msg
    | some r ↦
        if encryption_enabled (some r)
        then encrypt_tcp aead nonce (get_primary_key r) msg stream_label
        else some msg
  ]

  unfoldable pub pack_tcp : Settings → Bytes → Bytes → Bytes → Option Bytes
  unfolding seal_stream
  pack_tcp s nonce msg stream_label = elim (shrink codec aead s msg) [
    | none ↦ none
    | some small ↦ seal_stream s nonce small stream_label
  ]

  -- `msg[0]` and `msg[1:]`.
  abbrev pub split_type : Bytes → Received
  split_type [] = panics
  split_type (t ∷ msg) = received (t ∷ msg)

  -- What follows the decryption, from the type byte on.
  unfoldable pub open_stream : Bytes → Received
  open_stream [] = panics
  open_stream (t ∷ msg) =
      if t == compress_code
      then elim (decompress_msg codec aead msg) [ none ↦ refused | some text ↦ split_type text ]
      else received (t ∷ msg)

  unfoldable pub decrypt_stream : Keyring → Bytes → Bytes → Received
  unfolding open_stream
  decrypt_stream r stream stream_label = elim (decrypt_tcp aead (get_keys r) stream stream_label) [
    | plain text ↦ open_stream text
    | _ ↦ refused
  ]

  unfoldable pub unpack_stream : Settings → Bytes → Bytes → Received
  unfolding open_stream decrypt_stream
  unpack_stream s [] stream_label = refused
  unpack_stream s (t ∷ stream) stream_label =
      let encrypted = t == encrypt_code in
      elim s.keyring [
        | none ↦ if encrypted then refused else open_stream (t ∷ stream)
        | some r ↦
            if encryption_enabled (some r)
            then if encrypted then decrypt_stream r stream stream_label else refused
            else if encrypted
            then refused
            else open_stream (t ∷ stream)
      ]
