-- ===== src/Wire/StreamLaws.antt =====
-- net_transport.go: a stream is unpacked to the message that was packed, and what makes it panic.
use mlist.Prelude.{
  ℕ, ◌+◌, ◌≤◌, ◌≡◌, ◌≢◌, ◌↔◌, ◌⊎◌, refl, ap, ◌∙◌, [], ◌∷◌, ◌++◌, ◌&&◌, none, some, arith, ◌==◌, ltb,
  length, append-nil, Bool-cases, Option-cases, inl, inr,
}
use mlist.Members.Types.{Bytes}
use mlist.Keyring.Keys.{get_primary_key, encryption_enabled}
use mlist.Wire.Encrypt.{
  Aead, nonce_size, encrypt_code, encrypt_overhead, max_push_size, encrypt_tcp,
}
use mlist.Wire.EncryptLaws.{IsAead, decrypt_tcp-encrypt_tcp}
use mlist.Wire.Packet.{
  Codec, compress_code, Settings, Received, received, panics, compress, decompress_msg, shrink,
}
use mlist.Wire.PacketLaws.{IsCodec, decompress-compress, get_keys-primary}
use mlist.Wire.Stream.{
  seal_stream, pack_tcp, split_type, open_stream, decrypt_stream, unpack_stream,
}

pub length-shrink :
    (codec : Codec) (aead : Aead) (s : Settings) (msg small : Bytes)
    → shrink codec aead s msg ≡ some small
    → length small ≤ length msg
unfolding shrink
length-shrink codec aead s msg small e = elim (Option-cases (compress codec aead msg)) [
  | inl bad ↦ ground arith
  | inr (b, done) ↦ ground arith
]

module _ (codec : Codec) (aead : Aead) (laws : IsCodec codec) where
  -- A received message, with what follows it on the connection or nothing.
  abbrev pub IsReceived : Bytes → Bytes → Received → Type 0
  IsReceived msg rest r = (r ≡ received (msg ++ rest)) ⊎ (r ≡ received msg)

  -- What `shrink` makes of a message is no encrypted message, and opens to the message.
  open_stream-shrink :
      (s : Settings) (t : ℕ) (msg small rest : Bytes)
      → t ≢ compress_code
      → t ≢ encrypt_code
      → shrink codec aead s (t ∷ msg) ≡ some small
      → (u : ℕ) × (body : Bytes) × (small ≡ u ∷ body)
        × (u ≢ encrypt_code)
        × IsReceived (t ∷ msg) rest (open_stream codec aead (u ∷ (body ++ rest)))
  unfolding shrink open_stream
  open_stream-shrink s t msg small rest nc ne e =
      elim (Option-cases (compress codec aead (t ∷ msg))) [
        | inl bad ↦ elim (Bool-cases s.enable_compression) [
          | inl on ↦ absurd (ground arith)
          | inr off ↦ (t, msg, ground arith, ne, inl (ground arith))
        ]
        | inr (b, done) ↦
            let (body, shape, back) = decompress-compress codec aead laws (t ∷ msg) b done in
            elim (Bool-cases (s.enable_compression && ltb (length b) (length (t ∷ msg)))) [
              | inl smaller ↦
                  (compress_code, body, ground arith, omega arith, inr (ground (arith, back rest)))
              | inr larger ↦ (t, msg, ground arith, ne, inl (ground arith))
            ]
      ]

  -- Whatever the settings (compressed or not, encrypted or not), a message of at most 20 MB with the 29
  -- bytes of overhead, whose type byte is not that of a compressed or of an encrypted message, is
  -- received from the stream that `packTcp` makes of it, by a receiver with the same settings and label;
  -- behind it the reader holds what follows on the connection, or nothing.
  pub unpack_stream-pack_tcp :
      (s : Settings) (nonce msg stream_label packed rest : Bytes) (t : ℕ)
      → IsAead aead
      → length nonce ≡ nonce_size
      → encrypt_overhead + length (t ∷ msg) ≤ max_push_size
      → t ≢ compress_code
      → t ≢ encrypt_code
      → pack_tcp codec aead s nonce (t ∷ msg) stream_label ≡ some packed
      → IsReceived (t ∷ msg) rest (unpack_stream codec aead s (packed ++ rest) stream_label)
  unfolding pack_tcp unpack_stream seal_stream decrypt_stream
  unpack_stream-pack_tcp s nonce msg stream_label packed rest t sound n fits nc ne e =
      elim (Option-cases (shrink codec aead s (t ∷ msg))) [
        | inl bad ↦ absurd (ground arith)
        | inr (small, shrunk) ↦
            let (u, body, shape, plain_type, opened) =
              open_stream-shrink s t msg small rest nc ne shrunk in
            let (v, whole, shape', _, opened') = open_stream-shrink s t msg small [] nc ne shrunk in
            let len = length-shrink codec aead s (t ∷ msg) small shrunk in
            elim (Option-cases s.keyring) [
              | inl bare ↦ ground arith
              | inr (r, ring) ↦ elim (Bool-cases (encryption_enabled (some r))) [
                | inr off ↦ ground arith
                | inl on ↦
                    let (others, first) = get_keys-primary codec aead laws r on in
                    let sealed : encrypt_tcp aead nonce (get_primary_key r) small stream_label
                        ≡ some packed =
                      ground arith in
                    let (stream, start, back) =
                      decrypt_tcp-encrypt_tcp aead sound nonce (get_primary_key r) small
                        stream_label packed others n (omega arith) sealed in
                    elim opened' [
                      | inl a ↦ inr (ground (arith, back rest, append-nil whole, append-nil msg))
                      | inr a ↦ inr (ground (arith, back rest, append-nil whole))
                    ]
              ]
            ]
      ]

-- Without a keyring `unpackStream` panics on exactly the streams that begin with the type byte of a
-- compressed message and go on with a compressed message of no bytes: the index `data[0]` is then out
-- of range.
pub unpack_stream-eq-panics_iff :
    (codec : Codec) (aead : Aead) (s : Settings) (stream label : Bytes)
    → s.keyring ≡ none
    → (unpack_stream codec aead s stream label ≡ panics)
      ↔ ((msg : Bytes) × (stream ≡ compress_code ∷ msg) × (decompress_msg codec aead msg ≡ some []))
unfolding unpack_stream open_stream
unpack_stream-eq-panics_iff codec aead s [] label bare =
    (λ e. absurd (ground arith), λ h. absurd (ground (arith, h.1)))
unpack_stream-eq-panics_iff codec aead s (t ∷ msg) label bare = (
  λ e. elim (Bool-cases (t == compress_code)) [
    | inr other ↦ absurd (ground arith)
    | inl coded ↦ elim (Option-cases (decompress_msg codec aead msg)) [
      | inl bad ↦ absurd (ground arith)
      | inr (text, done) ↦ (msg, ground arith, done ∙ ap some (only_empty text (ground arith)))
    ]
  ],
  λ h. ground (arith, h.1, h.2),
)
  where
    only_empty : (text : Bytes) → split_type codec aead text ≡ panics → text ≡ []
    only_empty [] e = refl
    only_empty (u ∷ text) e = absurd (ground arith)
