-- ===== src/Wire/PacketLaws.antt =====
-- net_transport.go: a packet is unpacked to the message that was packed.
use mlist.Prelude.{
  ℕ, ◌<◌, ◌≡◌, ◌≢◌, ◌↔◌, ap, sym, ◌∙◌, List, [], ◌∷◌, ◌++◌, append-nil, true, Option, none, some,
  arith, length, length-drop, take, drop, get_or, Bool-cases, Option-cases, inl, inr,
}
use mlist.Members.Types.{Bytes}
use mlist.Keyring.Keys.{Keyring, get_keys, get_primary_key, encryption_enabled, others}
use mlist.Wire.Encrypt.{Aead, put_uint32, uint32, nonce_size}
use mlist.Wire.EncryptLaws.{IsAead, uint32-put_uint32, decrypt-encrypt}
use mlist.Wire.Packet.{
  Compressed, Codec, compress_code, has_crc_code, lzw_algo, Settings, received, panics, compress,
  decompress_msg, shrink, add_crc, seal_packet, pack_udp, open_body, check_crc, unpack_packet,
}

-- The documented behaviour of LZW, msgpack and CRC-32. A decoder reads the first value of its input.
pub record IsCodec (codec : Codec) : Type 0 where
  pub unlzw-lzw : (m b : Bytes) → codec.lzw m ≡ some b → codec.unlzw b ≡ some m
  pub unmarshal-marshal :
      (c : Compressed) (b rest : Bytes)
      → codec.marshal c ≡ some b
      → codec.unmarshal (b ++ rest) ≡ some c
  pub crc_bound : (m : Bytes) → codec.crc m < 4294967296

module _ (codec : Codec) (aead : Aead) (laws : IsCodec codec) where
  pub decompress-compress :
      (msg b : Bytes)
      → compress codec aead msg ≡ some b
      → (body : Bytes) × (b ≡ compress_code ∷ body)
        × ((rest : Bytes) → decompress_msg codec aead (body ++ rest) ≡ some msg)
  unfolding compress decompress_msg
  decompress-compress msg b e = elim (Option-cases (codec.lzw msg)) [
    | inl bad ↦ absurd (ground arith)
    | inr (buf, small) ↦
        let c : Compressed = record { algo = lzw_algo; buf = buf } in
        elim (Option-cases (codec.marshal c)) [
          | inl bad ↦ absurd (ground arith)
          | inr (bytes, coded) ↦ (
            bytes,
            ground arith,
            λ rest.
                ground
                  (arith, laws.unmarshal-marshal c bytes rest coded, laws.unlzw-lzw msg buf small),
          )
        ]
  ]

  open_body-shrink :
      (s : Settings) (t : ℕ) (msg small : Bytes)
      → t ≢ compress_code
      → shrink codec aead s (t ∷ msg) ≡ some small
      → open_body codec aead small ≡ received (t ∷ msg)
  unfolding shrink open_body
  open_body-shrink s t msg small ne e = elim (Option-cases (compress codec aead (t ∷ msg))) [
    | inl bad ↦ ground arith
    | inr (b, done) ↦
        let (body, shape, back) = decompress-compress (t ∷ msg) b done in
        let whole = ap (decompress_msg codec aead) (sym (append-nil body)) ∙ back [] in ground arith
  ]

  check-add_crc :
      (msg : Bytes) → check_crc codec aead (add_crc codec aead msg) ≡ open_body codec aead msg
  unfolding check_crc add_crc put_uint32
  check-add_crc msg = ground (arith, uint32-put_uint32 (codec.crc msg) (laws.crc_bound msg))

  pub get_keys-primary :
      (r : Keyring)
      → encryption_enabled (some r) ≡ true
      → (rest : List Bytes) × (get_keys r ≡ get_primary_key r ∷ rest)
  unfolding encryption_enabled get_keys get_primary_key
  get_keys-primary r e = elim (Option-cases r.primary_key) [
    | inl absent ↦ absurd (ground arith)
    | inr (p, known) ↦ (others p r.keys, ground arith)
  ]

  -- Whatever the settings (compressed or not, encrypted or not), a message whose type byte is not that
  -- of a compressed message is received unchanged from the packet that `packUdp` makes of it, by a
  -- receiver with the same settings.
  pub unpack_packet-pack_udp :
      (s : Settings) (nonce msg packet : Bytes) (t : ℕ)
      → IsAead aead
      → length nonce ≡ nonce_size
      → t ≢ compress_code
      → pack_udp codec aead s nonce (t ∷ msg) ≡ some packet
      → unpack_packet codec aead s packet ≡ received (t ∷ msg)
  unfolding pack_udp unpack_packet seal_packet
  unpack_packet-pack_udp s nonce msg packet t sound n ne e =
      elim (Option-cases (shrink codec aead s (t ∷ msg))) [
        | inl bad ↦ absurd (ground arith)
        | inr (small, shrunk) ↦
            let body = open_body-shrink s t msg small ne shrunk in
            let crc = check-add_crc small in
            elim (Option-cases s.keyring) [
              | inl bare ↦ ground arith
              | inr (r, ring) ↦ elim (Bool-cases (encryption_enabled (some r))) [
                | inr off ↦ ground arith
                | inl on ↦
                    let (rest, first) = get_keys-primary r on in
                    let open_it =
                      decrypt-encrypt aead sound nonce (get_primary_key r)
                        (add_crc codec aead small) s.label packet rest n in
                    ground arith
              ]
            ]
      ]

-- Without a keyring `unpackPacket` panics on exactly the packets of five bytes that hold the type byte
-- of a checksum and the checksum of no bytes: the index `msg[0]` is then out of range.
pub unpack_packet-eq-panics_iff :
    (codec : Codec) (aead : Aead) (s : Settings) (packet : Bytes)
    → s.keyring ≡ none
    → (unpack_packet codec aead s packet ≡ panics) ↔ (
        (length packet ≡ 5)
        × (get_or packet 0 0 ≡ has_crc_code)
        × (codec.crc [] ≡ uint32 (take 4 (drop 1 packet))))
unfolding unpack_packet open_body
unpack_packet-eq-panics_iff codec aead s packet bare = (
  λ e. elim (Option-cases (no_body (drop 5 packet))) [
    | inl nothing ↦ ground (arith, length-drop 5 packet)
    | inr full ↦ ground (arith, length-drop 5 packet)
  ],
  λ h. ground (arith, length-drop 5 packet),
)
  where
    no_body : Bytes → Option ℕ
    no_body [] = none
    no_body (t ∷ msg) = some t
