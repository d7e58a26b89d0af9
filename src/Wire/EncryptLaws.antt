-- ===== src/Wire/EncryptLaws.antt =====
-- encrypt.go: what is encrypted is decrypted, on packets and on streams.
use mlist.Prelude.{
  ℕ, ◌+◌, ◌%◌, ◌≡◌, ◌≤◌, ◌<◌, ap, ◌∙◌, sym, List, ◌∷◌, ◌++◌, some, arith, length, length-append,
  take, drop, Option-cases, inl, inr,
}
use mlist.Members.Types.{Bytes}
use mlist.Wire.Encrypt.{
  Aead, nonce_size, encrypt_overhead, max_push_size, encrypt_code, put_uint32, uint32, plain,
  encrypt, decrypt, try_keys, decrypt_with_keys, tcp_aad, tcp_header, encrypt_tcp, decrypt_tcp,
}
use mlist.Wire.RoundTrip.{take-append, drop-append}

-- The documented behaviour of AES-GCM: opening what was sealed under the same key, nonce and associated
-- data gives the text, and sealing adds a tag of 16 bytes.
pub record IsAead (aead : Aead) : Type 0 where
  pub unseal-seal :
      (key nonce msg aad ct : Bytes)
      → aead.seal key nonce msg aad ≡ some ct
      → aead.unseal key nonce ct aad ≡ some msg
  pub tag_size :
      (key nonce msg aad ct : Bytes)
      → aead.seal key nonce msg aad ≡ some ct
      → length ct ≡ length msg + 16

pub uint32-put_uint32 : (n : ℕ) → n < 4294967296 → uint32 (put_uint32 n) ≡ n
unfolding uint32 put_uint32
uint32-put_uint32 n h = omega arith

module _ (aead : Aead) (laws : IsAead aead) where
  pub length-encrypt :
      (nonce key msg aad ct : Bytes)
      → length nonce ≡ nonce_size
      → encrypt aead nonce key msg aad ≡ some ct
      → length ct ≡ encrypt_overhead + length msg
  unfolding encrypt
  length-encrypt nonce key msg aad ct n e = elim (Option-cases (aead.seal key nonce msg aad)) [
    | inl bad ↦ absurd (ground arith)
    | inr (auth_ct, sealed) ↦
        ground (arith, laws.tag_size key nonce msg aad auth_ct, length-append nonce auth_ct)
  ]

  -- A packet encrypted under the first of the receiver's keys, with a nonce of 12 bytes and the same
  -- associated data, is decrypted to the message.
  pub decrypt-encrypt :
      (nonce key msg aad ct : Bytes) (keys : List Bytes)
      → length nonce ≡ nonce_size
      → encrypt aead nonce key msg aad ≡ some ct
      → decrypt_with_keys aead (key ∷ keys) ct aad ≡ plain msg
  unfolding encrypt decrypt_with_keys try_keys decrypt
  decrypt-encrypt nonce key msg aad ct keys n e =
      elim (Option-cases (aead.seal key nonce msg aad)) [
        | inl bad ↦ absurd (ground arith)
        | inr (auth_ct, sealed) ↦ ground (
          arith,
          laws.unseal-seal key nonce msg aad auth_ct,
          laws.tag_size key nonce msg aad auth_ct,
          length-append nonce auth_ct,
          ap (λ k. take k (nonce ++ auth_ct)) n,
          take-append nonce auth_ct,
          ap (λ k. drop k (nonce ++ auth_ct)) n,
          drop-append nonce auth_ct,
        )
      ]

  decrypt_tcp_framed :
      (keys : List Bytes) (ct rest label : Bytes) (size : ℕ)
      → length ct ≡ size
      → size ≤ max_push_size
      → decrypt_tcp aead keys ((put_uint32 size ++ ct) ++ rest) label
        ≡ decrypt_with_keys aead keys ct (tcp_aad (encrypt_code ∷ put_uint32 size) label)
  unfolding decrypt_tcp put_uint32
  decrypt_tcp_framed keys ct rest label size len small = ground (
    arith,
    uint32-put_uint32 size (omega arith),
    length-append ct rest,
    ap (λ k. take k (ct ++ rest)) len,
    take-append ct rest,
  )

  -- A message of at most 20 MB, with the 29 bytes of overhead, that is encrypted for a stream under the
  -- first of the receiver's keys and the same label, is decrypted to the message, whatever follows it
  -- on the stream.
  pub decrypt_tcp-encrypt_tcp :
      (nonce key msg label bytes : Bytes) (keys : List Bytes)
      → length nonce ≡ nonce_size
      → encrypt_overhead + length msg ≤ max_push_size
      → encrypt_tcp aead nonce key msg label ≡ some bytes
      → (stream : Bytes) × (bytes ≡ encrypt_code ∷ stream)
        × ((rest : Bytes) → decrypt_tcp aead (key ∷ keys) (stream ++ rest) label ≡ plain msg)
  unfolding encrypt_tcp tcp_header
  decrypt_tcp-encrypt_tcp nonce key msg label bytes keys n small e =
      let aad = tcp_aad (tcp_header (length msg)) label in
      let size = encrypt_overhead + length msg in
      let fits : size % 4294967296 ≡ size = omega arith in
      elim (Option-cases (encrypt aead nonce key msg aad)) [
        | inl bad ↦ absurd (ground arith)
        | inr (ct, sealed) ↦ (
          put_uint32 (size % 4294967296) ++ ct,
          ground arith,
          λ rest. rw fits (
              decrypt_tcp_framed (key ∷ keys) ct rest label size
                (length-encrypt nonce key msg aad ct n sealed) small
              ∙ ap
                  (λ k.
                    decrypt_with_keys aead (key ∷ keys) ct
                      (tcp_aad (encrypt_code ∷ put_uint32 k) label))
                  (sym fits)
              ∙ decrypt-encrypt nonce key msg aad ct keys n sealed),
        )
      ]
