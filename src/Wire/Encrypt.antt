-- ===== src/Wire/Encrypt.antt =====
-- encrypt.go. AES-GCM is the parameter `Aead`: `seal` and `unseal` are `aes.NewCipher`, `cipher.NewGCM`
-- and `Seal` or `Open`, with `none` for an error of any of them. The nonce drawn from `rand.Reader` is
-- an argument. `encryptionVersion` has the one value 0.
use mlist.Prelude.{
  ℕ, ◌+◌, ◌*◌, ◌/◌, ◌%◌, List, [], ◌∷◌, ◌++◌, Option, none, some, ltb, if◌then◌else◌, length, take,
  drop, replicate, get_or,
}
use mlist.Members.Types.{Bytes}

pub record Aead : Type 0 where
  -- key, nonce, text, associated data
  pub seal : Bytes → Bytes → Bytes → Bytes → Option Bytes
  pub unseal : Bytes → Bytes → Bytes → Bytes → Option Bytes

abbrev pub nonce_size : ℕ
nonce_size = 12

-- versionSize + nonceSize + tagSize
abbrev pub encrypt_overhead : ℕ
encrypt_overhead = 29

abbrev pub max_push_size : ℕ
max_push_size = 20971520

abbrev pub encrypt_code : ℕ
encrypt_code = 11

-- `binary.BigEndian.PutUint32`, of a value reduced to 32 bits, and `Uint32`.
unfoldable pub put_uint32 : ℕ → Bytes
put_uint32 n = (n / 16777216 % 256) ∷ (n / 65536 % 256) ∷ (n / 256 % 256) ∷ (n % 256) ∷ []

unfoldable pub uint32 : Bytes → ℕ
uint32 b = get_or b 0 0 * 16777216 + get_or b 1 0 * 65536 + get_or b 2 0 * 256 + get_or b 3 0

-- What a decrypting function returns.
pub data Decrypted : Type 0 where
  plain : Bytes → Decrypted
  empty_payload unsupported_version too_small no_key_fits too_large short_read : Decrypted

-- `make([]byte, 5+len(streamLabel))` has that length already, so the appended header and label
-- follow as many zeros.
unfoldable pub tcp_aad : Bytes → Bytes → Bytes
tcp_aad buf [] = take 5 buf
tcp_aad buf (l ∷ label) = replicate (5 + length (l ∷ label)) 0 ++ (take 5 buf ++ (l ∷ label))

unfoldable pub tcp_header : ℕ → Bytes
tcp_header size = encrypt_code ∷ put_uint32 ((encrypt_overhead + size) % 4294967296)

module _ (aead : Aead) where
  open aead use {seal, unseal}

  unfoldable pub encrypt : Bytes → Bytes → Bytes → Bytes → Option Bytes
  encrypt nonce key msg aad = elim (seal key nonce msg aad) [
    | none ↦ none
    | some auth_ct ↦ some (0 ∷ (nonce ++ auth_ct))
  ]

  unfoldable pub decrypt : Bytes → Bytes → Bytes → Option Bytes
  decrypt key msg aad = unseal key (take nonce_size (drop 1 msg)) (drop (1 + nonce_size) msg) aad

  unfoldable pub try_keys : List Bytes → Bytes → Bytes → Decrypted
  unfolding decrypt
  try_keys [] msg data_aad = no_key_fits
  try_keys (key ∷ keys) msg data_aad = elim (decrypt key msg data_aad) [
    | some text ↦ plain text
    | none ↦ try_keys keys msg data_aad
  ]

  unfoldable pub decrypt_with_keys : List Bytes → Bytes → Bytes → Decrypted
  decrypt_with_keys keys [] data_aad = empty_payload
  decrypt_with_keys keys (vsn ∷ msg) data_aad =
      if ltb 0 vsn
      then unsupported_version
      else if ltb (length (vsn ∷ msg)) encrypt_overhead
      then too_small
      else try_keys keys (vsn ∷ msg) data_aad

  unfoldable pub encrypt_tcp : Bytes → Bytes → Bytes → Bytes → Option Bytes
  unfolding encrypt tcp_aad tcp_header
  encrypt_tcp nonce key msg stream_label =
      let header = tcp_header (length msg) in
      elim (encrypt nonce key msg (tcp_aad header stream_label)) [
        | none ↦ none
        | some encrypted ↦ some (header ++ encrypted)
      ]

  -- The type byte is read already; `stream` is what follows it.
  unfoldable pub decrypt_tcp : List Bytes → Bytes → Bytes → Decrypted
  unfolding tcp_aad decrypt_with_keys uint32
  decrypt_tcp keys stream stream_label =
      let header = encrypt_code ∷ take 4 stream in
      let size = uint32 (take 4 stream) in
      let rest = drop 4 stream in
      if ltb (length stream) 4
      then short_read
      else if ltb max_push_size size
      then too_large
      else if ltb (length rest) size
      then short_read
      else decrypt_with_keys keys (take size rest) (tcp_aad header stream_label)
