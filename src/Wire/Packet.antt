-- ===== src/Wire/Packet.antt =====
-- net_transport.go: `packUdp` and `unpackPacket`; util.go: `compress`, `decompressMsg` and
-- `decompress`. LZW, msgpack and CRC-32 are the parameter `Codec`. An index out of range panics.
use mlist.Prelude.{
  ℕ, [], ◌∷◌, ◌++◌, Bool, not, ◌||◌, Option, none, some, ltb, ◌==◌, if◌then◌else◌, length, take,
  drop, get_or,
}
use mlist.Members.Types.{Bytes}
use mlist.Keyring.Keys.{Keyring, get_keys, get_primary_key, encryption_enabled}
use mlist.Wire.Encrypt.{Aead, plain, encrypt, decrypt_with_keys, put_uint32, uint32}

-- `compressed{Algo, Buf}`, the one structure that is encoded here.
pub record Compressed : Type 0 where
  pub algo : ℕ
  pub buf : Bytes

pub record Codec : Type 0 where
  pub lzw : Bytes → Option Bytes
  pub unlzw : Bytes → Option Bytes
  pub marshal : Compressed → Option Bytes
  pub unmarshal : Bytes → Option Compressed
  pub crc : Bytes → ℕ

abbrev pub compress_code : ℕ
compress_code = 10

abbrev pub has_crc_code : ℕ
has_crc_code = 12

abbrev pub lzw_algo : ℕ
lzw_algo = 0

-- What the two functions read of the member list.
pub record Settings : Type 0 where
  pub enable_compression : Bool
  pub keyring : Option Keyring
  pub label : Bytes

pub data Received : Type 0 where
  received : Bytes → Received
  refused panics : Received

module _ (codec : Codec) (aead : Aead) where
  open codec use {lzw, unlzw, marshal, unmarshal, crc}

  unfoldable pub compress : Bytes → Option Bytes
  compress msg = elim (lzw msg) [
    | none ↦ none
    | some buf ↦ elim (marshal (record { algo = lzw_algo; buf = buf })) [
      | none ↦ none
      | some bytes ↦ some (compress_code ∷ bytes)
    ]
  ]

  unfoldable pub decompress : Compressed → Option Bytes
  decompress c = if c.algo == lzw_algo then unlzw c.buf else none

  unfoldable pub decompress_msg : Bytes → Option Bytes
  unfolding decompress
  decompress_msg msg = elim (unmarshal msg) [ none ↦ none | some c ↦ decompress c ]

  -- The first step of `packUdp` and `packTcp`: compress, if that makes the message shorter.
  unfoldable pub shrink : Settings → Bytes → Option Bytes
  unfolding compress
  shrink s msg = if s.enable_compression then smaller (compress msg) else some msg
    where
      smaller : Option Bytes → Option Bytes
      smaller none = none
      smaller (some compressed) =
          some (if ltb (length compressed) (length msg) then compressed else msg)

  unfoldable pub add_crc : Bytes → Bytes
  add_crc msg = has_crc_code ∷ (put_uint32 (crc msg) ++ msg)

  unfoldable pub seal_packet : Settings → Bytes → Bytes → Option Bytes
  seal_packet s nonce msg = elim s.keyring [
    | none ↦ some msg
    | some r ↦
        if encryption_enabled (some r)
        then encrypt aead nonce (get_primary_key r) msg s.label
        else some msg
  ]

  unfoldable pub pack_udp : Settings → Bytes → Bytes → Option Bytes
  unfolding shrink add_crc seal_packet
  pack_udp s nonce msg = elim (shrink s msg) [
    | none ↦ none
    | some small ↦ seal_packet s nonce (add_crc small)
  ]

  -- `msg[0]` of what follows the checksum.
  unfoldable pub open_body : Bytes → Received
  unfolding decompress_msg
  open_body [] = panics
  open_body (t ∷ msg) =
      if t == compress_code
      then elim (decompress_msg msg) [ none ↦ refused | some text ↦ received text ]
      else received (t ∷ msg)

  unfoldable pub check_crc : Bytes → Received
  unfolding open_body uint32
  check_crc msg =
      if ltb (length msg) 5 || not (get_or msg 0 0 == has_crc_code)
      then refused
      else if crc (drop 5 msg) == uint32 (take 4 (drop 1 msg))
      then open_body (drop 5 msg)
      else refused

  unfoldable pub unpack_packet : Settings → Bytes → Received
  unfolding check_crc
  unpack_packet s msg = elim s.keyring [
    | none ↦ check_crc msg
    | some r ↦
        if encryption_enabled (some r)
        then elim (decrypt_with_keys aead (get_keys r) msg s.label) [
          | plain text ↦ check_crc text
          | _ ↦ refused
        ]
        else check_crc msg
  ]
