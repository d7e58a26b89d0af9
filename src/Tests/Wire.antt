-- ===== src/Tests/Wire.antt =====
-- Messages of a few bytes, a cipher that only adds a tag, and a compression that changes nothing.
use mlist.Prelude.{
  ◌≡◌, ◌↔◌, refl, List, [], ◌∷◌, ◌++◌, Option, true, false, none, some, arith, length, take, drop,
  get_or,
}
use mlist.Members.Types.{Bytes}
use mlist.Wire.Compound.{split_to_compound_msgs}
use mlist.Wire.RoundTrip.{take-append}
use mlist.Wire.Split.{unpack_all, unpack-split_to_compound_msgs}
use mlist.Wire.Encrypt.{Aead, put_uint32, uint32, encrypt_code}
use mlist.Wire.EncryptLaws.{IsAead}
use mlist.Wire.Stream.{open_stream, unpack_stream}
use mlist.Wire.StreamLaws.{unpack_stream-eq-panics_iff}
use mlist.Wire.Packet.{
  compress_code, decompress, decompress_msg, Codec, Compressed, Settings, check_crc, open_body,
  panics, has_crc_code, unpack_packet,
}
use mlist.Wire.PacketLaws.{IsCodec, unpack_packet-eq-panics_iff}

abbrev pub tag : Bytes
tag = 0 ∷ 0 ∷ 0 ∷ 0 ∷ 0 ∷ 0 ∷ 0 ∷ 0 ∷ 0 ∷ 0 ∷ 0 ∷ 0 ∷ 0 ∷ 0 ∷ 0 ∷ 0 ∷ []

abbrev pub only_tag : Aead
only_tag = record {
  seal = λ key nonce msg aad. some (tag ++ msg);
  unseal = λ key nonce ct aad. some (drop 16 ct);
}

pub only_tag-IsAead : IsAead only_tag
only_tag-IsAead = record {
  unseal-seal = λ key nonce msg aad ct e. ground arith;
  tag_size = λ key nonce msg aad ct e. ground arith;
}

abbrev unmarshal_plain : Bytes → Option Compressed
unmarshal_plain (a ∷ n ∷ b) = some (record { algo = a; buf = take n b })
unmarshal_plain _ = none

abbrev pub identity : Codec
identity = record {
  lzw = λ m. some m;
  unlzw = λ m. some m;
  marshal = λ c. some (c.algo ∷ length c.buf ∷ c.buf);
  unmarshal = unmarshal_plain;
  crc = λ m. 0;
}

pub identity-IsCodec : IsCodec identity
identity-IsCodec = record {
  unlzw-lzw = λ m b e. ground arith;
  unmarshal-marshal = λ c b rest e. ground (arith, take-append c.buf rest);
  crc_bound = λ m. omega arith;
}

abbrev messages : List Bytes
messages = (4 ∷ 7 ∷ []) ∷ (5 ∷ []) ∷ []

unpack-split_to_compound_msgs_example : unpack_all (split_to_compound_msgs messages) ≡ messages
unpack-split_to_compound_msgs_example =
    unpack-split_to_compound_msgs messages (omega arith, (omega arith, tt))

abbrev one_part : List Bytes
one_part = (9 ∷ []) ∷ []

abbrev pub nonce : Bytes
nonce = 1 ∷ 2 ∷ 3 ∷ 4 ∷ 5 ∷ 6 ∷ 7 ∷ 8 ∷ 9 ∷ 10 ∷ 11 ∷ 12 ∷ []

abbrev on_stream : Bytes
on_stream = encrypt_code ∷ (put_uint32 30 ++ (0 ∷ (nonce ++ (tag ++ (42 ∷ [])))))

abbrev pub key : Bytes
key = 7 ∷ 7 ∷ 7 ∷ 7 ∷ 7 ∷ 7 ∷ 7 ∷ 7 ∷ 7 ∷ 7 ∷ 7 ∷ 7 ∷ 7 ∷ 7 ∷ 7 ∷ 7 ∷ []

abbrev pub sealed : Settings
sealed = record {
  enable_compression = true;
  keyring = some (record { primary_key = some key; keys = key ∷ [] });
  label = 97 ∷ [];
}

abbrev packet : Bytes
packet = 0 ∷ (nonce ++ (tag ++ (has_crc_code ∷ (put_uint32 0 ++ (4 ∷ 5 ∷ [])))))

abbrev pub bare : Settings
bare = record { enable_compression = false; keyring = none; label = [] }

abbrev five : Bytes
five = has_crc_code ∷ 0 ∷ 0 ∷ 0 ∷ 0 ∷ []

unpack_packet-eq-panics_iff_example : (unpack_packet identity only_tag bare five ≡ panics) ↔ (
    (length five ≡ 5)
    × (get_or five 0 0 ≡ has_crc_code)
    × (identity.crc [] ≡ uint32 (take 4 (drop 1 five))))
unpack_packet-eq-panics_iff_example = unpack_packet-eq-panics_iff identity only_tag bare five refl

five_panics : unpack_packet identity only_tag bare five ≡ panics
unfolding unpack_packet check_crc open_body uint32
five_panics = refl

abbrev packed : Bytes
packed = encrypt_code ∷ (put_uint32 31 ++ (0 ∷ (nonce ++ (tag ++ (4 ∷ 5 ∷ [])))))

abbrev empty_compressed : Bytes
empty_compressed = compress_code ∷ 0 ∷ 0 ∷ []

unpack_stream-eq-panics_iff_example :
    (unpack_stream identity only_tag bare empty_compressed [] ≡ panics) ↔ (
      (msg : Bytes) × (empty_compressed ≡ compress_code ∷ msg)
      × (decompress_msg identity only_tag msg ≡ some []))
unpack_stream-eq-panics_iff_example =
    unpack_stream-eq-panics_iff identity only_tag bare empty_compressed [] refl

empty_panics : unpack_stream identity only_tag bare empty_compressed [] ≡ panics
unfolding unpack_stream open_stream decompress_msg decompress
empty_panics = refl
