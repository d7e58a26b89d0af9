-- ===== src/Tests/Gossip.antt =====
-- Datagrams of a node with two broadcasts that wait.
use mlist.Prelude.{ℕ, ◌+◌, ◌≡◌, refl, List, [], ◌∷◌, ◌++◌, none, some, arith, leb, if◌then◌else◌}
use mlist.Members.Types.{Bytes}
use mlist.Keyring.Keys.{encryption_enabled, get_keys, get_primary_key}
use mlist.Wire.Compound.{pack_compound_msg, write_lengths, write_bodies}
use mlist.Wire.Encrypt.{encrypt, put_uint32}
use mlist.Wire.Packet.{
  received, has_crc_code, shrink, compress, seal_packet, add_crc, pack_udp, unpack_packet,
}
use mlist.Inbox.Dispatch.{handle_each, handle_udp_msg}
use mlist.Gossip.Send.{gossip, with_piggyback}
use mlist.Gossip.Parts.{AllSentWithin, IsWithin}
use mlist.Gossip.Sizes.{gossip-fits}
use mlist.Gossip.Delivery.{unpack_packet-with_piggyback}
use mlist.Tests.Members.{config, two}
use mlist.Tests.Parts.{stack, waiting}
use mlist.Tests.Wire.{tag, only_tag, only_tag-IsAead, identity, identity-IsCodec, nonce, sealed}

-- The user has one message of two bytes, if there is room for it.
abbrev user_two : ℕ → ℕ → List Bytes
user_two overhead limit = if leb (overhead + 2) limit then (7 ∷ 8 ∷ []) ∷ [] else []

user_two-fits : IsWithin (some user_two)
user_two-fits overhead limit = ground arith

gossip-fits_example :
    AllSentWithin 105
      (gossip stack
        (λ n. n)
        (some user_two)
        identity
        only_tag
        sealed
        config
        (λ i j. nonce)
        (λ n. n)
        100
        3
        30
        50
        two
        waiting).1
gossip-fits_example =
    gossip-fits stack (λ n. n) (some user_two) identity only_tag only_tag-IsAead sealed config
      (λ i j. nonce) (λ n. n) 100 3 30 50 two waiting user_two-fits (λ i j. refl)

abbrev packet : Bytes
packet =
    0
    ∷ (nonce
        ++ (tag ++ (has_crc_code ∷ (put_uint32 0 ++ (8 ∷ 2 ∷ 0 ∷ 2 ∷ 0 ∷ 2 ∷ 2 ∷ 5 ∷ 4 ∷ 9 ∷ [])))))

unpack_packet-with_piggyback_example :
    (whole : Bytes) × (unpack_packet identity only_tag sealed packet ≡ received whole)
    × (handle_udp_msg whole
        ≡ handle_udp_msg (2 ∷ 5 ∷ []) ++ handle_each handle_udp_msg ((4 ∷ 9 ∷ []) ∷ []))
unfolding pack_udp with_piggyback pack_compound_msg write_lengths write_bodies shrink compress
    seal_packet add_crc encryption_enabled get_keys get_primary_key encrypt
unpack_packet-with_piggyback_example =
    unpack_packet-with_piggyback stack (λ n. n) none identity only_tag sealed nonce (5 ∷ []) packet
      2 ((4 ∷ 9 ∷ []) ∷ []) identity-IsCodec only_tag-IsAead refl (λ e. absurd (omega arith))
      (omega arith) (omega arith, (omega arith, tt)) refl
