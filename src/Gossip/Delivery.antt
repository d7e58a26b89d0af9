-- ===== src/Gossip/Delivery.antt =====
-- net_transport.go: what a message that carries broadcasts does at its receiver.
use mlist.Prelude.{
  ℕ, ◌≤◌, ◌≡◌, ◌≢◌, refl, ap, sym, ◌∙◌, List, [], ◌∷◌, ◌++◌, append-nil, Option, some, arith,
  length,
}
use mlist.Members.Types.{Bytes}
use mlist.Broadcast.Queue.{HeapOps}
use mlist.Wire.Compound.{compound_code, pack_compound_msg}
use mlist.Wire.RoundTrip.{AllFit}
use mlist.Wire.Encrypt.{Aead, nonce_size}
use mlist.Wire.EncryptLaws.{IsAead}
use mlist.Wire.Packet.{Codec, Settings, received, compress_code, pack_udp, unpack_packet}
use mlist.Wire.PacketLaws.{IsCodec, unpack_packet-pack_udp}
use mlist.Inbox.Dispatch.{handle_each, handle_udp_msg}
use mlist.Inbox.DispatchLaws.{handle_udp_msg-pack_compound_msg}
use mlist.Gossip.Send.{with_piggyback}

-- A message with what it takes along starts with its own type byte, or with that of a compound message.
with_piggyback-head :
    {H : Type 0} (ops : HeapOps H) (ceil_log10 : ℕ → ℕ) (ub : Option (ℕ → ℕ → List Bytes))
    (codec : Codec) (aead : Aead) (s : Settings) (t : ℕ) (msg : Bytes) (ms : List Bytes)
    → t ≢ compress_code
    → (u : ℕ) × (rest : Bytes) × (with_piggyback ops ceil_log10 ub codec aead s (t ∷ msg) ms
        ≡ u ∷ rest)
      × (u ≢ compress_code)
unfolding with_piggyback pack_compound_msg
with_piggyback-head ops ceil_log10 ub codec aead s t msg [] ne = (t, msg, refl, ne)
with_piggyback-head ops ceil_log10 ub codec aead s t msg (m ∷ ms) ne =
    (compound_code, _, refl, omega arith)

module _ {H : Type 0} (ops : HeapOps H) (ceil_log10 : ℕ → ℕ) (ub : Option (ℕ → ℕ → List Bytes))
    (codec : Codec) (aead : Aead) (s : Settings) where
  handle_udp_msg-with_piggyback :
      (msg : Bytes) (ms : List Bytes)
      → length ms ≤ 254
      → AllFit (msg ∷ ms)
      → handle_udp_msg (with_piggyback ops ceil_log10 ub codec aead s msg ms)
        ≡ handle_udp_msg msg ++ handle_each handle_udp_msg ms
  unfolding with_piggyback handle_each
  handle_udp_msg-with_piggyback msg [] few fit = sym (append-nil (handle_udp_msg msg))
  handle_udp_msg-with_piggyback msg (m ∷ ms) few fit =
      handle_udp_msg-pack_compound_msg (msg ∷ m ∷ ms) (omega arith) fit

  -- The packet of a message that takes at most 254 others along, each of a length that fits 16 bits, is
  -- accepted by a receiver with the same settings, which handles the message first and the others in
  -- their order after it, as if each had come alone.
  pub unpack_packet-with_piggyback :
      (nonce msg packet : Bytes) (t : ℕ) (ms : List Bytes)
      → IsCodec codec
      → IsAead aead
      → length nonce ≡ nonce_size
      → t ≢ compress_code
      → length ms ≤ 254
      → AllFit ((t ∷ msg) ∷ ms)
      → pack_udp codec aead s nonce (with_piggyback ops ceil_log10 ub codec aead s (t ∷ msg) ms)
        ≡ some packet
      → (whole : Bytes) × (unpack_packet codec aead s packet ≡ received whole)
        × (handle_udp_msg whole ≡ handle_udp_msg (t ∷ msg) ++ handle_each handle_udp_msg ms)
  unpack_packet-with_piggyback nonce msg packet t ms laws sound len ne few fit e =
      let (u, rest, shape, ne') = with_piggyback-head ops ceil_log10 ub codec aead s t msg ms ne in
      (
        u ∷ rest,
        unpack_packet-pack_udp codec aead laws s nonce rest packet u sound len ne'
            (ap (pack_udp codec aead s nonce) (sym shape) ∙ e),
        ap handle_udp_msg (sym shape) ∙ handle_udp_msg-with_piggyback (t ∷ msg) ms few fit,
      )
