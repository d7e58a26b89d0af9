-- ===== src/Gossip/Sizes.antt =====
-- How large the datagrams are that go out.
use mlist.Prelude.{
  ℕ, ◌+◌, ◌≤◌, ◌≡◌, ◌⊎◌, refl, ap, List, [], ◌∷◌, ◌++◌, max, Option, some, arith, leb, length,
  Bool-cases, Option-cases, inl, inr,
}
use mlist.Members.Types.{Bytes, Config, Memberlist}
use mlist.Keyring.Keys.{encryption_enabled, get_primary_key}
use mlist.Broadcast.Queue.{HeapOps, TransmitCapQueue, get_messages}
use mlist.Broadcast.Picking.{bytes_of, get_messages-fits}
use mlist.Wire.Compound.{split_to_compound_msgs}
use mlist.Wire.Encrypt.{Aead, nonce_size, put_uint32}
use mlist.Wire.EncryptLaws.{IsAead, length-encrypt}
use mlist.Wire.Packet.{Codec, Settings, pack_udp, seal_packet, add_crc, shrink}
use mlist.Wire.StreamLaws.{length-shrink}
use mlist.Maintenance.Choose.{pick_random_nodes}
use mlist.Gossip.Send.{
  overhead_of, get_broadcasts, send_udp, send_each, send_gossip, gossip_limit, gossip_nodes, gossip,
  accepts_gossip, piggyback_limit, piggyback, with_piggyback, send_msg_piggyback,
}
use mlist.Gossip.Parts.{
  IsWithin, AllWithin, AllSentWithin, length-pack_compound_msg, pack_all-AllWithin,
  add_user_msgs-fits,
}

module _ {H : Type 0} (ops : HeapOps H) (ceil_log10 : ℕ → ℕ)
    (ub : Option (ℕ → ℕ → List Bytes)) where
  -- The messages of `getBroadcasts`, those of the user included, take at most the limit, the overhead
  -- of each included, if those of the user keep to the limit that is left to them.
  get_broadcasts-fits :
      (num_nodes overhead limit : ℕ) (q : TransmitCapQueue H)
      → IsWithin ub
      → bytes_of overhead (get_broadcasts ops ceil_log10 ub num_nodes overhead limit q).1 ≤ limit
  unfolding get_broadcasts
  get_broadcasts-fits num_nodes overhead limit q h = elim (Bool-cases (leb limit overhead)) [
    | inl small ↦ rw (small, get_broadcasts) (omega arith)
    | inr room ↦
        rw (room, get_broadcasts)
          (add_user_msgs-fits ub overhead limit
            (get_messages ops ceil_log10 num_nodes overhead limit q).1 h
            (get_messages-fits ops ceil_log10 num_nodes overhead limit q))
  ]

  module _ (codec : Codec) (aead : Aead) (laws : IsAead aead) (s : Settings) where
    pack_udp_bounds :
        (nonce msg packet : Bytes)
        → length nonce ≡ nonce_size
        → pack_udp codec aead s nonce msg ≡ some packet
        → length packet ≤ length msg + 5 + overhead_of s
    unfolding pack_udp seal_packet add_crc put_uint32 overhead_of
    pack_udp_bounds nonce msg packet n e = elim (Option-cases (shrink codec aead s msg)) [
      | inl bad ↦ absurd (ground arith)
      | inr (small, shrunk) ↦
          let le = length-shrink codec aead s msg small shrunk in
          elim (Option-cases s.keyring) [
            | inl bare ↦ ground arith
            | inr (r, ring) ↦ elim (Bool-cases (encryption_enabled (some r))) [
              | inr off ↦ ground arith
              | inl on ↦
                  let len =
                    length-encrypt aead laws nonce (get_primary_key r) (add_crc codec aead small)
                      s.label packet n in
                  ground arith
            ]
          ]
    ]

    AllWithin-append :
        (n : ℕ) (xs ys : List Bytes) → AllWithin n xs → AllWithin n ys → AllWithin n (xs ++ ys)
    AllWithin-append n [] ys h k = k
    AllWithin-append n (x ∷ xs) ys h k = (h.0, AllWithin-append n xs ys h.1 k)

    send_udp-AllWithin :
        (n : ℕ) (nonce msg : Bytes)
        → length nonce ≡ nonce_size
        → length msg + 5 + overhead_of s ≤ n
        → AllWithin n (send_udp ops ceil_log10 ub codec aead s nonce msg)
    unfolding send_udp
    send_udp-AllWithin n nonce msg len h = elim (Option-cases (pack_udp codec aead s nonce msg)) [
      | inl bad ↦ rw (bad, send_udp) tt
      | inr (packet, packed) ↦
          rw (packed, send_udp) (omega (arith, pack_udp_bounds nonce msg packet len packed), tt)
    ]

    send_each-AllWithin :
        (n limit : ℕ) (nonce : ℕ → Bytes) (ms : List Bytes)
        → ((i : ℕ) → length (nonce i) ≡ nonce_size)
        → limit + 5 + overhead_of s ≤ n
        → AllWithin limit ms
        → AllWithin n (send_each ops ceil_log10 ub codec aead s nonce ms)
    unfolding send_each
    send_each-AllWithin n limit nonce [] len h all = tt
    send_each-AllWithin n limit nonce (m ∷ ms) len h all =
        AllWithin-append n (send_udp ops ceil_log10 ub codec aead s (nonce (length ms)) m)
          (send_each ops ceil_log10 ub codec aead s nonce ms)
          (send_udp-AllWithin n (nonce (length ms)) m (len (length ms)) (omega (arith, all.0)))
          (send_each-AllWithin n limit nonce ms len h all.1)

    send_gossip-AllWithin :
        (n : ℕ) (nonce : ℕ → Bytes) (ms : List Bytes)
        → ((i : ℕ) → length (nonce i) ≡ nonce_size)
        → 2 + bytes_of 2 ms + 5 + overhead_of s ≤ n
        → AllWithin n (send_gossip ops ceil_log10 ub codec aead s nonce ms)
    unfolding send_gossip split_to_compound_msgs
    send_gossip-AllWithin n nonce [] len h = tt
    send_gossip-AllWithin n nonce (m ∷ []) len h =
        send_each-AllWithin n (length m) nonce (m ∷ []) len (omega arith) (omega arith, tt)
    send_gossip-AllWithin n nonce (m ∷ m' ∷ ms) len h =
        let all : List Bytes = m ∷ m' ∷ ms in
        send_each-AllWithin n (2 + bytes_of 2 all) nonce (split_to_compound_msgs all) len h
          (pack_all-AllWithin (2 + bytes_of 2 all) (length all) all (omega arith))

    gossip_nodes-AllSentWithin :
        (nonce : ℕ → ℕ → Bytes) (udp_buffer_size num_nodes : ℕ) (ps : List ℕ)
        (q : TransmitCapQueue H)
        → IsWithin ub
        → ((i j : ℕ) → length (nonce i j) ≡ nonce_size)
        → AllSentWithin
            (udp_buffer_size + 5)
            (gossip_nodes ops ceil_log10 ub codec aead s nonce udp_buffer_size num_nodes ps q).1
    unfolding gossip_nodes
    gossip_nodes-AllSentWithin nonce udp num_nodes [] q h len = tt
    gossip_nodes-AllSentWithin nonce udp num_nodes (p ∷ ps) q h len =
        let r =
          get_broadcasts ops ceil_log10 ub num_nodes 2
            (gossip_limit ops ceil_log10 ub codec aead s udp) q in
        let fits =
          get_broadcasts-fits num_nodes 2 (gossip_limit ops ceil_log10 ub codec aead s udp) q h in
        elim (nonempty r.1) [
          | inl nothing ↦ rw (nothing, gossip_nodes) tt
          | inr (m, ms, some_left) ↦
              rw (some_left, gossip_nodes)
                (
                  send_gossip-AllWithin (udp + 5) (nonce (length ps)) (m ∷ ms) (len (length ps))
                      (omega (arith, fits, ap (bytes_of 2) some_left)),
                  gossip_nodes-AllSentWithin nonce udp num_nodes ps r.0 h len,
                )
        ]
      where
        nonempty : (xs : List Bytes) → (xs ≡ []) ⊎ ((m : Bytes) × (ms : List Bytes) × (xs ≡ m ∷ ms))
        nonempty [] = inl refl
        nonempty (m ∷ ms) = inr (m, ms, refl)

    -- Each datagram of a gossip round has at most `UDPBufferSize` bytes and the five of the checksum,
    -- encrypted or not, if the user's broadcasts keep to the limit that they are given and each nonce
    -- has its length.
    pub gossip-fits :
        (c : Config) (nonce : ℕ → ℕ → Bytes) (draw : ℕ → ℕ)
        (udp_buffer_size num_gossip timeout now : ℕ) (m : Memberlist) (q : TransmitCapQueue H)
        → IsWithin ub
        → ((i j : ℕ) → length (nonce i j) ≡ nonce_size)
        → AllSentWithin
            (udp_buffer_size + 5)
            (gossip ops ceil_log10 ub codec aead s c nonce draw udp_buffer_size num_gossip timeout
              now m q).1
    unfolding gossip
    gossip-fits c nonce draw udp num_gossip timeout now m q =
        gossip_nodes-AllSentWithin nonce udp m.num_nodes
          (pick_random_nodes m (accepts_gossip c m timeout now) draw num_gossip) q

    length-with_piggyback :
        (udp : ℕ) (msg : Bytes) (ms : List Bytes)
        → bytes_of 2 ms ≤ piggyback_limit ops ceil_log10 ub codec aead s udp msg
        → length (with_piggyback ops ceil_log10 ub codec aead s msg ms) + 5 + overhead_of s
          ≤ max (udp + 7) (length msg + 5 + overhead_of s)
    unfolding with_piggyback
    length-with_piggyback udp msg [] h = omega arith
    length-with_piggyback udp msg (m ∷ ms) h =
        omega (arith, length-pack_compound_msg (msg ∷ m ∷ ms))

    -- A message that carries broadcasts goes out in datagrams of at most `UDPBufferSize` bytes and
    -- seven more, or what the message takes alone where that is more, with the same conditions on the
    -- user's broadcasts and the nonce.
    pub send_msg_piggyback-fits :
        (nonce : Bytes) (udp_buffer_size num_nodes : ℕ) (msg : Bytes) (q : TransmitCapQueue H)
        → IsWithin ub
        → length nonce ≡ nonce_size
        → AllWithin
            (max (udp_buffer_size + 7) (length msg + 5 + overhead_of s))
            (send_msg_piggyback ops ceil_log10 ub codec aead s nonce udp_buffer_size num_nodes msg
              q).1
    unfolding send_msg_piggyback piggyback
    send_msg_piggyback-fits nonce udp num_nodes msg q h len =
        send_udp-AllWithin (max (udp + 7) (length msg + 5 + overhead_of s)) nonce
          (with_piggyback ops ceil_log10 ub codec aead s msg
            (piggyback ops ceil_log10 ub codec aead s udp num_nodes msg q).1)
          len
          (length-with_piggyback udp msg
            (piggyback ops ceil_log10 ub codec aead s udp num_nodes msg q).1
            (get_broadcasts-fits num_nodes 2
              (piggyback_limit ops ceil_log10 ub codec aead s udp msg) q h))
