-- ===== src/Gossip/Send.antt =====
-- broadcast.go: `getBroadcasts`; maintenance.go: `gossip`; net_transport.go: `sendUdp`, `SendUserMsg`
-- and `sendMsgPiggyback`. What is handed to the socket is the result, an error of packing sends nothing.
-- A subtraction that would be negative gives 0, which `getBroadcasts` refuses as it refuses less.
use mlist.Prelude.{
  ℕ, ◌+◌, ◌-◌, List, [], ◌∷◌, ◌++◌, Bool, true, false, not, ◌&&◌, ◌||◌, Option, none, some, leb,
  if◌then◌else◌, length,
}
use mlist.Prelude.Maps.{same}
use mlist.Members.Types.{Bytes, StateType, state_dead, Config, Memberlist}
use mlist.Keyring.Keys.{encryption_enabled}
use mlist.Broadcast.Queue.{HeapOps, TransmitCapQueue, get_messages}
use mlist.Broadcast.Picking.{bytes_of}
use mlist.Maintenance.Choose.{pick_random_nodes}
use mlist.Wire.Compound.{pack_compound_msg, split_to_compound_msgs}
use mlist.Wire.Encrypt.{Aead, encrypt_overhead}
use mlist.Wire.Packet.{Codec, Settings, pack_udp}

abbrev user_code : ℕ
user_code = 9

-- compoundHeaderOverhead
abbrev compound_header_overhead : ℕ
compound_header_overhead = 2

-- lenMsgOverhead
abbrev len_msg_overhead : ℕ
len_msg_overhead = 2

-- `make([]byte, 1, len(msg)+1)` and what is appended to it.
abbrev pub user_msg : Bytes → Bytes
user_msg msg = user_code ∷ msg

unfoldable pub user_msgs : List Bytes → List Bytes
user_msgs [] = []
user_msgs (m ∷ ms) = user_msg m ∷ user_msgs ms

-- The messages of the consumer, which follow those of the queue.
unfoldable pub add_user_msgs : Option (ℕ → ℕ → List Bytes) → ℕ → ℕ → List Bytes → List Bytes
unfolding user_msgs
add_user_msgs none overhead limit msgs = msgs
add_user_msgs (some get) overhead limit msgs =
    msgs ++ user_msgs (get (overhead + 1) (limit - bytes_of overhead msgs))

-- What a datagram costs by encryption.
unfoldable pub overhead_of : Settings → ℕ
overhead_of s = if encryption_enabled s.keyring then encrypt_overhead else 0

abbrev is_dead : StateType → Bool
is_dead state_dead = true
is_dead _ = false

-- The test by which `gossip` accepts a node.
unfoldable pub accepts_gossip : Config → Memberlist → ℕ → ℕ → ℕ → Bool
accepts_gossip c m timeout now p =
    not (same (m.store p).node.id c.local_id)
    && (not (is_dead (m.store p).state) || leb (now - (m.store p).state_change) timeout)

-- `UserBroadcasts`, if there is one, is its method `GetBroadcasts`. `num_nodes` is the result of
-- `GetNumNodes`.
module _ {H : Type 0} (ops : HeapOps H) (ceil_log10 : ℕ → ℕ)
    (ubroadcasts : Option (ℕ → ℕ → List Bytes)) where
  unfoldable pub get_broadcasts : ℕ → ℕ → ℕ → TransmitCapQueue H → TransmitCapQueue H × List Bytes
  unfolding add_user_msgs
  get_broadcasts num_nodes overhead limit q =
      if leb limit overhead
      then (q, [])
      else let (q, msgs) = get_messages ops ceil_log10 num_nodes overhead limit q in
        (q, add_user_msgs ubroadcasts overhead limit msgs)

  module _ (codec : Codec) (aead : Aead) (s : Settings) where
    -- `sendUdp` with the nonce that `encrypt` draws.
    unfoldable pub send_udp : Bytes → Bytes → List Bytes
    send_udp nonce msg = elim (pack_udp codec aead s nonce msg) [
      | none ↦ []
      | some packet ↦ packet ∷ []
    ]

    unfoldable pub send_user_msg : Bytes → Bytes → List Bytes
    unfolding send_udp
    send_user_msg nonce msg = send_udp nonce (user_msg msg)

    unfoldable pub send_each : (ℕ → Bytes) → List Bytes → List Bytes
    unfolding send_udp
    send_each nonce [] = []
    send_each nonce (m ∷ ms) = send_udp (nonce (length ms)) m ++ send_each nonce ms

    -- One message goes as it is; more go in compound messages.
    unfoldable pub send_gossip : (ℕ → Bytes) → List Bytes → List Bytes
    unfolding send_each
    send_gossip nonce [] = []
    send_gossip nonce (m ∷ []) = send_each nonce (m ∷ [])
    send_gossip nonce (m ∷ m' ∷ ms) = send_each nonce (split_to_compound_msgs (m ∷ m' ∷ ms))

    abbrev pub gossip_limit : ℕ → ℕ
    gossip_limit udp_buffer_size = udp_buffer_size - compound_header_overhead - overhead_of s

    -- The loop of `gossip` over the nodes: it returns as soon as there is nothing to send.
    unfoldable pub gossip_nodes :
        (ℕ → ℕ → Bytes)
        → ℕ
        → ℕ
        → List ℕ
        → TransmitCapQueue H
        → TransmitCapQueue H × List (ℕ × List Bytes)
    unfolding get_broadcasts send_gossip
    gossip_nodes nonce udp_buffer_size num_nodes [] q = (q, [])
    gossip_nodes nonce udp_buffer_size num_nodes (p ∷ ps) q =
        let (q1, msgs) =
          get_broadcasts num_nodes len_msg_overhead (gossip_limit udp_buffer_size) q in
        let (q2, sent) = gossip_nodes nonce udp_buffer_size num_nodes ps q1 in
        elim msgs [
          | [] ↦ (q1, [])
          | m ∷ ms ↦ (q2, (p, send_gossip (nonce (length ps)) (m ∷ ms)) ∷ sent)
        ]

    unfoldable pub gossip :
        Config
        → (ℕ → ℕ → Bytes)
        → (ℕ → ℕ)
        → ℕ
        → ℕ
        → ℕ
        → ℕ
        → Memberlist
        → TransmitCapQueue H
        → TransmitCapQueue H × List (ℕ × List Bytes)
    unfolding gossip_nodes accepts_gossip
    gossip c nonce draw udp_buffer_size num_gossip timeout now m q =
        gossip_nodes nonce udp_buffer_size m.num_nodes
          (pick_random_nodes m (accepts_gossip c m timeout now) draw num_gossip) q

    abbrev pub piggyback_limit : ℕ → Bytes → ℕ
    piggyback_limit udp_buffer_size msg =
        udp_buffer_size - length msg - compound_header_overhead - overhead_of s

    -- What the message takes along.
    unfoldable pub piggyback : ℕ → ℕ → Bytes → TransmitCapQueue H → TransmitCapQueue H × List Bytes
    unfolding get_broadcasts overhead_of
    piggyback udp_buffer_size num_nodes msg q =
        get_broadcasts num_nodes len_msg_overhead (piggyback_limit udp_buffer_size msg) q

    unfoldable pub with_piggyback : Bytes → List Bytes → Bytes
    with_piggyback msg [] = msg
    with_piggyback msg (m ∷ ms) = pack_compound_msg (msg ∷ m ∷ ms)

    unfoldable pub send_msg_piggyback :
        Bytes → ℕ → ℕ → Bytes → TransmitCapQueue H → TransmitCapQueue H × List Bytes
    unfolding piggyback with_piggyback send_udp
    send_msg_piggyback nonce udp_buffer_size num_nodes msg q =
        let (q, piggy) = piggyback udp_buffer_size num_nodes msg q in
        (q, send_udp nonce (with_piggyback msg piggy))
