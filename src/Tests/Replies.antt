-- ===== src/Tests/Replies.antt =====
-- Pings of `b` and their acks, and the messages that wait for a handler.
use mlist.Prelude.{
  Bool, Option, ◌≡◌, refl, List, [], ◌∷◌, ◌++◌, true, false, none, some, arith, ℕ_discrete,
}
use mlist.Prelude.Maps.{str_dec}
use mlist.Members.Types.{Bytes, Suspect}
use mlist.Maintenance.Run.{run}
use mlist.Keyring.Keys.{encryption_enabled, get_keys, get_primary_key}
use mlist.Broadcast.Queue.{
  TransmitCapItem, get_messages, pick, pop, push, push_all, send_all, transmit_limit, invalidate,
}
use mlist.Wire.Compound.{pack_compound_msg, write_lengths, write_bodies}
use mlist.Wire.Encrypt.{encrypt, encrypt_tcp, tcp_header, put_uint32, encrypt_code}
use mlist.Wire.Packet.{has_crc_code, shrink, compress, seal_packet, add_crc, pack_udp}
use mlist.Wire.Stream.{pack_tcp, seal_stream}
use mlist.Ping.Manager.{new_ping_manager, set_ack_handler}
use mlist.PushPull.Exchange.{Conn, send_tcp}
use mlist.Inbox.LongRun.{
  UdpAddr, LongRunMsg, LongRunMsgManager, alive_msg, suspect_msg, new_long_run_msg_manager,
}
use mlist.Inbox.Dispatch.{Call}
use mlist.Inbox.Replies.{
  Ping, Inbox, Local, handle_packet, perform_all, on_ping, on_ack, reply_addr, is_for_us,
}
use mlist.Inbox.RepliesLaws.{on_ack-on_ping}
use mlist.Inbox.Drain.{Served, drain_all}
use mlist.Inbox.DrainLaws.{inputs_of, emptied, drained, drain_all-run}
use mlist.Inbox.Streams.{replied, send_encoded, handle_tcp_conn, tcp_ping_with}
use mlist.Inbox.StreamsLaws.{tcp_ping_with-handle_tcp_conn}
use mlist.Gossip.Send.{piggyback, with_piggyback, get_broadcasts, add_user_msgs, overhead_of}
use mlist.Tests.Codecs.{small_states, small_msgs, small_msgs-IsMsgCodec}
use mlist.Tests.Members.{no_floats, config, two, three_steps}
use mlist.Tests.Parts.{stack, waiting}
use mlist.Tests.Wire.{tag, only_tag, only_tag-IsAead, identity, identity-IsCodec, nonce, sealed}

abbrev pub node_b : Local
node_b = record { id = "b"; num_nodes = 2; udp_buffer_size = 1400; payload = some (42 ∷ []) }

abbrev pub asker : UdpAddr
asker = record { ip = 9 ∷ []; port = 7946 }

abbrev ping_b : Ping
ping_b = record { seq_no = 7; id = "b"; source_ip = 9 ∷ []; source_port = 7946 }

abbrev inbox_b : Inbox (List TransmitCapItem)
inbox_b = record {
  broadcasts = waiting;
  ping_mng = new_ping_manager;
  long_run_mng = new_long_run_msg_manager 8;
  sent = [];
  relays = [];
}

-- The channel 5 waits for the ack of ping 7.
abbrev inbox_a : Inbox (List TransmitCapItem)
inbox_a = record inbox_b { ping_mng = set_ack_handler 7 5 new_ping_manager }

-- The ack, with both broadcasts.
abbrev packet : Bytes
packet =
    0
    ∷ (nonce
        ++ (tag
            ++ (has_crc_code
                ∷ (put_uint32 0
                    ++ (8 ∷ 3 ∷ 0 ∷ 3 ∷ 0 ∷ 3 ∷ 0 ∷ 2 ∷ 2 ∷ 7 ∷ 42 ∷ 4 ∷ 1 ∷ 2 ∷ 4 ∷ 3 ∷ [])))))

on_ack-on_ping_example :
    ((on_ping stack
        (λ n. n)
        none
        identity
        only_tag
        sealed
        small_msgs
        node_b
        nonce
        asker
        (1 ∷ 7 ∷ 7946 ∷ 9 ∷ [])
        inbox_b).sent
      ≡ (reply_addr (9 ∷ []) 7946 asker, packet) ∷ [])
    × ((others : List Call) × (handle_packet stack
            (λ n. n)
            none
            identity
            only_tag
            sealed
            small_msgs
            node_b
            (λ n. nonce)
            asker
            packet
            inbox_a
          ≡ perform_all stack
              (λ n. n)
              none
              identity
              only_tag
              sealed
              small_msgs
              node_b
              (λ n. nonce)
              asker
              others
              (on_ack stack
                (λ n. n)
                none
                identity
                only_tag
                sealed
                small_msgs
                node_b
                (7 ∷ 42 ∷ [])
                inbox_a)))
    × ((on_ack stack
          (λ n. n)
          none
          identity
          only_tag
          sealed
          small_msgs
          node_b
          (7 ∷ 42 ∷ [])
          inbox_a).ping_mng.delivered
        ≡ (5, 42 ∷ []) ∷ inbox_a.ping_mng.delivered)
    × ((on_ack stack
            (λ n. n)
            none
            identity
            only_tag
            sealed
            small_msgs
            node_b
            (7 ∷ 42 ∷ [])
            inbox_a).ping_mng.ack_handlers
          7
        ≡ none)
unfolding piggyback get_broadcasts get_messages pick pop push push_all send_all transmit_limit
    invalidate add_user_msgs overhead_of pack_udp with_piggyback pack_compound_msg write_lengths
    write_bodies shrink compress seal_packet add_crc encryption_enabled get_keys get_primary_key
    encrypt set_ack_handler new_ping_manager is_for_us str_dec ℕ_discrete
on_ack-on_ping_example =
    on_ack-on_ping stack (λ n. n) none identity only_tag sealed small_msgs node_b nonce
      (1 ∷ 7 ∷ 7946 ∷ 9 ∷ []) (7 ∷ 42 ∷ []) packet (λ n. nonce) asker asker ping_b 5 inbox_b inbox_a
      identity-IsCodec only_tag-IsAead refl refl refl refl refl (omega arith)
      (omega arith, (omega arith, (omega arith, tt))) refl refl

abbrev alive_note : LongRunMsg
alive_note = record { m_type = alive_msg; msg = 2 ∷ 3 ∷ 129 ∷ 7946 ∷ []; from = asker }

abbrev suspect_note : LongRunMsg
suspect_note = record { m_type = suspect_msg; msg = 1 ∷ 1 ∷ []; from = asker }

-- A reader takes every message for the user.
abbrev pub reads_all : Option (List Bytes → Bool)
reads_all = some (λ sent. true)

abbrev two_wait : LongRunMsgManager
two_wait = record (new_long_run_msg_manager 8) {
  high_prior_queue = alive_note ∷ [];
  low_prior_queue = suspect_note ∷ [];
}

abbrev before : Served
before = record { table = three_steps; users = [] }

drain_all-run_example :
    drain_all no_floats config small_msgs reads_all (λ n. 80) (λ n. n) two_wait before
    ≡ drained no_floats config small_msgs reads_all
        (emptied two_wait)
        (run no_floats config
          (inputs_of no_floats config small_msgs reads_all
            (λ n. 80)
            (λ n. n)
            (alive_note ∷ suspect_note ∷ []))
          three_steps)
        (some [])
unfolding new_long_run_msg_manager
drain_all-run_example =
    drain_all-run no_floats config small_msgs reads_all (λ n. 80) (λ n. n) two_wait before refl

abbrev sent_ping : Bytes
sent_ping = encrypt_code ∷ (put_uint32 34 ++ (0 ∷ (nonce ++ (tag ++ (0 ∷ 1 ∷ 7 ∷ 7946 ∷ 9 ∷ [])))))

abbrev to_b : Conn
to_b = record {
  dialled = true;
  writes = true;
  arrives = encrypt_code ∷ (put_uint32 31 ++ (0 ∷ (nonce ++ (tag ++ (2 ∷ 7 ∷ [])))));
}

tcp_ping_with-handle_tcp_conn_example :
    (handle_tcp_conn identity only_tag small_states sealed small_msgs node_b no_floats config none
        128 1 true none nonce 70
        (λ n. n)
        two
        false
        sent_ping
      ≡ replied to_b.arrives)
    × (tcp_ping_with identity only_tag small_states sealed small_msgs node_b to_b nonce ping_b
        ≡ some true)
unfolding send_encoded send_tcp pack_tcp shrink compress seal_stream encryption_enabled get_keys
    get_primary_key encrypt encrypt_tcp tcp_header put_uint32 is_for_us str_dec
tcp_ping_with-handle_tcp_conn_example =
    tcp_ping_with-handle_tcp_conn identity only_tag small_states sealed small_msgs node_b no_floats
      config none 128 1 true none nonce nonce sent_ping (1 ∷ 7 ∷ 7946 ∷ 9 ∷ []) (7 ∷ []) 70 (λ n. n)
      two false to_b ping_b identity-IsCodec only_tag-IsAead small_msgs-IsMsgCodec refl refl refl
      refl (omega arith) (omega arith) refl refl refl refl

abbrev suspect_b : Suspect
suspect_b = record { lives = 1; id = "b"; from = "a" }
