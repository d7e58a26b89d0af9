-- ===== src/Tests/Process.antt =====
-- A node that starts, gets an alive message of `c` in a datagram, and handles it.
use mlist.Prelude.{◌≡◌, refl, List, [], ◌∷◌, true, false, none, arith, ℕ_discrete}
use mlist.Prelude.Int.{pos}
use mlist.Members.Types.{Bytes, Alive, Message, broadcast, notify_join, new_memberlist}
use mlist.Prelude.Maps.{str_dec}
use mlist.Members.Announce.{alive_locked, deferred}
use mlist.Maintenance.Run.{step, dies}
use mlist.Events.Alternation.{is_joined, is_active}
use mlist.Members.Handlers.{alive_node, ip_allowed, add_node, node_of, emit, bury, dead_node}
use mlist.Broadcast.Queue.{TransmitCapItem}
use mlist.Wire.Packet.{has_crc_code, unpack_packet}
use mlist.Inbox.LongRun.{
  LongRunMsg, alive_msg, new_long_run_msg_manager, queue_long_run_msg, get_next_msg,
}
use mlist.Inbox.Dispatch.{handle_udp_msg}
use mlist.Inbox.Replies.{Inbox, handle_packet}
use mlist.Inbox.Drain.{handle_long_run, handle_alive}
use mlist.Interface.Operations.{set_alive}
use mlist.Process.{
  acts, locks, announces, Process, IsReachable, with_members, new_process, start, after, goes_alive,
  receives, serves,
}
use mlist.Process.Invariant.{IsKept, IsReachable-IsKept}
use mlist.Tests.Codecs.{small_states, small_msgs}
use mlist.Tests.Members.{no_floats, config, alive_b, dead_b}
use mlist.Tests.Parts.{stack, waiting}
use mlist.Tests.Replies.{reads_all, node_b, asker}
use mlist.Tests.Wire.{only_tag, identity, bare}

abbrev State : Type 0
State = Process (List TransmitCapItem)

abbrev alive_c : Bytes
alive_c = 2 ∷ 3 ∷ 129 ∷ 7946 ∷ []

abbrev packet : Bytes
packet = has_crc_code ∷ 0 ∷ 0 ∷ 0 ∷ 0 ∷ 4 ∷ alive_c

abbrev fresh : State
fresh = new_process (pos 8) 8 waiting

abbrev started : State
started = with_members fresh (set_alive config (127 ∷ []) 7946 [] 10 0 fresh.served.table).0

abbrev note : LongRunMsg
note = record { m_type = alive_msg; msg = alive_c; from = asker }

abbrev queued : Inbox (List TransmitCapItem)
queued = record (started.inbox) {
  long_run_mng = record (new_long_run_msg_manager 8) { high_prior_queue = note ∷ [] };
}

abbrev received_c : State
received_c = record started { inbox = queued }

abbrev c_alive : Alive
c_alive = record { lives = 3; id = "c"; ip = 129 ∷ []; port = 7946; tags = [] }

abbrev known_c : State
known_c = record received_c {
  served = record (started.served) {
    table = alive_node config c_alive false 30 0 started.served.table;
  };
  inbox = record queued { long_run_mng = new_long_run_msg_manager 8 };
}

got :
    IsReachable no_floats stack
      (λ n. n)
      none
      identity
      only_tag
      small_states
      bare
      small_msgs
      node_b
      config
      reads_all
      (pos 8)
      8
      waiting
      received_c
unfolding new_long_run_msg_manager handle_packet unpack_packet handle_udp_msg queue_long_run_msg
got =
    after (after start (goes_alive fresh (127 ∷ []) 7946 [] 10 0))
      (receives started (λ n. []) asker packet refl)

reached :
    IsReachable no_floats stack
      (λ n. n)
      none
      identity
      only_tag
      small_states
      bare
      small_msgs
      node_b
      config
      reads_all
      (pos 8)
      8
      waiting
      known_c
unfolding new_long_run_msg_manager handle_packet unpack_packet handle_udp_msg queue_long_run_msg
    get_next_msg handle_long_run handle_alive ip_allowed
reached = after got (serves received_c 30 0 refl refl)

IsReachable-IsKept_example : IsKept config known_c
IsReachable-IsKept_example =
    IsReachable-IsKept no_floats stack (λ n. n) none identity only_tag small_states bare small_msgs
      node_b config reads_all (omega arith) reached

-- `b` joins and dies; the join event, which comes after the lock was released, is the last one.
abbrev joining : State
joining = record (with_members fresh (alive_locked alive_b false 40 0 fresh.served.table)) {
  late = deferred alive_b false 40 fresh.served.table ∷ [];
}

abbrev gone_b : State
gone_b = with_members joining (bury dead_b false 50 0 joining.served.table)

abbrev heard : State
heard =
    record (with_members gone_b
      (emit gone_b.served.table (broadcast "b" (Message.alive_msg alive_b) false))) {
        late = (notify_join (node_of alive_b 40).node ∷ []) ∷ [];
      }

abbrev joined_late : State
joined_late =
    record (with_members heard (emit heard.served.table (notify_join (node_of alive_b 40).node))) {
      late = [] ∷ [];
    }

joins_late :
    IsReachable no_floats stack
      (λ n. n)
      none
      identity
      only_tag
      small_states
      bare
      small_msgs
      node_b
      config
      reads_all
      (pos 8)
      8
      waiting
      joined_late
unfolding alive_locked deferred add_node new_memberlist step dead_node ip_allowed str_dec ℕ_discrete
joins_late =
    after
      (after
        (after (after start (locks fresh alive_b false 40 0 refl))
          (acts joining 50 (dies dead_b false) refl))
        (announces gone_b [] [] (broadcast "b" (Message.alive_msg alive_b) false)
          (notify_join (node_of alive_b 40).node ∷ []) refl))
      (announces heard [] [] (notify_join (node_of alive_b 40).node) [] refl)

leave_first :
    (is_joined "b" joined_late.served.table.effects ≡ true)
    × (is_active joined_late.served.table "b" ≡ false)
unfolding alive_locked deferred add_node bury new_memberlist str_dec ℕ_discrete
leave_first = (refl, refl)
