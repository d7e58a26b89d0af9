-- ===== src/Tests/Ping.antt =====
-- An ack that comes twice, two nacks before an indirect ack, and a probe that is answered late.
use mlist.Prelude.{◌+◌, ◌≤◌, ◌≡◌, refl, [], ◌∷◌, ◌++◌, true, false, some, arith, ℕ_discrete}
use mlist.Prelude.Int.{pos, negsuc, ◌-ℤ◌}
use mlist.Members.Handlers.{suspect_node}
use mlist.Ping.Manager.{
  Ack, IndirectAck, IndirectAckHandler, PingManager, new_ping_manager, set_ack_handler,
  set_indirect_ack_handler, invoke_indirect_ack_handler, invoke_ack_handler,
}
use mlist.Ping.ManagerLaws.{acked, handle_acks, sent_on, handle_acks-at_most_once}
use mlist.Ping.NackLaws.{handle_indirect_acks}
use mlist.Maintenance.Probe.{
  IndirectPingResult, indirect_result, tcp_result, wait_timeout, no_result, healthier, probe_node,
}
use mlist.Maintenance.ProbeLaws.{last_result, probe_node_lem}
use mlist.Tests.Members.{no_floats, config, two}

abbrev ack1 : Ack
ack1 = record { seq_no = 1; payload = [] }

abbrev waiting_ack : PingManager
waiting_ack = set_ack_handler 1 70 new_ping_manager

handle_acks-at_most_once_example :
    sent_on 70 (handle_acks (acked ack1 ∷ acked ack1 ∷ []) waiting_ack).delivered
    ≤ sent_on 70 waiting_ack.delivered + 1
unfolding set_ack_handler new_ping_manager
handle_acks-at_most_once_example =
    handle_acks-at_most_once (acked ack1 ∷ acked ack1 ∷ []) 70 1 waiting_ack (λ n e. ground arith)
      tt

sent_once : sent_on 70 (handle_acks (acked ack1 ∷ acked ack1 ∷ []) waiting_ack).delivered ≡ 1
unfolding set_ack_handler new_ping_manager handle_acks invoke_ack_handler ℕ_discrete
sent_once = refl

abbrev handler : IndirectAckHandler
handler = record { ack_ch = 71; n_nacks = 5 }

abbrev waiting_indirect : PingManager
waiting_indirect = set_indirect_ack_handler 2 handler new_ping_manager

abbrev nack : IndirectAck
nack = record { seq_no = 2; success = false }

abbrev good : IndirectAck
good = record { seq_no = 2; success = true }

nacks_counted :
    let before = handle_indirect_acks (nack ∷ nack ∷ []) waiting_indirect in
    (before.nacks 5 ≡ 2) × ((invoke_indirect_ack_handler good before).indirect_delivered ≡ 71 ∷ [])
unfolding set_indirect_ack_handler new_ping_manager handle_indirect_acks invoke_indirect_ack_handler
    ℕ_discrete
nacks_counted = (refl, refl)

abbrev nacked : IndirectPingResult
nacked = record { success = false; n_nacks = 1; num_node = 3 }

probe_node_lem_example :
    (probe_node no_floats config
        (two.store 1)
        false
        ((indirect_result nacked ∷ []) ++ (tcp_result true ∷ []))
        50
        two
      ≡ some (healthier two (negsuc 0)))
    × (let res = last_result (indirect_result nacked ∷ []) no_result in
        probe_node no_floats config
          (two.store 1)
          false
          ((indirect_result nacked ∷ []) ++ (wait_timeout ∷ []))
          50
          two
        ≡ suspect_node no_floats config
            (record {
              lives = (two.store 1).lives;
              id = (two.store 1).node.id;
              from = config.local_id;
            })
            50
            (healthier two (pos res.num_node -ℤ pos res.n_nacks)))
probe_node_lem_example =
    probe_node_lem no_floats config (two.store 1) (indirect_result nacked ∷ []) [] (tcp_result true)
      50 two (refl, tt) refl
