-- ===== src/Ping/Manager.antt =====
-- ping.go: `pingManager`. A channel is a number; `delivered` lists what was offered to the channels of
-- acks, the last one first, with its payload, and `indirect_delivered` what was offered to those of
-- indirect acks. An offer that finds no reader is dropped by the `default` of its `select`, and is
-- listed too. A counter of nacks is an address in `nacks`. The function that a timer runs is an event of
-- its own; a stopped timer runs none.
use mlist.Prelude.{
  ℕ, ◌+◌, ◌%◌, List, [], ◌∷◌, Bool, Option, none, some, ite, ℕ_discrete, if◌then◌else◌,
}
use mlist.Prelude.Maps.{insert, delete}
use mlist.Members.Types.{Bytes}

pub record Ack : Type 0 where
  pub seq_no : ℕ
  pub payload : Bytes

pub record IndirectAck : Type 0 where
  pub seq_no : ℕ
  pub success : Bool

pub record IndirectAckHandler : Type 0 where
  pub ack_ch : ℕ
  pub n_nacks : ℕ

-- An `ackHandler` is its channel.
pub record PingManager : Type 0 where
  pub seq_no : ℕ
  pub ack_handlers : ℕ → Option ℕ
  pub indirect_ack_handlers : ℕ → Option IndirectAckHandler
  pub delivered : List (ℕ × Bytes)
  pub indirect_delivered : List ℕ
  pub nacks : ℕ → ℕ

unfoldable pub new_ping_manager : PingManager
new_ping_manager = record {
  seq_no = 0;
  ack_handlers = λ _. none;
  indirect_ack_handlers = λ _. none;
  delivered = [];
  indirect_delivered = [];
  nacks = λ _. 0;
}

-- The manager and the number.
unfoldable pub next_seq_no : PingManager → PingManager × ℕ
next_seq_no mng = let n = (mng.seq_no + 1) % 4294967296 in (record mng { seq_no = n }, n)

unfoldable pub set_ack_handler : ℕ → ℕ → PingManager → PingManager
set_ack_handler seq_no ch mng = record mng {
  ack_handlers = insert ℕ_discrete seq_no ch mng.ack_handlers;
}

unfoldable pub ack_timeout : ℕ → PingManager → PingManager
ack_timeout seq_no mng = record mng { ack_handlers = delete ℕ_discrete seq_no mng.ack_handlers }

unfoldable pub invoke_ack_handler : Ack → PingManager → PingManager
invoke_ack_handler a mng =
    let removed : PingManager = record mng {
      ack_handlers = delete ℕ_discrete a.seq_no mng.ack_handlers;
    } in
    elim (mng.ack_handlers a.seq_no) [
      | none ↦ removed
      | some ch ↦ record removed { delivered = (ch, a.payload) ∷ mng.delivered }
    ]

unfoldable pub set_indirect_ack_handler : ℕ → IndirectAckHandler → PingManager → PingManager
set_indirect_ack_handler seq_no h mng = record mng {
  indirect_ack_handlers = insert ℕ_discrete seq_no h mng.indirect_ack_handlers;
}

unfoldable pub indirect_ack_timeout : ℕ → PingManager → PingManager
indirect_ack_timeout seq_no mng = record mng {
  indirect_ack_handlers = delete ℕ_discrete seq_no mng.indirect_ack_handlers;
}

-- The success of an indirect ack, with the handler that waits for it.
unfoldable pub answer_indirect : IndirectAck → IndirectAckHandler → PingManager → PingManager
answer_indirect a h mng =
    if a.success
    then record mng {
      indirect_ack_handlers = delete ℕ_discrete a.seq_no mng.indirect_ack_handlers;
      indirect_delivered = h.ack_ch ∷ mng.indirect_delivered;
    }
    else record mng {
      nacks = λ p. ite (ℕ_discrete h.n_nacks p) (mng.nacks h.n_nacks + 1) (mng.nacks p);
    }

unfoldable pub invoke_indirect_ack_handler : IndirectAck → PingManager → PingManager
unfolding answer_indirect
invoke_indirect_ack_handler a mng = elim (mng.indirect_ack_handlers a.seq_no) [
  | none ↦ mng
  | some h ↦ answer_indirect a h mng
]
