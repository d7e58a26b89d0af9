-- ===== src/Startup/Build.antt =====
-- memberlist.go: `MemberlistBuilder`, `Build`, `start` and `Shutdown`, and `schedule` of maintenance.go.
-- `UniqueID` gives `local_id` of the settings of the table. Channels and hooks are not modelled.
use mlist.Prelude.{
  ℕ, List, [], ◌∷◌, ◌++◌, Bool, true, false, not, ◌&&◌, Option, none, some, ltb, ◌==◌,
  if◌then◌else◌,
}
use mlist.Prelude.Int.{pos}
use mlist.Members.Types.{Bytes, Config, Memberlist, new_memberlist}
use mlist.Broadcast.Queue.{HeapOps, TransmitCapQueue, new_broadcast_queue}
use mlist.Inbox.LongRun.{LongRunMsgManager, new_long_run_msg_manager}
use mlist.Ping.Manager.{PingManager, new_ping_manager}
use mlist.Keyring.Keys.{Keyring, add_key, use_key, new_keyring, encryption_enabled}
use mlist.Interface.Operations.{Outcome, set_alive}
use mlist.Transport.Sockets.{
  Os, NetTransport, StartError, new_net_transport, start, close_all, Zero, zero_bind_port_transport,
}
use mlist.Startup.Options.{Options}
use mlist.Startup.Addresses.{Net, finalize_advertise_addr, get_advertise_addr, has_public_iface}

pub record MemberlistBuilder : Type 0 where
  pub config : Options
  pub keyring : Option Keyring
  pub secret_key : Option Bytes

unfoldable pub with_config : MemberlistBuilder → Options → MemberlistBuilder
with_config b c = record b { config = c }

unfoldable pub with_key_ring : MemberlistBuilder → Keyring → MemberlistBuilder
with_key_ring b r = record b { keyring = some r }

unfoldable pub with_secret_key : MemberlistBuilder → Bytes → MemberlistBuilder
with_secret_key b k = record b { secret_key = some k }

pub data BuildError : Type 0 where
  bad_key no_transport bad_advertise_addr unknown_iface not_encrypted tags_rejected : BuildError

-- The goroutines, with their intervals.
pub data Routine : Type 0 where
  probe_every gossip_every reap_every push_pull_every : ℕ → Routine
  receive_packet receive_tcp_conn run_long_run_msg_handler : Routine

-- A node: its parts, and the goroutines that were started.
pub record Running (H : Type 0) : Type 0 where
  pub options : Options
  pub table : Memberlist
  pub keyring : Option Keyring
  pub transport : NetTransport
  pub mbroadcasts : TransmitCapQueue H
  pub long_run_mng : LongRunMsgManager
  pub ping_mng : PingManager
  pub routines : List Routine
  pub shutdown : Bool

-- The secret key becomes the primary key of the ring. An outer `none` is an error.
unfoldable pub build_keyring : Option Bytes → Option Keyring → Option (Option Keyring)
build_keyring none ring = some ring
build_keyring (some k) none = elim (new_keyring [] (some k)) [
  | none ↦ none
  | some r ↦ some (some r)
]
build_keyring (some k) (some ring) =
    let (r, e) = add_key ring k in
    elim e [
      | some _ ↦ none
      | none ↦ let (r', e') = use_key r k in elim e' [ some _ ↦ none | none ↦ some (some r') ]
    ]

-- The transport, started or as the error left it. `os` says what the system answers in each attempt.
pub data Opened : Type 0 where
  opened : NetTransport → Options → Opened
  not_opened : NetTransport → Opened
  no_address : Opened

abbrev pub opened_zero : Options → Zero → Opened
opened_zero o (Zero.bound t) = opened t (record o { bind_port = t.bind_port })
opened_zero o Zero.no_address = no_address
opened_zero o (Zero.failed t) = not_opened t

abbrev pub opened_port : Options → NetTransport × Option StartError → Opened
opened_port o (t, none) = opened t o
opened_port o (t, some e) = not_opened t

unfoldable pub build_transport : (ℕ → Os) → Options → Opened
build_transport os o =
    if o.bind_port == 0
    then opened_zero o (zero_bind_port_transport os (o.bind_addr ∷ []))
    else elim (new_net_transport (o.bind_addr ∷ []) o.bind_port) [
      | none ↦ no_address
      | some t ↦ opened_port o (start (os 0) t)
    ]

abbrev when : Bool → Routine → List Routine
when b r = if b then r ∷ [] else []

unfoldable pub schedule : Options → List Routine
schedule o =
    when (ltb 0 o.probe_interval) (probe_every o.probe_interval)
    ++ (when (ltb 0 o.gossip_interval && ltb 0 o.gossip_nodes) (gossip_every o.gossip_interval)
        ++ (when (ltb 0 o.reap_interval) (reap_every o.reap_interval)
            ++ when (ltb 0 o.push_pull_interval) (push_pull_every o.push_pull_interval)))

module _ {H : Type 0} where
  unfoldable pub shut_down : Running H → Running H
  shut_down r =
      if r.shutdown then r else record r { shutdown = true; transport = close_all r.transport }

  -- `setAlive` and what follows it.
  abbrev pub started : Running H → Memberlist × Outcome → Running H × Option BuildError
  started r (m, Outcome.done) = (
    record r {
      table = m;
      routines =
          schedule r.options ++ (receive_packet ∷ receive_tcp_conn ∷ run_long_run_msg_handler ∷ []);
    },
    none,
  )
  started r (m, _) = (r, some tags_rejected)

  -- The address that `hasPublicIface` could read is read again by `setAlive`.
  unfoldable pub go_alive : Net → Config → ℕ → ℕ → Running H → Running H × Option BuildError
  unfolding set_alive schedule
  go_alive net c now rnd r = elim (get_advertise_addr net r.options) [
    | none ↦ (r, some bad_advertise_addr)
    | some (ip, port) ↦ started r (set_alive c ip port r.options.tags now rnd r.table)
  ]

  unfoldable pub start_memberlist : Net → Config → ℕ → ℕ → Running H → Running H × Option BuildError
  unfolding go_alive
  start_memberlist net c now rnd r = elim (finalize_advertise_addr net r.options r.transport) [
    | none ↦ (r, some bad_advertise_addr)
    | some o ↦ elim (has_public_iface net o) [
      | none ↦ (record r { options = o }, some unknown_iface)
      | some public ↦
          if public && not (encryption_enabled r.keyring)
          then (record r { options = o }, some not_encrypted)
          else go_alive net c now rnd (record r { options = o })
    ]
  ]

-- The node, or the error with the transport as it is left.
pub data Built (H : Type 0) : Type 0 where
  built : Running H → Built H
  failed : BuildError → Option NetTransport → Built H

module _ {H : Type 0} (ops : HeapOps H) where
  unfoldable pub new_running : Options → Option Keyring → NetTransport → Running H
  unfolding new_memberlist new_broadcast_queue
  new_running o ring t = record {
    options = o;
    table = new_memberlist (pos o.max_awareness_health);
    keyring = ring;
    transport = t;
    mbroadcasts = new_broadcast_queue ops o.retransmit_mult;
    long_run_mng = new_long_run_msg_manager o.max_long_run_queue_depth;
    ping_mng = new_ping_manager;
    routines = [];
    shutdown = false;
  }

  abbrev pub finish_build : Running H × Option BuildError → Built H
  finish_build (r, none) = built r
  finish_build (r, some e) = failed e (some (shut_down r).transport)

  abbrev pub build_on : Net → Config → ℕ → ℕ → Option Keyring → Opened → Built H
  build_on net c now rnd ring (opened t o) =
      finish_build (start_memberlist net c now rnd (new_running o ring t))
  build_on net c now rnd ring (not_opened t) = failed no_transport (some t)
  build_on net c now rnd ring no_address = failed no_transport none

  unfoldable pub build : (ℕ → Os) → Net → Config → ℕ → ℕ → MemberlistBuilder → Built H
  build os net c now rnd b = elim (build_keyring b.secret_key b.keyring) [
    | none ↦ failed bad_key none
    | some ring ↦ build_on net c now rnd ring (build_transport os b.config)
  ]
