-- ===== src/Startup/Options.antt =====
-- config.go: `Config` and `DefaultLANConfig`. The handlers of the table read their part of it as
-- `Config` of Members. A duration is a number of nanoseconds, and one that is not positive is 0.
use Prim.Native.String.{String}
use mlist.Prelude.{ℕ, ◌*◌, [], Bool, true}
use mlist.Members.Types.{Bytes}

pub record Options : Type 0 where
  pub bind_addr : String
  pub bind_port : ℕ
  pub advertise_addr : String
  pub advertise_port : ℕ
  pub udp_buffer_size : ℕ
  pub dns_config_path : String
  pub enable_compression : Bool
  pub encryption_version : ℕ
  pub tcp_timeout : ℕ
  pub num_indirect_checks : ℕ
  pub ping_timeout : ℕ
  pub probe_interval : ℕ
  pub max_rtt : ℕ
  pub gossip_nodes : ℕ
  pub gossip_interval : ℕ
  pub dead_node_expired_timeout : ℕ
  pub broadcast_wait_timeout : ℕ
  pub event_timeout : ℕ
  pub reap_interval : ℕ
  pub max_push_pulls : ℕ
  pub push_pull_interval : ℕ
  pub max_awareness_health : ℕ
  pub suspicion_mult : ℕ
  pub suspicion_max_timeout_mult : ℕ
  pub max_long_run_queue_depth : ℕ
  pub queue_check_interval : ℕ
  pub retransmit_mult : ℕ
  pub tags : Bytes

abbrev pub millisecond : ℕ
millisecond = 1000000

abbrev pub second : ℕ
second = 1000 * millisecond

unfoldable pub default_lan_config : Options
default_lan_config = record {
  bind_addr = "0.0.0.0";
  bind_port = 7946;
  advertise_addr = "";
  advertise_port = 7946;
  udp_buffer_size = 1400;
  dns_config_path = "/etc/resolv.conf";
  enable_compression = true;
  encryption_version = 0;
  tcp_timeout = 10 * second;
  num_indirect_checks = 3;
  ping_timeout = 500 * millisecond;
  probe_interval = 1100 * millisecond;
  max_rtt = 30 * millisecond;
  gossip_nodes = 3;
  gossip_interval = 200 * millisecond;
  dead_node_expired_timeout = 30 * second;
  broadcast_wait_timeout = 3 * second;
  event_timeout = 5 * second;
  reap_interval = 3 * second;
  max_push_pulls = 128;
  push_pull_interval = 30 * second;
  max_awareness_health = 8;
  suspicion_mult = 4;
  suspicion_max_timeout_mult = 6;
  max_long_run_queue_depth = 1024;
  queue_check_interval = 30 * second;
  retransmit_mult = 4;
  tags = [];
}
