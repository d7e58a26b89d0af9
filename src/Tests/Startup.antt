-- ===== src/Tests/Startup.antt =====
-- A node with a secret key, and one whose own address is not allowed.
use mlist.Prelude.{
  ℕ, ◌≡◌, ◌==◌, get_or, refl, List, [], ◌∷◌, true, false, none, some, arith, if◌then◌else◌,
  replicate,
}
use mlist.Prelude.Maps.{same, str_dec}
use mlist.Members.Types.{Config, Memberlist, new_memberlist}
use mlist.Members.Handlers.{alive_node, ip_allowed, contains_any}
use mlist.Broadcast.Queue.{TransmitCapItem}
use mlist.Interface.Operations.{update_tags, panics}
use mlist.Transport.Sockets.{start, zero_bind_port_transport, NetTransport}
use mlist.Startup.Options.{Options, default_lan_config}
use mlist.Startup.Addresses.{Net, finalize_advertise_addr, has_public_iface}
use mlist.Startup.Build.{
  MemberlistBuilder, Running, built, start_memberlist, new_running, build, build_keyring,
  build_transport,
}
use mlist.Startup.BuildLaws.{IsBuilt, build-IsBuilt}
use mlist.Startup.Blocked.{all_allowed, empty_table, build-blocked}
use mlist.Maintenance.Run.{Input, lives, run, step}
use mlist.Tests.Members.{config, no_floats, alive_b}
use mlist.Tests.Parts.{stack}
use mlist.Tests.Transport.{system, system-GivesPorts}

-- Two addresses that parse, and none that is public.
abbrev net : Net
net = record {
  parse_ip = λ s.
      if same s "127.0.0.1"
      then some (127 ∷ 0 ∷ 0 ∷ 1 ∷ [])
      else if same s "10.0.0.1"
      then some (10 ∷ 0 ∷ 0 ∷ 1 ∷ [])
      else none;
  to4 = λ ip. some ip;
  ip_string = λ ip. if get_or ip 0 0 == 127 then "127.0.0.1" else "10.0.0.1";
  local_ip = λ s. 127 ∷ 0 ∷ 0 ∷ 1 ∷ [];
  private_ip = some "10.0.0.1";
  public_iface = λ s. some false;
}

abbrev options : Options
options = record default_lan_config {
  bind_addr = "127.0.0.1";
  bind_port = 0;
  advertise_addr = "10.0.0.1";
}

abbrev with_secret : MemberlistBuilder
with_secret = record { config = options; keyring = none; secret_key = some (replicate 16 7) }

build-IsBuilt_example :
    IsBuilt net config 10
      (some (replicate 16 7))
      (build stack (λ i. system true true) net config 10 0 with_secret)
unfolding default_lan_config
build-IsBuilt_example =
    build-IsBuilt stack net config 10 0 (λ i. system true true) with_secret
      (λ i. system-GivesPorts true true)

abbrev closed_to_all : Config
closed_to_all = record config { cidrs_allowed = (λ ip. false) ∷ [] }

abbrev plain : MemberlistBuilder
plain = record { config = options; keyring = none; secret_key = none }

abbrev bound : NetTransport
bound = record {
  bind_addrs = "127.0.0.1" ∷ [];
  bind_port = 4000;
  tcp_listeners = record { addr = "127.0.0.1"; port = 4000 } ∷ [];
  udp_conns = record { addr = "127.0.0.1"; port = 4000 } ∷ [];
  shutdown = false;
  leaked = [];
}

abbrev insider : Running (List TransmitCapItem)
insider =
    (start_memberlist net (all_allowed closed_to_all) 10 0
      (new_running stack (record options { bind_port = 4000 }) none bound)).0

insider_built :
    build stack (λ i. system true true) net (all_allowed closed_to_all) 10 0 plain ≡ built insider
unfolding build build_keyring build_transport zero_bind_port_transport start start_memberlist
    new_running finalize_advertise_addr has_public_iface default_lan_config str_dec
insider_built = refl

abbrev nobody : Memberlist
nobody = empty_table options.max_awareness_health

abbrev one_message : List (ℕ × Input)
one_message = (20, lives alive_b false 5) ∷ []

build-blocked_example :
    (build stack (λ i. system true true) net closed_to_all 10 0 plain
      ≡ built (record insider { table = nobody }))
    × (nobody.node_map "a" ≡ none)
    × (update_tags closed_to_all (5 ∷ []) 100 true 30 0 nobody ≡ (nobody, panics))
unfolding ip_allowed contains_any default_lan_config run step alive_node new_memberlist
build-blocked_example =
    build-blocked stack net closed_to_all 10 0 no_floats (λ i. system true true) plain insider
      one_message nobody (5 ∷ []) 100 30 0 true insider_built (λ ip port got. refl)
      ((λ e. refl), tt) refl (omega arith)
