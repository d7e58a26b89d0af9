-- ===== src/Startup/Addresses.antt =====
-- net_transport.go and memberlist.go: `finalizeAdvertiseAddr`, `GetAdvertiseAddr` and `hasPublicIface`.
-- What package net and go-sockaddr make of addresses is the parameter `Net`.
use Prim.Native.String.{String}
use mlist.Prelude.{ℕ, ◌%◌, Bool, Option, none, some, if◌then◌else◌}
use mlist.Prelude.Maps.{same}
use mlist.Members.Types.{Bytes}
use mlist.Transport.Sockets.{NetTransport, get_first_addr}
use mlist.Startup.Options.{Options}

-- `parse_ip` is `net.ParseIP`, `to4` is `To4` and `ip_string` is `String` of an IP. `local_ip` is the IP of a
-- connection that is bound to an address. `private_ip` is what `GetPrivateIP` and `ParseIP` give.
-- `public_iface` is whether `IfByRFC` of 6890 finds the address public; `none` is an error of `NewIPAddr`.
pub record Net : Type 0 where
  pub parse_ip : String → Option Bytes
  pub to4 : Bytes → Option Bytes
  pub ip_string : Bytes → String
  pub local_ip : String → Bytes
  pub private_ip : Option String
  pub public_iface : String → Option Bool

-- `none` for an address that does not parse. An error of `GetFirstAddr` is dropped: the code returns nil.
unfoldable pub finalize_advertise_addr : Net → Options → NetTransport → Option Options
finalize_advertise_addr net o t =
    if same o.advertise_addr ""
    then elim (get_first_addr net.private_ip t) [
      | none ↦ some o
      | some (a, port) ↦
          some (record o { advertise_addr = net.ip_string (net.local_ip a); advertise_port = port })
    ]
    else elim (net.parse_ip o.advertise_addr) [
      | none ↦ none
      | some ip ↦
          let short : Bytes = elim (net.to4 ip) [ none ↦ ip | some ip4 ↦ ip4 ] in
          some (record o { advertise_addr = net.ip_string short })
    ]

unfoldable pub get_advertise_addr : Net → Options → Option (Bytes × ℕ)
get_advertise_addr net o = elim (net.parse_ip o.advertise_addr) [
  | none ↦ none
  | some ip ↦ some (ip, o.advertise_port % 65536)
]

unfoldable pub has_public_iface : Net → Options → Option Bool
unfolding get_advertise_addr
has_public_iface net o = elim (get_advertise_addr net o) [
  | none ↦ none
  | some (ip, port) ↦ net.public_iface (net.ip_string ip)
]
