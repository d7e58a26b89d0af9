-- ===== src/Addresses/Resolve.antt =====
-- net_transport.go: `parsePort`, `ResolveAddr` and `tcpLookupIP`. What package net, strconv and the DNS
-- client make of texts, and what the name servers answer, is the parameter `Resolver`.
use mlist.Prelude.{
  ℕ, ◌≡◌, List, [], ◌∷◌, ◌++◌, Bool, false, Option, none, some, ltb, ◌==◌, ◌<◌, if◌then◌else◌,
  ℕ_discrete, count,
}
use mlist.Members.Types.{Bytes}
use mlist.Addresses.Ports.{Text, colon, has_port, IsPlain, Lacks, bracketed, with_port}

-- A record of an answer.
pub data Answer : Type 0 where
  a aaaa : Bytes → Answer
  other : Answer

-- `parse_uint16` is `strconv.ParseUint(s, 10, 16)`; `client_config` gives the servers and the port of a
-- file; `exchange` sends the question for a name to a server. `none` is an error, for `parse_ip` nil.
pub record Resolver : Type 0 where
  pub split_host_port : Text → Option (Text × Text)
  pub join_host_port : Text → Text → Text
  pub parse_uint16 : Text → Option ℕ
  pub parse_ip : Text → Option Bytes
  pub lookup_ip : Text → Option (List Bytes)
  pub client_config : Text → Option (List Text × Text)
  pub exchange : Text → Text → Option (List Answer)

abbrev dot : ℕ
dot = b'.'

unfoldable pub ends_with : ℕ → Text → Bool
ends_with c [] = false
ends_with c (x ∷ []) = x == c
ends_with c (x ∷ y ∷ s) = ends_with c (y ∷ s)

unfoldable pub ips_of : List Answer → List Bytes
ips_of [] = []
ips_of (a ip ∷ rest) = ip ∷ ips_of rest
ips_of (aaaa ip ∷ rest) = ip ∷ ips_of rest
ips_of (other ∷ rest) = ips_of rest

module _ (r : Resolver) where
  unfoldable pub parse_port : Text → Option (Text × ℕ)
  parse_port s = elim (r.split_host_port s) [
    | none ↦ none
    | some (host, port) ↦ elim (r.parse_uint16 port) [ none ↦ none | some p ↦ some (host, p) ]
  ]

  -- The name with a dot at its end.
  abbrev pub rooted : Text → Text
  rooted host = if ends_with dot host then host else host ++ (dot ∷ [])

  abbrev pub ask : Text → List Text × Text → Option (List Bytes)
  ask host ([], port) = some []
  ask host (server ∷ rest, port) =
      elim (r.exchange host (if has_port server then server else r.join_host_port server port)) [
        | none ↦ none
        | some answers ↦ some (ips_of answers)
      ]

  unfoldable pub tcp_lookup_ip : Text → Text → Option (List Bytes)
  unfolding ends_with ips_of
  tcp_lookup_ip host path =
      if ltb 0 (count ℕ_discrete dot host)
      then elim (r.client_config path) [ none ↦ none | some config ↦ ask (rooted host) config ]
      else some []

  abbrev pub at_port : ℕ → Option (List Bytes) → Option (List Bytes × ℕ)
  at_port port none = none
  at_port port (some ips) = some (ips, port)

  -- The names that the DNS client rejects go to the resolver of Go.
  abbrev pub or_lookup : Text → Option (List Bytes) → Option (List Bytes)
  or_lookup host none = none
  or_lookup host (some []) = r.lookup_ip host
  or_lookup host (some (ip ∷ ips)) = some (ip ∷ ips)

  unfoldable pub resolve_addr : Text → Text → Option (List Bytes × ℕ)
  unfolding parse_port tcp_lookup_ip
  resolve_addr host_str path =
      elim (parse_port (if has_port host_str then host_str else with_port host_str (b'0' ∷ []))) [
        | none ↦ none
        | some (host, port) ↦ elim (r.parse_ip host) [
          | some ip ↦ some (ip ∷ [], port)
          | none ↦ at_port port (or_lookup host (tcp_lookup_ip host path))
        ]
      ]

-- What the documents of `SplitHostPort` and `ParseUint` say: a host in brackets is given without
-- them, and a host that is not in brackets has no colon; 0 is read as 0.
pub record SplitsPorts (r : Resolver) : Type 0 where
  pub split_plain :
      (host port : Text)
      → IsPlain host
      → IsPlain port
      → Lacks colon host
      → Lacks colon port
      → r.split_host_port (with_port host port) ≡ some (host, port)
  pub split_bracketed :
      (host port : Text)
      → IsPlain host
      → IsPlain port
      → Lacks colon port
      → r.split_host_port (with_port (bracketed host) port) ≡ some (host, port)
  pub too_many_colons :
      (host port : Text)
      → IsPlain host
      → IsPlain port
      → Lacks colon port
      → 0 < count ℕ_discrete colon host
      → r.split_host_port (with_port host port) ≡ none
  pub parse_zero : r.parse_uint16 (b'0' ∷ []) ≡ some 0
