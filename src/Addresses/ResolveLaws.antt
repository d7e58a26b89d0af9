-- ===== src/Addresses/ResolveLaws.antt =====
-- net_transport.go: what `ResolveAddr` makes of a literal address.
use mlist.Prelude.{ℕ, ◌≡◌, ◌<◌, refl, [], ◌∷◌, true, false, none, some, arith, ℕ_discrete, count}
use mlist.Members.Types.{Bytes}
use mlist.Addresses.Ports.{
  Text, colon, has_port, IsPlain, Lacks, bracketed, with_port, has_port_lem,
}
use mlist.Addresses.Resolve.{Resolver, SplitsPorts, parse_port, resolve_addr}

abbrev zero_port : Text
zero_port = b'0' ∷ []

zero_port-IsPlain : IsPlain zero_port × Lacks colon zero_port
unfolding count ℕ_discrete
zero_port-IsPlain = (record { no_opening = refl; no_closing = refl }, refl)

module _ (r : Resolver) (laws : SplitsPorts r) (path host port : Text) (ip : Bytes) (n : ℕ)
    (h : IsPlain host) (p : IsPlain port) (no_colon : Lacks colon port)
    (literal : r.parse_ip host ≡ some ip) (number : r.parse_uint16 port ≡ some n) where
  -- What `ResolveAddr` gives for the text, if it has its port or gets port 0.
  resolve_with_port :
      (s port_text : Text) (k : ℕ)
      → has_port s ≡ true
      → r.split_host_port s ≡ some (host, port_text)
      → r.parse_uint16 port_text ≡ some k
      → resolve_addr r s path ≡ some (ip ∷ [], k)
  unfolding resolve_addr parse_port
  resolve_with_port s port_text k has split parsed =
      rw (has, split, parsed, literal, resolve_addr, parse_port) refl

  resolve_without_port :
      (s : Text)
      → has_port s ≡ false
      → r.split_host_port (with_port s zero_port) ≡ some (host, zero_port)
      → resolve_addr r s path ≡ some (ip ∷ [], 0)
  unfolding resolve_addr parse_port
  resolve_without_port s has split =
      rw (has, split, laws.parse_zero, literal, resolve_addr, parse_port) refl

  -- A literal address, plain or in brackets, alone or with a port, resolves to itself and to its port, or
  -- 0. A bare IPv6 address is an error: port 0 is put behind it, which
  -- leaves it with a host that has colons and no brackets.
  pub resolve_addr-literal :
      (Lacks colon host
        → (resolve_addr r host path ≡ some (ip ∷ [], 0))
          × (resolve_addr r (with_port host port) path ≡ some (ip ∷ [], n)))
      × (resolve_addr r (bracketed host) path ≡ some (ip ∷ [], 0))
      × (resolve_addr r (with_port (bracketed host) port) path ≡ some (ip ∷ [], n))
      × (1 < count ℕ_discrete colon host → resolve_addr r host path ≡ none)
  unfolding resolve_addr parse_port
  resolve_addr-literal =
      let (plain, in_brackets, both, bare) = has_port_lem host port h p no_colon in
      let (zero_plain, zero_no_colon) = zero_port-IsPlain in
      (
        λ c.
            let (alone, ported) = plain c in
            (
              resolve_without_port host alone
                  (laws.split_plain host zero_port h zero_plain c zero_no_colon),
              resolve_with_port (with_port host port) port n ported
                  (laws.split_plain host port h p c no_colon) number,
            ),
        resolve_without_port (bracketed host) in_brackets
            (laws.split_bracketed host zero_port h zero_plain zero_no_colon),
        resolve_with_port (with_port (bracketed host) port) port n both
            (laws.split_bracketed host port h p no_colon) number,
        λ many.
            rw
              (
                bare many,
                laws.too_many_colons host zero_port h zero_plain zero_no_colon (omega arith),
                resolve_addr,
                parse_port,
              )
              refl,
      )
