-- ===== src/Interface/Join.antt =====
-- memberlist.go: `Join`; util.go: `combineErrors`. What `ResolveAddr` makes of an entry, and the connection to
-- each address, are arguments; `joinHostPort` is the pair. The clock, the draws and the nonces are asked
-- by the number of exchanges so far.
use Prim.Native.String.{String}
use mlist.Prelude.{ℕ, ◌+◌, List, [], ◌∷◌, Option, none, some, ltb, ◌==◌, if◌then◌else◌}
use mlist.Suspicion.{Floats}
use mlist.Members.Types.{Bytes, Config, Memberlist}
use mlist.Wire.Encrypt.{Aead}
use mlist.Wire.Packet.{Codec, Settings}
use mlist.PushPull.Encoding.{StateCodec}
use mlist.PushPull.Exchange.{Conn, Sync, merged, failed, crashed, stuck, push_pull_with_node}

pub record Resolved : Type 0 where
  pub addrs : List Bytes
  pub port : ℕ

-- The local variables of `Join`, with the number of errors in `errs`, and the table.
pub record Joining : Type 0 where
  pub table : Memberlist
  pub num_success : ℕ
  pub errs : ℕ

abbrev pub with_error : Joining → Joining
with_error j = record j { errs = j.errs + 1 }

-- `none` where the exchange panics or does not return.
abbrev pub after_exchange : Joining → Sync → Option Joining
after_exchange j (merged m user) = some (record j { table = m; num_success = j.num_success + 1 })
after_exchange j failed = some (with_error j)
after_exchange j crashed = none
after_exchange j stuck = none

abbrev pub and_then : (Joining → Option Joining) → Option Joining → Option Joining
and_then rest none = none
and_then rest (some j) = rest j

module _ (codec : Codec) (aead : Aead) (states : StateCodec) (s : Settings) {F : Type 0}
    (fl : Floats F) (c : Config) (usr : Option Bytes) (nonce : ℕ → Bytes) (clock : ℕ → ℕ)
    (rnd : ℕ → ℕ → ℕ) (bind_port : ℕ) (resolve : String → Option Resolved)
    (dial : Bytes → ℕ → Conn) where
  unfoldable pub join_addr : ℕ → Bytes → Joining → Option Joining
  join_addr port addr j =
      let k = j.num_success + j.errs in
      after_exchange j (
        push_pull_with_node codec aead states s fl c (dial addr port) usr (nonce k) (clock k)
          (rnd k) j.table)

  unfoldable pub join_addrs : ℕ → List Bytes → Joining → Option Joining
  unfolding join_addr
  join_addrs port [] j = some j
  join_addrs port (a ∷ rest) j = and_then (join_addrs port rest) (join_addr port a j)

  unfoldable pub join_entry : String → Joining → Option Joining
  unfolding join_addrs
  join_entry entry j = elim (resolve entry) [
    | none ↦ some (with_error j)
    | some r ↦ join_addrs (if r.port == 0 then bind_port else r.port) r.addrs j
  ]

  unfoldable pub join_entries : List String → Joining → Option Joining
  unfolding join_entry
  join_entries [] j = some j
  join_entries (e ∷ es) j = and_then (join_entries es) (join_entry e j)

  -- A success drops the errors; `errs` is then the number of those combined, and 0 is no error.
  unfoldable pub join : List String → Memberlist → Option Joining
  unfolding join_entries
  join existing m =
      and_then (λ j. some (if ltb 0 j.num_success then record j { errs = 0 } else j))
        (join_entries existing (record { table = m; num_success = 0; errs = 0 }))
