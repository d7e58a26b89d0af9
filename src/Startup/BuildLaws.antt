-- ===== src/Startup/BuildLaws.antt =====
-- memberlist.go: what `Build` returns, and what it leaves open.
use mlist.Prelude.{
  ℕ, ◌≡◌, ◌≤◌, refl, true, false, not, ◌&&◌, Option, none, some, arith, ltb, length, Bool-cases,
  Option-cases, inl, inr,
}
use mlist.Members.Types.{Bytes, Config}
use mlist.Members.Valid.{IsSound}
use mlist.Broadcast.Queue.{HeapOps}
use mlist.Keyring.Keys.{Keyring, encryption_enabled}
use mlist.Interface.Operations.{tag_max_size, set_alive}
use mlist.Transport.Sockets.{Os, NetTransport, close_all}
use mlist.Transport.AddrLaws.{GivesPorts}
use mlist.Startup.Options.{Options}
use mlist.Startup.Addresses.{Net, finalize_advertise_addr, get_advertise_addr, has_public_iface}
use mlist.Startup.Build.{
  MemberlistBuilder, BuildError, bad_key, Running, Opened, opened, not_opened, no_address, Built,
  built, failed, build_keyring, build_transport, shut_down, go_alive, start_memberlist, new_running,
  finish_build, build_on, build,
}
use mlist.Startup.SecretLaws.{HasSecret, IsRefused, secret-IsRefused, secret_used}
use mlist.Startup.FirstTable.{IsFirst, set_alive-eq, alive_node-IsFirst, own_alive-IsSound}
use mlist.Startup.TransportLaws.{IsClosed, IsUp, OpenedUp, build_transport-OpenedUp}

-- What `Build` promises of the node that it returns.
pub record IsReady {H : Type 0} (net : Net) (c : Config) (now : ℕ) (secret : Option Bytes)
    (r : Running H) : Type 0 where
  pub up : IsUp r.transport
  pub running : r.shutdown ≡ false
  pub sound : IsSound c r.table
  pub secret_used : HasSecret secret r.keyring
  pub not_public : has_public_iface net r.options ≡ some true → encryption_enabled r.keyring ≡ true
  pub small : length r.options.tags ≤ tag_max_size
  pub announced :
      (ip : Bytes) × (port : ℕ) × (get_advertise_addr net r.options ≡ some (ip, port))
      × IsFirst c ip port r.options.tags now r.table

-- A start that fails leaves the transport as it was.
abbrev StartsUp :
    {H : Type 0}
    → Net
    → Config
    → ℕ
    → Option Bytes
    → NetTransport
    → Running H × Option BuildError
    → Type 0
StartsUp net c now secret t (r, none) = IsReady net c now secret r
StartsUp net c now secret t (r, some e) = (r.transport ≡ t) × (r.shutdown ≡ false)

-- What `Build` leaves: the node, or no open socket.
abbrev pub IsBuilt : {H : Type 0} → Net → Config → ℕ → Option Bytes → Built H → Type 0
IsBuilt net c now secret (built r) = IsReady net c now secret r
IsBuilt net c now secret (failed e none) = (e ≡ bad_key) × IsRefused secret
IsBuilt net c now secret (failed e (some t)) = IsClosed t

module _ {H : Type 0} (ops : HeapOps H) (net : Net) (c : Config) (now rnd : ℕ)
    (secret : Option Bytes) (ring : Option Keyring) (t : NetTransport) (up : IsUp t)
    (used : HasSecret secret ring) where
  go_alive-StartsUp :
      (o o' : Options)
      → (has_public_iface net o' ≡ some true → encryption_enabled ring ≡ true)
      → StartsUp net c now secret t
          (go_alive net c now rnd (record (new_running ops o ring t) { options = o' }))
  unfolding go_alive new_running
  go_alive-StartsUp o o' closed = elim (Option-cases (get_advertise_addr net o')) [
    | inl bad ↦ rw (bad, go_alive) (refl, refl)
    | inr ((ip, port), got) ↦ elim (Bool-cases (ltb tag_max_size (length o'.tags))) [
      | inl large ↦ rw (got, large, go_alive, set_alive) (refl, refl)
      | inr fits ↦
          let small : length o'.tags ≤ tag_max_size = ground arith in
          rw (got, go_alive)
            (rw (set_alive-eq c ip port o'.tags now rnd o.max_awareness_health small) (record {
              up = up;
              running = refl;
              sound = own_alive-IsSound c ip port o'.tags now rnd o.max_awareness_health;
              secret_used = used;
              not_public = closed;
              small = small;
              announced = (
                ip,
                port,
                got,
                alive_node-IsFirst c ip port o'.tags now rnd o.max_awareness_health,
              );
            }))
    ]
  ]

  start_memberlist-StartsUp :
      (o : Options)
      → StartsUp net c now secret t (start_memberlist net c now rnd (new_running ops o ring t))
  unfolding start_memberlist new_running
  start_memberlist-StartsUp o = elim (Option-cases (finalize_advertise_addr net o t)) [
    | inl bad ↦ rw (bad, start_memberlist) (refl, refl)
    | inr (o', final) ↦ elim (Option-cases (has_public_iface net o')) [
      | inl unknown ↦ rw (final, unknown, start_memberlist) (refl, refl)
      | inr (public, known) ↦ elim (Bool-cases (public && not (encryption_enabled ring))) [
        | inl refused ↦ rw (final, known, refused, start_memberlist) (refl, refl)
        | inr ok ↦
            rw (final, known, ok, start_memberlist) (go_alive-StartsUp o o' (λ e. ground arith))
      ]
    ]
  ]

  finish_build-IsBuilt :
      (r : Running H × Option BuildError)
      → StartsUp net c now secret t r
      → IsBuilt net c now secret (finish_build ops r)
  unfolding shut_down close_all
  finish_build-IsBuilt (r, none) h = h
  finish_build-IsBuilt (r, some e) h = ground (arith, h.0, h.1, up)

module _ {H : Type 0} (ops : HeapOps H) (net : Net) (c : Config) (now rnd : ℕ) where
  build_on-IsBuilt :
      (secret : Option Bytes) (ring : Option Keyring) (o : Opened)
      → HasSecret secret ring
      → OpenedUp o
      → IsBuilt net c now secret (build_on ops net c now rnd ring o)
  build_on-IsBuilt secret ring (opened t o) used up =
      finish_build-IsBuilt ops net c now rnd secret ring t up used
        (start_memberlist net c now rnd (new_running ops o ring t))
        (start_memberlist-StartsUp ops net c now rnd secret ring t up used o)
  build_on-IsBuilt secret ring (not_opened t) used up = up
  build_on-IsBuilt secret ring no_address used up = absurd up

  -- `Build`, whatever fails on the way: it refuses a secret key of a wrong size before it opens anything,
  -- or leaves its transport shut down with no socket in it, or returns a node that is up with a listener
  -- and a connection on one port that is not 0. The table of the node is sound and holds this node alone,
  -- alive in its first life with its tags and advertised address, or nobody if that address is not
  -- allowed; a secret key is the primary key, and a node with a public address encrypts. The system
  -- gives the port that is asked for, and for 0 one that is not 0.
  pub build-IsBuilt :
      (os : ℕ → Os) (b : MemberlistBuilder)
      → ((i : ℕ) → GivesPorts (os i))
      → IsBuilt net c now b.secret_key (build ops os net c now rnd b)
  unfolding build
  build-IsBuilt os b gives = elim (Option-cases (build_keyring b.secret_key b.keyring)) [
    | inl bad ↦ rw (bad, build) (refl, secret-IsRefused b.secret_key b.keyring bad)
    | inr (ring, made) ↦
        rw (made, build)
          (build_on-IsBuilt b.secret_key ring (build_transport os b.config)
            (secret_used b.secret_key b.keyring ring made)
            (build_transport-OpenedUp os b.config gives))
  ]
