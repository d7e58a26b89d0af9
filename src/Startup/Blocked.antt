-- ===== src/Startup/Blocked.antt =====
-- memberlist.go: `Build` of a node whose own address is not allowed.
use mlist.Prelude.{
  ℕ, ◌≤◌, ◌≡◌, refl, subst, ap, ◌∙◌, List, [], ◌∷◌, Bool, false, not, ◌&&◌, Option, none, some,
  arith, ltb, length, Bool-cases, Option-cases, inl, inr, ◌==◌,
}
use mlist.Prelude.Int.{pos}
use mlist.Suspicion.{Floats}
use mlist.Members.Types.{Bytes, Config, Memberlist, new_memberlist}
use mlist.Members.Handlers.{ip_allowed, alive_node}
use mlist.Maintenance.Run.{Input, run}
use mlist.Startup.Absent.{AllForeign, run_absent}
use mlist.Broadcast.Queue.{HeapOps}
use mlist.Keyring.Keys.{Keyring, encryption_enabled}
use mlist.Interface.Operations.{tag_max_size, set_alive, update_tags, panics, done}
use mlist.Startup.FirstTable.{own_alive, set_alive-eq}
use mlist.Transport.Sockets.{
  Os, NetTransport, StartError, Zero, zero_bind_port_transport, new_net_transport, start,
}
use mlist.Startup.Options.{Options}
use mlist.Startup.Addresses.{Net, finalize_advertise_addr, get_advertise_addr, has_public_iface}
use mlist.Startup.Build.{
  MemberlistBuilder, BuildError, Running, Opened, opened, not_opened, no_address, built,
  build_keyring, build_transport, opened_zero, opened_port, go_alive, start_memberlist, new_running,
  finish_build, build_on, build,
}

-- The same settings with every address allowed.
abbrev pub all_allowed : Config → Config
all_allowed c = record c { cidrs_allowed = [] }

-- The first table, after a life number was drawn.
abbrev pub empty_table : ℕ → Memberlist
empty_table max = record (new_memberlist (pos max)) { lives = 1 }

abbrev pub IsBlocked : Net → Config → Options → Type 0
IsBlocked net c o =
    (ip : Bytes) (port : ℕ) → get_advertise_addr net o ≡ some (ip, port) → ip_allowed c ip ≡ false

max_kept_port :
    (r : NetTransport × Option StartError) (o : Options) (t : NetTransport) (o' : Options)
    → opened_port o r ≡ opened t o'
    → o'.max_awareness_health ≡ o.max_awareness_health
max_kept_port (t', none) o t o' e = ground arith
max_kept_port (t', some err) o t o' e = absurd (ground arith)

max_kept_zero :
    (z : Zero) (o : Options) (t : NetTransport) (o' : Options)
    → opened_zero o z ≡ opened t o'
    → o'.max_awareness_health ≡ o.max_awareness_health
max_kept_zero (Zero.bound t') o t o' e = ground arith
max_kept_zero Zero.no_address o t o' e = absurd (ground arith)
max_kept_zero (Zero.failed t') o t o' e = absurd (ground arith)

max_kept :
    (os : ℕ → Os) (o : Options) (t : NetTransport) (o' : Options)
    → build_transport os o ≡ opened t o'
    → o'.max_awareness_health ≡ o.max_awareness_health
unfolding build_transport
max_kept os o t o' e = elim (Bool-cases (o.bind_port == 0)) [
  | inl zero_port ↦
      max_kept_zero (zero_bind_port_transport os (o.bind_addr ∷ [])) o t o' (ground arith)
  | inr given ↦ elim (Option-cases (new_net_transport (o.bind_addr ∷ []) o.bind_port)) [
    | inl bad ↦ absurd (ground arith)
    | inr (t1, made) ↦ max_kept_port (start (os 0) t1) o t o' (ground arith)
  ]
]

module _ {H : Type 0} (ops : HeapOps H) (net : Net) (c : Config) (now rnd : ℕ) where
  first_set_alive :
      (c' : Config) (r : Running H) (max : ℕ) (ip : Bytes) (port : ℕ)
      → r.table ≡ new_memberlist (pos max)
      → length r.options.tags ≤ tag_max_size
      → set_alive c' ip port r.options.tags now rnd r.table ≡ (
        alive_node c' (own_alive c' ip port r.options.tags) false now rnd (empty_table max),
        done,
      )
  first_set_alive c' r max ip port fresh small =
      rw fresh (set_alive-eq c' ip port r.options.tags now rnd max small)

  kept_out :
      (ip : Bytes) (port : ℕ) (tags : Bytes) (max : ℕ)
      → ip_allowed c ip ≡ false
      → alive_node c (own_alive c ip port tags) false now rnd (empty_table max) ≡ empty_table max
  unfolding alive_node
  kept_out ip port tags max off = ground arith

  go_alive-blocked :
      (r r0 : Running H) (max : ℕ)
      → r.table ≡ new_memberlist (pos max)
      → go_alive net (all_allowed c) now rnd r ≡ (r0, none)
      → IsBlocked net c r0.options
      → go_alive net c now rnd r ≡ (record r0 { table = empty_table max }, none)
  unfolding go_alive
  go_alive-blocked r r0 max fresh e blocked =
      elim (Option-cases (get_advertise_addr net r.options)) [
        | inl bad ↦ absurd (ground arith)
        | inr ((ip, port), got) ↦ elim (Bool-cases (ltb tag_max_size (length r.options.tags))) [
          | inl large ↦ absurd (ground arith)
          | inr fits ↦
              let small : length r.options.tags ≤ tag_max_size = ground arith in
              let tried = first_set_alive (all_allowed c) r max ip port fresh small in
              let same_options : r.options ≡ r0.options = ground (arith, tried) in
              let off : ip_allowed c ip ≡ false =
                blocked ip port
                  (subst (λ o. get_advertise_addr net o ≡ some (ip, port)) same_options got) in
              let kept =
                first_set_alive c r max ip port fresh small
                ∙ ap (λ m. (m, done)) (kept_out ip port r.options.tags max off) in
              ground (arith, tried, kept)
        ]
      ]

  start_memberlist-blocked :
      (r r0 : Running H) (max : ℕ)
      → r.table ≡ new_memberlist (pos max)
      → start_memberlist net (all_allowed c) now rnd r ≡ (r0, none)
      → IsBlocked net c r0.options
      → start_memberlist net c now rnd r ≡ (record r0 { table = empty_table max }, none)
  unfolding start_memberlist
  start_memberlist-blocked r r0 max fresh e blocked =
      elim (Option-cases (finalize_advertise_addr net r.options r.transport)) [
        | inl bad ↦ absurd (ground arith)
        | inr (o, final) ↦ elim (Option-cases (has_public_iface net o)) [
          | inl unknown ↦ absurd (ground arith)
          | inr (public, known) ↦ elim (Bool-cases (public && not (encryption_enabled r.keyring))) [
            | inl refused ↦ absurd (ground arith)
            | inr ok ↦
                let alive =
                  go_alive-blocked (record r { options = o }) r0 max fresh (ground arith) blocked in
                ground (arith, alive)
          ]
        ]
      ]

  finished :
      (x : Running H × Option BuildError) (r0 : Running H)
      → finish_build ops x ≡ built r0
      → x ≡ (r0, none)
  finished (r, none) r0 e = ground arith
  finished (r, some err) r0 e = absurd (ground arith)

  build_on-blocked :
      (ring : Option Keyring) (w : Opened) (max : ℕ) (r0 : Running H)
      → ((t : NetTransport) (o : Options) → w ≡ opened t o → o.max_awareness_health ≡ max)
      → build_on ops net (all_allowed c) now rnd ring w ≡ built r0
      → IsBlocked net c r0.options
      → build_on ops net c now rnd ring w ≡ built (record r0 { table = empty_table max })
  unfolding new_running
  build_on-blocked ring (opened t o) max r0 same_max e blocked = ap (finish_build ops) (
      start_memberlist-blocked (new_running ops o ring t) r0 max
        (ap (λ (n : ℕ). new_memberlist (pos n)) (same_max t o refl)) (finished _ r0 e) blocked)
  build_on-blocked ring (not_opened t) max r0 same_max e blocked = absurd (ground arith)
  build_on-blocked ring no_address max r0 same_max e blocked = absurd (ground arith)

  build_in_spite :
      (os : ℕ → Os) (b : MemberlistBuilder) (r0 : Running H)
      → build ops os net (all_allowed c) now rnd b ≡ built r0
      → IsBlocked net c r0.options
      → build ops os net c now rnd b
        ≡ built (record r0 { table = empty_table b.config.max_awareness_health })
  unfolding build
  build_in_spite os b r0 e blocked = elim (Option-cases (build_keyring b.secret_key b.keyring)) [
    | inl bad ↦ absurd (ground arith)
    | inr (ring, made) ↦
        rw (made, build)
          (build_on-blocked ring (build_transport os b.config) b.config.max_awareness_health r0
            (λ t o w. max_kept os b.config t o w) (ground arith) blocked)
  ]

  -- A node whose own advertised address is not allowed is built all the same, with an empty table: if
  -- `Build` returns a node with every address allowed, it returns the same node with the CIDRs of the
  -- settings, but for its table, which is empty. After any sequence of messages, timers, reapings and
  -- stores of `m.left`, in which no alive message about the node has an allowed address, the node is
  -- still not in that table, and `UpdateTags` with tags that are not too large panics.
  pub build-blocked :
      {F : Type 0} (fl : Floats F) (os : ℕ → Os) (b : MemberlistBuilder) (r : Running H)
      (is : List (ℕ × Input)) (m : Memberlist) (tags : Bytes) (timeout later draw : ℕ)
      (notified : Bool)
      → build ops os net (all_allowed c) now rnd b ≡ built r
      → IsBlocked net c r.options
      → AllForeign c is
      → run fl c is (empty_table b.config.max_awareness_health) ≡ some m
      → length tags ≤ tag_max_size
      → (build ops os net c now rnd b
          ≡ built (record r { table = empty_table b.config.max_awareness_health }))
        × (m.node_map c.local_id ≡ none)
        × (update_tags c tags timeout notified later draw m ≡ (m, panics))
  unfolding update_tags new_memberlist
  build-blocked fl os b r is m tags timeout later draw notified e blocked foreign ran small =
      let absent =
        run_absent c fl is (empty_table b.config.max_awareness_health) m foreign refl ran in
      (build_in_spite os b r e blocked, absent, ground (arith, absent))
