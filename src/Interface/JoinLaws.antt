-- ===== src/Interface/JoinLaws.antt =====
-- memberlist.go: `Join` returns, keeps the table sound, and reports an error only if nothing was joined.
use Prim.Native.String.{String}
use mlist.Prelude.{
  ℕ, ◌+◌, ◌≤◌, ◌≡◌, ◌⊎◌, refl, ap, ◌∙◌, List, [], ◌∷◌, Option, none, some, arith, ltb, ◌==◌,
  if◌then◌else◌, Bool-cases, Option-cases, inl, inr,
}
use mlist.Suspicion.{Floats}
use mlist.Members.Types.{Bytes, Config, Memberlist}
use mlist.Members.Valid.{IsSound}
use mlist.Members.Grows.{Grows, Grows-trans, same-Grows}
use mlist.Wire.Encrypt.{Aead}
use mlist.Wire.Packet.{Codec, Settings}
use mlist.PushPull.MergeLaws.{AllOrdinary, merge_state_lem}
use mlist.PushPull.Encoding.{StateCodec, Remote, remote_state, remote_bad, remote_panics}
use mlist.PushPull.Exchange.{
  Conn, merged, failed, send_local_state, receive_state, send_and_receive_state, merge_remote,
  push_pull_with_node,
}
use mlist.Interface.Join.{
  Resolved, Joining, with_error, and_then, join_addr, join_addrs, join_entry, join_entries, join,
}

-- What arrives does not panic, and no life number in it is the largest `uint32`.
abbrev pub IsOrdinaryRemote : Remote → Type 0
IsOrdinaryRemote (remote_state rs user) = AllOrdinary rs
IsOrdinaryRemote remote_bad = Unit
IsOrdinaryRemote remote_panics = ⊥

module _ (codec : Codec) (aead : Aead) (states : StateCodec) (s : Settings) {F : Type 0}
    (fl : Floats F) (c : Config) (usr : Option Bytes) (nonce : ℕ → Bytes) (clock : ℕ → ℕ)
    (rnd : ℕ → ℕ → ℕ) (bind_port : ℕ) (resolve : String → Option Resolved)
    (dial : Bytes → ℕ → Conn) where
  -- What a part of `Join` leads to: it returns, with a sound table that has lost nothing, and counts.
  abbrev pub Progresses : Joining → Option Joining → Type 0
  Progresses j r =
      (j' : Joining) × (r ≡ some j')
      × IsSound c j'.table
      × Grows j.table j'.table
      × (j.num_success ≤ j'.num_success)
      × (j.errs ≤ j'.errs)

  merge_remote-cases :
      (r : Remote) (now : ℕ) (draw : ℕ → ℕ) (m : Memberlist)
      → IsOrdinaryRemote r
      → IsSound c m
      → (merge_remote codec aead states s fl c usr r now draw m ≡ failed)
        ⊎ ((m' : Memberlist) × (u : Option Bytes) × (merge_remote codec aead states s fl c usr r now
                draw m
              ≡ merged m' u)
            × IsSound c m'
            × Grows m m')
  unfolding merge_remote
  merge_remote-cases remote_bad now draw m o h = inl refl
  merge_remote-cases remote_panics now draw m o h = absurd o
  merge_remote-cases (remote_state rs user) now draw m o h =
      let (m', done, sound, grows) = merge_state_lem fl c rs now draw m h o in
      let u : Option Bytes = elim usr [ none ↦ none | some _ ↦ some user ] in
      inr (m', u, rw (done, merge_remote) refl, sound, grows)

  send_and_receive_state-IsOrdinaryRemote :
      (conn : Conn) (k : Bytes) (m : Memberlist)
      → IsOrdinaryRemote (receive_state codec aead states s conn.arrives)
      → IsOrdinaryRemote (send_and_receive_state codec aead states s conn usr k m)
  unfolding send_and_receive_state
  send_and_receive_state-IsOrdinaryRemote conn k m o = elim (Bool-cases conn.dialled) [
    | inr off ↦ rw (off, send_and_receive_state) tt
    | inl on ↦ elim (Option-cases (send_local_state codec aead states s conn.writes usr k m)) [
      | inl bad ↦ rw (on, bad, send_and_receive_state) tt
      | inr (b, sent) ↦ rw (on, sent, send_and_receive_state) o
    ]
  ]

  join_addr-Progresses :
      (port : ℕ) (a : Bytes) (j : Joining)
      → IsOrdinaryRemote (receive_state codec aead states s (dial a port).arrives)
      → IsSound c j.table
      → Progresses j
          (join_addr codec aead states s fl c usr nonce clock rnd bind_port resolve dial port a j)
  unfolding join_addr push_pull_with_node
  join_addr-Progresses port a j o h =
      let k = j.num_success + j.errs in
      elim (merge_remote-cases
        (send_and_receive_state codec aead states s (dial a port) usr (nonce k) j.table) (clock k)
        (rnd k) j.table (send_and_receive_state-IsOrdinaryRemote (dial a port) (nonce k) j.table o)
        h) [
          | inl bad ↦ (
            with_error j,
            rw (bad, join_addr, push_pull_with_node) refl,
            h,
            same-Grows j.table,
            omega arith,
            omega arith,
          )
          | inr (m', u, done, sound, grows) ↦ (
            record j { table = m'; num_success = j.num_success + 1 },
            rw (done, join_addr, push_pull_with_node) refl,
            sound,
            grows,
            omega arith,
            omega arith,
          )
        ]

  and_then-Progresses :
      (rest : Joining → Option Joining) (j : Joining) (r : Option Joining)
      → ((j1 : Joining) → IsSound c j1.table → Progresses j1 (rest j1))
      → Progresses j r
      → Progresses j (and_then rest r)
  and_then-Progresses rest j none more (j1, e, sound, grows, ok, bad) = absurd (ground arith)
  and_then-Progresses rest j (some j0) more (j1, e, sound, grows, ok, bad) =
      let e' : j0 ≡ j1 = ground arith in
      let (j2, done, sound', grows', ok', bad') = more j1 sound in
      (j2, ap rest e' ∙ done, sound', Grows-trans grows grows', omega arith, omega arith)

  stays : (j : Joining) → IsSound c j.table → Progresses j (some j)
  stays j h = (j, refl, h, same-Grows j.table, omega arith, omega arith)

  join_addrs-Progresses :
      (port : ℕ) (addrs : List Bytes) (j : Joining)
      → ((a : Bytes) (p : ℕ)
          → IsOrdinaryRemote (receive_state codec aead states s (dial a p).arrives))
      → IsSound c j.table
      → Progresses j (
          join_addrs codec aead states s fl c usr nonce clock rnd bind_port resolve dial port addrs
            j)
  unfolding join_addrs
  join_addrs-Progresses port [] j o h = stays j h
  join_addrs-Progresses port (a ∷ addrs) j o h =
      and_then-Progresses
        (join_addrs codec aead states s fl c usr nonce clock rnd bind_port resolve dial port addrs)
        j (join_addr codec aead states s fl c usr nonce clock rnd bind_port resolve dial port a j)
        (λ j1 h1. join_addrs-Progresses port addrs j1 o h1)
        (join_addr-Progresses port a j (o a port) h)

  join_entry-Progresses :
      (e : String) (j : Joining)
      → ((a : Bytes) (p : ℕ)
          → IsOrdinaryRemote (receive_state codec aead states s (dial a p).arrives))
      → IsSound c j.table
      → Progresses j
          (join_entry codec aead states s fl c usr nonce clock rnd bind_port resolve dial e j)
  unfolding join_entry
  join_entry-Progresses e j o h = elim (Option-cases (resolve e)) [
    | inl bad ↦
        rw (bad, join_entry) (with_error j, refl, h, same-Grows j.table, omega arith, omega arith)
    | inr (r, found) ↦
        rw (found, join_entry)
          (join_addrs-Progresses (if r.port == 0 then bind_port else r.port) r.addrs j o h)
  ]

  join_entries-Progresses :
      (es : List String) (j : Joining)
      → ((a : Bytes) (p : ℕ)
          → IsOrdinaryRemote (receive_state codec aead states s (dial a p).arrives))
      → IsSound c j.table
      → Progresses j
          (join_entries codec aead states s fl c usr nonce clock rnd bind_port resolve dial es j)
  unfolding join_entries
  join_entries-Progresses [] j o h = stays j h
  join_entries-Progresses (e ∷ es) j o h =
      and_then-Progresses
        (join_entries codec aead states s fl c usr nonce clock rnd bind_port resolve dial es) j
        (join_entry codec aead states s fl c usr nonce clock rnd bind_port resolve dial e j)
        (λ j1 h1. join_entries-Progresses es j1 o h1) (join_entry-Progresses e j o h)

  -- If no address that is dialled answers by bytes that panic or that hold the largest `uint32` as a
  -- life number, `Join` returns, whatever fails to resolve, to connect or to decode: the table is sound,
  -- no node or life of it is lost, and there is an error only if nothing was joined.
  pub join_lem :
      (existing : List String) (m : Memberlist)
      → ((a : Bytes) (p : ℕ)
          → IsOrdinaryRemote (receive_state codec aead states s (dial a p).arrives))
      → IsSound c m
      → (j : Joining) × (join codec aead states s fl c usr nonce clock rnd bind_port resolve dial
            existing m
          ≡ some j)
        × IsSound c j.table
        × Grows m j.table
        × ((j.num_success ≡ 0) ⊎ (j.errs ≡ 0))
  unfolding join
  join_lem existing m o h =
      let start : Joining = record { table = m; num_success = 0; errs = 0 } in
      let (j, done, sound, grows, ok, bad) = join_entries-Progresses existing start o h in
      elim (Bool-cases (ltb 0 j.num_success)) [
        | inl any ↦ (record j { errs = 0 }, rw (done, join) (rw any refl), sound, grows, inr refl)
        | inr nothing ↦ (j, rw (done, join) (rw nothing refl), sound, grows, inl (ground arith))
      ]
