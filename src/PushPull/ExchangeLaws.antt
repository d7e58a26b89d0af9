-- ===== src/PushPull/ExchangeLaws.antt =====
-- pushpull.go: an exchange carries the whole table across, compressed and encrypted or not.
use mlist.Prelude.{
  ℕ, ◌+◌, ◌≤◌, ◌<◌, ◌≡◌, refl, subst, sym, ap, ◌∙◌, List, [], ◌∷◌, ◌++◌, append-nil, Bool, true,
  Option, none, some, arith, length,
}
use mlist.Suspicion.{Floats}
use mlist.Members.Types.{Bytes, Config, Memberlist}
use mlist.Members.Valid.{IsSound}
use mlist.Wire.Encrypt.{Aead, nonce_size, encrypt_overhead, max_push_size}
use mlist.Wire.EncryptLaws.{IsAead}
use mlist.Wire.Packet.{Codec, Settings, received}
use mlist.Wire.PacketLaws.{IsCodec}
use mlist.Wire.Stream.{pack_tcp, unpack_stream}
use mlist.Wire.StreamLaws.{unpack_stream-pack_tcp}
use mlist.PushPull.Merge.{StateToMerge, to_merge, states_of, local_state, merge_state}
use mlist.PushPull.MergeLaws.{
  AllOrdinary, IsCovered, IsWelcome, merge_state-covers, merge_state_lem,
}
use mlist.Members.Grows.{Grows}
use mlist.PushPull.Encoding.{
  StateCodec, push_pull_code, remote_state, encode_push_pull_msg, read_remote_state,
}
use mlist.PushPull.EncodingLaws.{IsStateCodec, read_remote_state-encode_push_pull_msg}
use mlist.PushPull.Exchange.{
  Conn, merged, user_bytes, send_tcp, send_local_state, receive_state, send_and_receive_state,
  merge_remote, push_pull_with_node, handle_push_pull,
}

module _ (codec : Codec) (aead : Aead) (states : StateCodec) (s : Settings) where
  -- The bytes that `sendLocalState` writes are unpacked, by a receiver with the same settings, to a
  -- push/pull message that reads as the sender's table with its user state, if the message takes at
  -- most 20 MB with the overhead of encryption.
  unpack_stream-send_local_state :
      (writes : Bool) (usr : Option Bytes) (nonce packed msg : Bytes) (m : Memberlist)
      → IsCodec codec
      → IsAead aead
      → IsStateCodec states
      → length nonce ≡ nonce_size
      → encode_push_pull_msg states (local_state m) (user_bytes usr) ≡ some msg
      → encrypt_overhead + length msg ≤ max_push_size
      → send_local_state codec aead states s writes usr nonce m ≡ some packed
      → (body : Bytes) × (unpack_stream codec aead s packed s.label
          ≡ received (push_pull_code ∷ body))
        × (read_remote_state states body ≡ remote_state (local_state m) (user_bytes usr))
  unfolding send_local_state send_tcp
  unpack_stream-send_local_state writes usr nonce packed msg m laws sound good len coded small e =
      let (body, shape, back) =
        read_remote_state-encode_push_pull_msg states (local_state m) (user_bytes usr) msg good
          coded in
      let sent : pack_tcp codec aead s nonce msg s.label ≡ some packed = ground arith in
      let got =
        unpack_stream-pack_tcp codec aead laws s nonce body s.label packed [] push_pull_code sound
          len (omega (arith, small, ap length shape)) (omega arith) (omega arith)
          (subst (λ x. pack_tcp codec aead s nonce x s.label ≡ some packed) shape sent) in
      (
        body,
        ground (arith, got, append-nil packed, append-nil body),
        ap (read_remote_state states) (sym (append-nil body)) ∙ back [],
      )

  -- `sendAndReceiveState` gives the table of the remote node, with its user state, if the connection is
  -- made, its own table is written, and what arrives is what `sendLocalState` of the remote wrote with
  -- the same settings.
  send_and_receive_state-send_local_state :
      (writes : Bool) (usr own : Option Bytes) (nonce nonce' msg sent : Bytes) (conn : Conn)
      (m m' : Memberlist)
      → IsCodec codec
      → IsAead aead
      → IsStateCodec states
      → length nonce ≡ nonce_size
      → encode_push_pull_msg states (local_state m') (user_bytes usr) ≡ some msg
      → encrypt_overhead + length msg ≤ max_push_size
      → send_local_state codec aead states s writes usr nonce m' ≡ some conn.arrives
      → conn.dialled ≡ true
      → send_local_state codec aead states s conn.writes own nonce' m ≡ some sent
      → send_and_receive_state codec aead states s conn own nonce' m
        ≡ remote_state (local_state m') (user_bytes usr)
  unfolding send_and_receive_state receive_state
  send_and_receive_state-send_local_state writes usr own nonce nonce' msg sent conn m m' laws sound
        good len coded small e up out =
      let (body, got, read) =
        unpack_stream-send_local_state writes usr nonce conn.arrives msg m' laws sound good len
          coded small e in
      ground arith

states_of-append :
    (m : Memberlist) (xs : List ℕ) (ys : List ℕ)
    → states_of m (xs ++ ys) ≡ states_of m xs ++ states_of m ys
unfolding states_of
states_of-append m [] ys = refl
states_of-append m (x ∷ xs) ys = ap (◌∷◌ (to_merge (m.store x))) (states_of-append m xs ys)

-- What the user's `Merge` is given, if there is one.
abbrev pub given : Option Bytes → Bytes → Option Bytes
given none user = none
given (some _) user = some user

module _ (codec : Codec) (aead : Aead) (states : StateCodec) (s : Settings) {F : Type 0}
    (fl : Floats F) (c : Config) where
  -- The remote table is merged: the table is sound again, has kept its nodes, and has the node.
  abbrev pub HasMerged : Memberlist → StateToMerge → Memberlist → Type 0
  HasMerged m r last = IsSound c last × Grows m last × IsCovered last r

  merge_remote-HasMerged :
      (own : Option Bytes) (user : Bytes) (now : ℕ) (rnd : ℕ → ℕ) (m m' : Memberlist)
      (before after : List ℕ) (p : ℕ)
      → IsSound c m
      → AllOrdinary (local_state m')
      → m'.nodes ≡ before ++ (p ∷ after)
      → IsWelcome c (to_merge (m'.store p))
      → (last : Memberlist) × (merge_remote codec aead states s fl c own
            (remote_state (local_state m') user)
            now
            rnd
            m
          ≡ merged last (given own user))
        × HasMerged m (to_merge (m'.store p)) last
  unfolding merge_remote local_state states_of
  merge_remote-HasMerged own user now rnd m m' before after p h o listed w =
      let (last, done, sound, grows) = merge_state_lem fl c (local_state m') now rnd m h o in
      let split : local_state m'
          ≡ states_of m' before ++ (to_merge (m'.store p) ∷ states_of m' after) =
        ap (states_of m') listed ∙ states_of-append m' before (p ∷ after) in
      (
        last,
        go own done,
        (
          sound,
          grows,
          merge_state-covers fl c (states_of m' before) (states_of m' after) (to_merge (m'.store p))
              now rnd m last h (subst AllOrdinary split o)
              (subst (λ rs. merge_state fl c rs now rnd m ≡ some last) split done) w,
        ),
      )
    where
      go :
          (own : Option Bytes) {last : Memberlist}
          → merge_state fl c (local_state m') now rnd m ≡ some last
          → merge_remote codec aead states s fl c own (remote_state (local_state m') user) now rnd m
            ≡ merged last (given own user)
      go none done = rw (done, merge_remote) refl
      go (some _) done = rw (done, merge_remote) refl

  -- A push/pull whose connection works, with a remote of the same settings that answers with its own
  -- table, ends with the two tables merged: the table is sound, no node or life of it is lost, and
  -- each node of the remote table that is alive, allowed and not this node is known, in its life or a
  -- later one; the user's `Merge` gets the remote's user state. Both tables can be written, this one
  -- is sound before, no life of the remote one is the largest `uint32`, and its message takes at most
  -- 20 MB with its nonce, which has its length.
  pub push_pull_with_node-HasMerged :
      (writes : Bool) (usr own : Option Bytes) (nonce nonce' msg sent : Bytes) (conn : Conn)
      (now : ℕ) (rnd : ℕ → ℕ) (m m' : Memberlist) (before after : List ℕ) (p : ℕ)
      → IsCodec codec
      → IsAead aead
      → IsStateCodec states
      → length nonce ≡ nonce_size
      → encode_push_pull_msg states (local_state m') (user_bytes usr) ≡ some msg
      → encrypt_overhead + length msg ≤ max_push_size
      → send_local_state codec aead states s writes usr nonce m' ≡ some conn.arrives
      → conn.dialled ≡ true
      → send_local_state codec aead states s conn.writes own nonce' m ≡ some sent
      → IsSound c m
      → AllOrdinary (local_state m')
      → m'.nodes ≡ before ++ (p ∷ after)
      → IsWelcome c (to_merge (m'.store p))
      → (last : Memberlist) × (push_pull_with_node codec aead states s fl c conn own nonce' now rnd
            m
          ≡ merged last (given own (user_bytes usr)))
        × HasMerged m (to_merge (m'.store p)) last
  unfolding push_pull_with_node
  push_pull_with_node-HasMerged writes usr own nonce nonce' msg sent conn now rnd m m' before after
        p laws sound good len coded small e up out h o listed w =
      rw
        (send_and_receive_state-send_local_state codec aead states s writes usr own nonce nonce' msg
          sent conn m m' laws sound good len coded small e up out)
        (merge_remote-HasMerged own (user_bytes usr) now rnd m m' before after p h o listed w)

  -- The remote side of a push/pull: below the limit of exchanges, the handler answers the message that
  -- `sendLocalState` wrote with the same settings by its own table, if that can be written, and ends
  -- with the sender's table merged into its own, as the sender does with the answer. The conditions on
  -- the two tables, the message and its nonce are those of the sender.
  pub handle_push_pull-HasMerged :
      (max n_pp : ℕ) (wrote writes : Bool) (usr own : Option Bytes)
      (nonce nonce' packed msg body reply : Bytes) (now : ℕ) (rnd : ℕ → ℕ) (m m' : Memberlist)
      (before after : List ℕ) (p : ℕ)
      → IsCodec codec
      → IsAead aead
      → IsStateCodec states
      → length nonce ≡ nonce_size
      → encode_push_pull_msg states (local_state m') (user_bytes usr) ≡ some msg
      → encrypt_overhead + length msg ≤ max_push_size
      → send_local_state codec aead states s wrote usr nonce m' ≡ some packed
      → unpack_stream codec aead s packed s.label ≡ received (push_pull_code ∷ body)
      → n_pp < max
      → send_local_state codec aead states s writes own nonce' m ≡ some reply
      → IsSound c m
      → AllOrdinary (local_state m')
      → m'.nodes ≡ before ++ (p ∷ after)
      → IsWelcome c (to_merge (m'.store p))
      → (last : Memberlist) × (handle_push_pull codec aead states s fl c max n_pp writes own nonce'
            body now rnd m
          ≡ (some reply, merged last (given own (user_bytes usr))))
        × HasMerged m (to_merge (m'.store p)) last
  unfolding handle_push_pull
  handle_push_pull-HasMerged max n_pp wrote writes usr own nonce nonce' packed msg body reply now
        rnd m m' before after p laws sound good len coded small e arrived room out h o listed w =
      let (body', got, read) =
        unpack_stream-send_local_state codec aead states s wrote usr nonce packed msg m' laws sound
          good len coded small e in
      let same_body : body' ≡ body = ground arith in
      let whole : read_remote_state states body ≡ remote_state (local_state m') (user_bytes usr) =
        ground arith in
      let (last, done, merged_it) =
        merge_remote-HasMerged own (user_bytes usr) now rnd m m' before after p h o listed w in
      (last, ground arith, merged_it)
