-- ===== src/Tests/Exchange.antt =====
-- A push/pull with a node that knows `b`, compressed if that is shorter, and encrypted.
use Prim.Native.String.{String}
use mlist.Prelude.{
  ℕ, ◌≡◌, ◌↔◌, ◌⊎◌, refl, [], ◌∷◌, ◌++◌, Option, true, false, none, some, arith, ℕ_discrete,
}
use mlist.Prelude.Maps.{str_dec}
use mlist.Prelude.Int.{pos}
use mlist.Members.Types.{Bytes, Memberlist, Alive, new_memberlist}
use mlist.Members.Handlers.{alive_node, add_node, ip_allowed, rand_int_n}
use mlist.Members.Grows.{Grows}
use mlist.Members.Valid.{IsSound}
use mlist.Maintenance.Run.{run, step, lives, run-IsSound}
use mlist.PushPull.Merge.{local_state, states_of, to_merge}
use mlist.PushPull.Encoding.{
  PushPullHeader, push_pull_code, remote_state, remote_panics, encode_states, encode_push_pull_msg,
  read_remote_state, read_nodes, decode_states, read_user,
}
use mlist.PushPull.EncodingLaws.{
  HasRefused, read_remote_state-encode_push_pull_msg, read_remote_state-eq-panics_iff,
}
use mlist.PushPull.Limit.{
  Pending, none_pending, refuse, refuses, start, after, add_pending, IsLimited, Reachable-IsLimited,
}
use mlist.Prelude.Slices.{swap}
use mlist.Keyring.Keys.{encryption_enabled, get_keys, get_primary_key, others}
use mlist.Wire.Encrypt.{
  encrypt_code, put_uint32, uint32, encrypt, encrypt_tcp, decrypt_tcp, decrypt_with_keys, try_keys,
  decrypt, tcp_aad, tcp_header,
}
use mlist.Wire.Packet.{received, shrink, compress}
use mlist.Wire.Stream.{pack_tcp, seal_stream, unpack_stream, open_stream, decrypt_stream}
use mlist.PushPull.Exchange.{
  Conn, merged, send_tcp, send_local_state, receive_state, read_typed, push_pull_with_node,
  handle_push_pull,
}
use mlist.PushPull.ExchangeLaws.{
  HasMerged, push_pull_with_node-HasMerged, handle_push_pull-HasMerged,
}
use mlist.Interface.Join.{Resolved, Joining, join}
use mlist.Interface.JoinLaws.{join_lem}
use mlist.Tests.Codecs.{small_states, small_states-IsStateCodec}
use mlist.Tests.Wire.{tag, only_tag, only_tag-IsAead, identity, identity-IsCodec, nonce, sealed}
use mlist.Tests.Members.{no_floats, config, alive_b}

abbrev alive_c : Alive
alive_c = record { lives = 3; id = "c"; ip = 129 ∷ []; port = 7946; tags = [] }

abbrev with_b : Memberlist
with_b = alive_node config alive_b false 20 5 (new_memberlist (pos 8))

abbrev with_c : Memberlist
with_c = alive_node config alive_c false 20 5 (new_memberlist (pos 8))

with_c-IsSound : IsSound config with_c
unfolding run step alive_node add_node new_memberlist str_dec ℕ_discrete ip_allowed rand_int_n
with_c-IsSound = run-IsSound no_floats config (pos 8) ((20, lives alive_c false 5) ∷ []) refl

abbrev msg_b : Bytes
msg_b = 7 ∷ 0 ∷ 1 ∷ 0 ∷ 2 ∷ 1 ∷ 1 ∷ 7946 ∷ 0 ∷ 128 ∷ 55 ∷ 66 ∷ []

abbrev user_b : Option Bytes
user_b = some (55 ∷ 66 ∷ [])

coded_b : encode_push_pull_msg small_states (local_state with_b) (55 ∷ 66 ∷ []) ≡ some msg_b
unfolding encode_push_pull_msg encode_states local_state states_of alive_node add_node
    new_memberlist str_dec ℕ_discrete ip_allowed rand_int_n swap
coded_b = refl

read_remote_state-encode_push_pull_msg_example :
    (body : Bytes) × (msg_b ≡ push_pull_code ∷ body)
    × ((rest : Bytes)
        → read_remote_state small_states (body ++ rest)
          ≡ remote_state (local_state with_b) (55 ∷ 66 ∷ []))
read_remote_state-encode_push_pull_msg_example =
    read_remote_state-encode_push_pull_msg small_states (local_state with_b) (55 ∷ 66 ∷ []) msg_b
      small_states-IsStateCodec coded_b

-- The number of nodes is -1.
abbrev negative : Bytes
negative = 1 ∷ 0 ∷ 0 ∷ 0 ∷ []

read_remote_state-eq-panics_iff_example :
    (read_remote_state small_states negative ≡ remote_panics) ↔ (
      (h : PushPullHeader) × (rest : Bytes) × (small_states.get_header negative ≡ some (h, rest))
      × HasRefused small_states h.nodes h.user_state_len rest)
read_remote_state-eq-panics_iff_example = read_remote_state-eq-panics_iff small_states negative

negative_panics : read_remote_state small_states negative ≡ remote_panics
unfolding read_remote_state read_nodes
negative_panics = refl

-- A header with a hundred and one nodes.
abbrev too_many : Bytes
too_many = 0 ∷ 101 ∷ 0 ∷ 0 ∷ []

too_many_panics : read_remote_state small_states too_many ≡ remote_panics
unfolding read_remote_state read_nodes
too_many_panics = refl

abbrev one_refused : Pending
one_refused = refuse none_pending

Reachable-IsLimited_example : IsLimited 1 one_refused
unfolding add_pending
Reachable-IsLimited_example =
    Reachable-IsLimited (after start (refuses none_pending (omega arith) (omega arith)))

abbrev packed_b : Bytes
packed_b = encrypt_code ∷ (put_uint32 41 ++ (0 ∷ (nonce ++ (tag ++ msg_b))))

abbrev msg_c : Bytes
msg_c = 7 ∷ 0 ∷ 1 ∷ 0 ∷ 0 ∷ 2 ∷ 3 ∷ 7946 ∷ 0 ∷ 129 ∷ []

abbrev packed_c : Bytes
packed_c = encrypt_code ∷ (put_uint32 39 ++ (0 ∷ (nonce ++ (tag ++ msg_c))))

sends_b :
    send_local_state identity only_tag small_states sealed true user_b nonce with_b ≡ some packed_b
unfolding send_local_state send_tcp encode_push_pull_msg encode_states local_state states_of
    pack_tcp shrink compress seal_stream encryption_enabled get_keys get_primary_key encrypt
    encrypt_tcp tcp_header put_uint32 alive_node add_node new_memberlist str_dec ℕ_discrete
    ip_allowed rand_int_n swap
sends_b = refl

sends_c :
    send_local_state identity only_tag small_states sealed true none nonce with_c ≡ some packed_c
unfolding send_local_state send_tcp encode_push_pull_msg encode_states local_state states_of
    pack_tcp shrink compress seal_stream encryption_enabled get_keys get_primary_key encrypt
    encrypt_tcp tcp_header put_uint32 alive_node add_node new_memberlist str_dec ℕ_discrete
    ip_allowed rand_int_n swap
sends_c = refl

arrives_b :
    unpack_stream identity only_tag sealed packed_b sealed.label
    ≡ received (push_pull_code ∷ 0 ∷ 1 ∷ 0 ∷ 2 ∷ 1 ∷ 1 ∷ 7946 ∷ 0 ∷ 128 ∷ 55 ∷ 66 ∷ [])
unfolding unpack_stream open_stream decrypt_stream decrypt_tcp decrypt_with_keys try_keys decrypt
    encryption_enabled get_keys others put_uint32 uint32 tcp_aad tcp_header
arrives_b = refl

abbrev to_b : Conn
to_b = record { dialled = true; writes = true; arrives = packed_b }

push_pull_with_node-HasMerged_example :
    (last : Memberlist) × (push_pull_with_node identity only_tag small_states sealed no_floats
        config to_b none nonce 70
        (λ n. n)
        with_c
      ≡ merged last none)
    × HasMerged identity only_tag small_states sealed no_floats config with_c
        (to_merge (with_b.store 0))
        last
unfolding alive_node add_node new_memberlist str_dec ℕ_discrete ip_allowed rand_int_n swap
    local_state states_of
push_pull_with_node-HasMerged_example =
    push_pull_with_node-HasMerged identity only_tag small_states sealed no_floats config true user_b
      none nonce nonce msg_b packed_c to_b 70 (λ n. n) with_c with_b [] [] 0 identity-IsCodec
      only_tag-IsAead small_states-IsStateCodec refl coded_b (omega arith) sends_b refl sends_c
      with_c-IsSound (omega arith, tt) refl (refl, refl, refl)

handle_push_pull-HasMerged_example :
    (last : Memberlist) × (handle_push_pull identity only_tag small_states sealed no_floats config
        128 1 true none nonce
        (0 ∷ 1 ∷ 0 ∷ 2 ∷ 1 ∷ 1 ∷ 7946 ∷ 0 ∷ 128 ∷ 55 ∷ 66 ∷ [])
        70
        (λ n. n)
        with_c
      ≡ (some packed_c, merged last none))
    × HasMerged identity only_tag small_states sealed no_floats config with_c
        (to_merge (with_b.store 0))
        last
unfolding alive_node add_node new_memberlist str_dec ℕ_discrete ip_allowed rand_int_n swap
    local_state states_of
handle_push_pull-HasMerged_example =
    handle_push_pull-HasMerged identity only_tag small_states sealed no_floats config 128 1 true
      true user_b none nonce nonce packed_b msg_b
      (0 ∷ 1 ∷ 0 ∷ 2 ∷ 1 ∷ 1 ∷ 7946 ∷ 0 ∷ 128 ∷ 55 ∷ 66 ∷ []) packed_c 70 (λ n. n) with_c with_b []
      [] 0 identity-IsCodec only_tag-IsAead small_states-IsStateCodec refl coded_b (omega arith)
      sends_b arrives_b (omega arith) sends_c with_c-IsSound (omega arith, tt) refl
      (refl, refl, refl)

-- Every name resolves to the node that knows `b`.
abbrev resolve_one : String → Option Resolved
resolve_one e = some (record { addrs = (10 ∷ []) ∷ []; port = 0 })

abbrev dial_b : Bytes → ℕ → Conn
dial_b a p = to_b

reads_b :
    receive_state identity only_tag small_states sealed packed_b
    ≡ remote_state (to_merge (with_b.store 0) ∷ []) (55 ∷ 66 ∷ [])
unfolding receive_state read_typed read_remote_state read_nodes decode_states read_user
    unpack_stream open_stream decrypt_stream decrypt_tcp decrypt_with_keys try_keys decrypt
    encryption_enabled get_keys others put_uint32 uint32 tcp_aad tcp_header alive_node add_node
    new_memberlist str_dec ℕ_discrete ip_allowed rand_int_n swap
reads_b = refl

join_lem_example :
    (j : Joining) × (join identity only_tag small_states sealed no_floats config none
        (λ n. nonce)
        (λ n. 70)
        (λ k n. n)
        7946
        resolve_one
        dial_b
        ("node" ∷ [])
        with_c
      ≡ some j)
    × IsSound config j.table
    × Grows with_c j.table
    × ((j.num_success ≡ 0) ⊎ (j.errs ≡ 0))
unfolding alive_node add_node new_memberlist str_dec ℕ_discrete ip_allowed rand_int_n swap
join_lem_example =
    join_lem identity only_tag small_states sealed no_floats config none (λ n. nonce) (λ n. 70)
      (λ k n. n) 7946 resolve_one dial_b ("node" ∷ []) with_c (λ a p. rw reads_b (omega arith, tt))
      with_c-IsSound
