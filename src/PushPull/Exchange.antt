-- ===== src/PushPull/Exchange.antt =====
-- pushpull.go: `sendLocalState`, `sendAndReceiveState`, `pushPullWithNode` and `pushPull`;
-- net_handlers.go: `handlePushPull`; net_transport.go: `sendTcp`. A connection is what it does: whether
-- it is made, whether a write succeeds, and the bytes that arrive. An error leaves the table as it is.
use mlist.Prelude.{ℕ, [], ◌∷◌, Bool, not, ◌&&◌, Option, none, some, leb, ◌==◌, if◌then◌else◌}
use mlist.Prelude.Maps.{same}
use mlist.Suspicion.{Floats}
use mlist.Members.Types.{Bytes, is_alive, Config, Memberlist}
use mlist.Maintenance.Choose.{pick_random_nodes}
use mlist.Wire.Encrypt.{Aead}
use mlist.Wire.Packet.{Codec, Settings, received, refused, panics}
use mlist.Wire.Stream.{pack_tcp, unpack_stream}
use mlist.PushPull.Merge.{local_state, merge_state}
use mlist.PushPull.Encoding.{
  StateCodec, push_pull_code, Remote, remote_state, remote_bad, remote_panics, encode_push_pull_msg,
  read_remote_state,
}

pub record Conn : Type 0 where
  pub dialled : Bool
  pub writes : Bool
  pub arrives : Bytes

-- `merged` holds what the user's `Merge` was given, if there is one. A merge that never returns is
-- `stuck`.
pub data Sync : Type 0 where
  merged : Memberlist → Option Bytes → Sync
  failed crashed stuck : Sync

-- `var usrState []byte`, and the user's `LocalState`.
abbrev pub user_bytes : Option Bytes → Bytes
user_bytes none = []
user_bytes (some b) = b

-- The choice of `pushPull`.
unfoldable pub accepts_push_pull : Config → Memberlist → ℕ → Bool
accepts_push_pull c m p = not (same (m.store p).node.id c.local_id) && is_alive (m.store p).state

module _ (codec : Codec) (aead : Aead) (states : StateCodec) (s : Settings) where
  -- The bytes written, if there is no error.
  unfoldable pub send_tcp : Bool → Bytes → Bytes → Option Bytes
  send_tcp writes nonce msg = elim (pack_tcp codec aead s nonce msg s.label) [
    | none ↦ none
    | some packed ↦ if writes then some packed else none
  ]

  -- `usr` is what the user's `LocalState` gives, if there is one.
  unfoldable pub send_local_state : Bool → Option Bytes → Bytes → Memberlist → Option Bytes
  unfolding send_tcp
  send_local_state writes usr nonce m =
      elim (encode_push_pull_msg states (local_state m) (user_bytes usr)) [
        | none ↦ none
        | some msg ↦ send_tcp writes nonce msg
      ]

  -- An error message of the remote is an error, as is any other type.
  unfoldable pub read_typed : Bytes → Remote
  read_typed [] = remote_panics
  read_typed (t ∷ msg) = if t == push_pull_code then read_remote_state states msg else remote_bad

  -- The second half of `sendAndReceiveState`, from `unpackStream` on.
  unfoldable pub receive_state : Bytes → Remote
  unfolding read_typed
  receive_state stream = elim (unpack_stream codec aead s stream s.label) [
    | received msg ↦ read_typed msg
    | refused ↦ remote_bad
    | panics ↦ remote_panics
  ]

  unfoldable pub send_and_receive_state : Conn → Option Bytes → Bytes → Memberlist → Remote
  unfolding send_local_state receive_state
  send_and_receive_state conn usr nonce m =
      if conn.dialled
      then elim (send_local_state conn.writes usr nonce m) [
        | none ↦ remote_bad
        | some _ ↦ receive_state conn.arrives
      ]
      else remote_bad

  module _ {F : Type 0} (fl : Floats F) (c : Config) where
    unfoldable pub merge_remote : Option Bytes → Remote → ℕ → (ℕ → ℕ) → Memberlist → Sync
    merge_remote usr remote_bad now rnd m = failed
    merge_remote usr remote_panics now rnd m = crashed
    merge_remote usr (remote_state rs user) now rnd m = elim (merge_state fl c rs now rnd m) [
      | none ↦ stuck
      | some m' ↦ merged m' (elim usr [ none ↦ none | some _ ↦ some user ])
    ]

    unfoldable pub push_pull_with_node :
        Conn → Option Bytes → Bytes → ℕ → (ℕ → ℕ) → Memberlist → Sync
    unfolding send_and_receive_state merge_remote
    push_pull_with_node conn usr nonce now rnd m =
        merge_remote usr (send_and_receive_state conn usr nonce m) now rnd m

    -- `dial` gives the connection to a node. With no node to choose nothing is done.
    unfoldable pub push_pull :
        (ℕ → Conn) → (ℕ → ℕ) → Option Bytes → Bytes → ℕ → (ℕ → ℕ) → Memberlist → Option Sync
    unfolding push_pull_with_node accepts_push_pull
    push_pull dial draw usr nonce now rnd m =
        elim (pick_random_nodes m (accepts_push_pull c m) draw 1) [
          | [] ↦ none
          | p ∷ ps ↦ some (push_pull_with_node (dial p) usr nonce now rnd m)
        ]

    -- `n_pp` is the counter of pending exchanges, this one included. The result is the reply written and
    -- what becomes of the table.
    unfoldable pub handle_push_pull :
        ℕ → ℕ → Bool → Option Bytes → Bytes → Bytes → ℕ → (ℕ → ℕ) → Memberlist → Option Bytes × Sync
    unfolding send_local_state merge_remote
    handle_push_pull max_push_pulls n_pp writes usr nonce msg now rnd m =
        if leb max_push_pulls n_pp then (none, failed) else elim (read_remote_state states msg) [
          | remote_bad ↦ (none, failed)
          | remote_panics ↦ (none, crashed)
          | remote_state rs user ↦ elim (send_local_state writes usr nonce m) [
            | none ↦ (none, failed)
            | some reply ↦ (some reply, merge_remote usr (remote_state rs user) now rnd m)
          ]
        ]
