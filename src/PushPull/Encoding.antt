-- ===== src/PushPull/Encoding.antt =====
-- pushpull.go: `encodePushPullMsg` and `readRemoteState`. Msgpack is the parameter `StateCodec`; a
-- decoder gives the value at the start of its input with what follows it. `make` does not return for a
-- negative length, or for one above what the machine can allocate, which are fields of `StateCodec`.
use mlist.Prelude.{
  ℕ, zero, suc, List, [], ◌∷◌, ◌++◌, Option, none, some, ltb, length, take, if◌then◌else◌,
}
use mlist.Prelude.Int.{ℤ, pos, negsuc}
use mlist.Members.Types.{Bytes}
use mlist.PushPull.Merge.{StateToMerge}

pub record PushPullHeader : Type 0 where
  pub nodes : ℤ
  pub user_state_len : ℤ

pub record StateCodec : Type 0 where
  pub put_header : PushPullHeader → Option Bytes
  pub get_header : Bytes → Option (PushPullHeader × Bytes)
  pub put_state : StateToMerge → Option Bytes
  pub get_state : Bytes → Option (StateToMerge × Bytes)
  pub max_states : ℕ
  pub max_user : ℕ

abbrev pub push_pull_code : ℕ
push_pull_code = 7

abbrev pub header_of : List StateToMerge → Bytes → PushPullHeader
header_of states user = record { nodes = pos (length states); user_state_len = pos (length user) }

pub data Remote : Type 0 where
  remote_state : List StateToMerge → Bytes → Remote
  remote_bad remote_panics : Remote

module _ (codec : StateCodec) where
  open codec use {put_header, get_header, put_state, get_state, max_states, max_user}

  -- The loop over the nodes, with what was written before.
  unfoldable pub encode_states : List StateToMerge → Bytes → Option Bytes
  encode_states [] buf = some buf
  encode_states (r ∷ rs) buf = elim (put_state r) [
    | none ↦ none
    | some b ↦ encode_states rs (buf ++ b)
  ]

  unfoldable pub encode_push_pull_msg : List StateToMerge → Bytes → Option Bytes
  unfolding encode_states
  encode_push_pull_msg local_nodes usr_state = elim (put_header (header_of local_nodes usr_state)) [
    | none ↦ none
    | some b ↦ elim (encode_states local_nodes (push_pull_code ∷ b)) [
      | none ↦ none
      | some buf ↦ some (buf ++ usr_state)
    ]
  ]

  -- The states, with what follows them.
  unfoldable pub decode_states : ℕ → Bytes → Option (List StateToMerge × Bytes)
  decode_states zero bs = some ([], bs)
  decode_states (suc n) bs = elim (get_state bs) [
    | none ↦ none
    | some (r, bs) ↦ elim (decode_states n bs) [ none ↦ none | some (rs, bs) ↦ some (r ∷ rs, bs) ]
  ]

  -- `io.ReadFull` of the user state.
  unfoldable pub read_user : ℤ → List StateToMerge → Bytes → Remote
  read_user (pos n) rs bs =
      if ltb max_user n
      then remote_panics
      else if ltb (length bs) n
      then remote_bad
      else remote_state rs (take n bs)
  read_user (negsuc n) rs bs = remote_panics

  unfoldable pub read_nodes : ℤ → ℤ → Bytes → Remote
  unfolding decode_states read_user
  read_nodes (negsuc n) len bs = remote_panics
  read_nodes (pos n) len bs =
      if ltb max_states n
      then remote_panics
      else elim (decode_states n bs) [ none ↦ remote_bad | some (rs, bs) ↦ read_user len rs bs ]

  unfoldable pub read_remote_state : Bytes → Remote
  unfolding read_nodes
  read_remote_state bs = elim (get_header bs) [
    | none ↦ remote_bad
    | some (h, bs) ↦ read_nodes h.nodes h.user_state_len bs
  ]
