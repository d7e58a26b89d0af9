-- ===== src/PushPull/EncodingLaws.antt =====
-- pushpull.go: a table that was encoded is read back, and what makes the reader panic.
use mlist.Prelude.{
  ℕ, ◌≤◌, ◌<◌, ◌≡◌, ◌↔◌, ◌⊎◌, ltb, Bool-cases, refl, ◌∙◌, List, [], ◌∷◌, ◌++◌, append_assoc,
  append-nil, some, arith, length, length-append, Option-cases, inl, inr,
}
use mlist.Prelude.Int.{ℤ, pos, negsuc}
use mlist.Members.Types.{Bytes}
use mlist.Wire.RoundTrip.{take-append}
use mlist.PushPull.Merge.{StateToMerge}
use mlist.PushPull.Encoding.{
  PushPullHeader, StateCodec, push_pull_code, header_of, remote_state, remote_panics, encode_states,
  encode_push_pull_msg, decode_states, read_user, read_nodes, read_remote_state,
}

-- The documented behaviour of msgpack: a decoder reads back the value that was encoded, and leaves
-- what follows it. A header is written for slices that the sender holds, which a machine of the same
-- kind can allocate.
pub record IsStateCodec (codec : StateCodec) : Type 0 where
  pub get-put_header :
      (h : PushPullHeader) (b rest : Bytes)
      → codec.put_header h ≡ some b
      → codec.get_header (b ++ rest) ≡ some (h, rest)
  pub get-put_state :
      (r : StateToMerge) (b rest : Bytes)
      → codec.put_state r ≡ some b
      → codec.get_state (b ++ rest) ≡ some (r, rest)
  pub held :
      (rs : List StateToMerge) (user b : Bytes)
      → codec.put_header (header_of rs user) ≡ some b
      → (length rs ≤ codec.max_states) × (length user ≤ codec.max_user)

module _ (codec : StateCodec) where
  decode-encode_states :
      (laws : IsStateCodec codec) (rs : List StateToMerge) (buf out : Bytes)
      → encode_states codec rs buf ≡ some out
      → (b : Bytes) × (out ≡ buf ++ b)
        × ((rest : Bytes) → decode_states codec (length rs) (b ++ rest) ≡ some (rs, rest))
  unfolding encode_states decode_states
  decode-encode_states laws [] buf out e = ([], ground (arith, append-nil buf), λ rest. refl)
  decode-encode_states laws (r ∷ rs) buf out e = elim (Option-cases (codec.put_state r)) [
    | inl bad ↦ absurd (ground arith)
    | inr (b, put) ↦
        let (b', shape, back) = decode-encode_states laws rs (buf ++ b) out (ground arith) in
        (
          b ++ b',
          shape ∙ append_assoc buf b b',
          λ rest.
              ground
                (arith, append_assoc b b' rest, laws.get-put_state r b (b' ++ rest) put, back rest),
        )
  ]

  -- Whatever follows on the connection, the states and the user state that were encoded, behind the
  -- type byte, are what the reader gives.
  pub read_remote_state-encode_push_pull_msg :
      (rs : List StateToMerge) (user msg : Bytes)
      → IsStateCodec codec
      → encode_push_pull_msg codec rs user ≡ some msg
      → (body : Bytes) × (msg ≡ push_pull_code ∷ body)
        × ((rest : Bytes) → read_remote_state codec (body ++ rest) ≡ remote_state rs user)
  unfolding encode_push_pull_msg read_remote_state read_nodes read_user
  read_remote_state-encode_push_pull_msg rs user msg laws e =
      elim (Option-cases (codec.put_header (header_of rs user))) [
        | inl bad ↦ absurd (ground arith)
        | inr (b, put) ↦ elim (Option-cases (encode_states codec rs (push_pull_code ∷ b))) [
          | inl bad ↦ absurd (ground arith)
          | inr (buf, done) ↦
              let (b', shape, back) = decode-encode_states laws rs (push_pull_code ∷ b) buf done in
              (
                b ++ (b' ++ user),
                ground (arith, append_assoc b b' user),
                λ rest. ground (
                  arith,
                  append_assoc b (b' ++ user) rest,
                  append_assoc b' user rest,
                  laws.get-put_header (header_of rs user) b (b' ++ (user ++ rest)) put,
                  laws.held rs user b put,
                  back (user ++ rest),
                  take-append user rest,
                  length-append user rest,
                ),
              )
        ]
      ]

  -- A length that `make` does not return for.
  abbrev pub IsRefused : ℕ → ℤ → Type 0
  IsRefused most (pos n) = most < n
  IsRefused most (negsuc n) = Unit

  -- The number of nodes is refused, or it is not, their states decode and the length of the user state
  -- is refused.
  abbrev pub HasRefused : ℤ → ℤ → Bytes → Type 0
  HasRefused (negsuc n) len bs = Unit
  HasRefused (pos n) len bs =
      (codec.max_states < n)
      ⊎ ((n ≤ codec.max_states)
          × ((r : List StateToMerge × Bytes) × (decode_states codec n bs ≡ some r))
          × IsRefused codec.max_user len)

  read_user-IsRefused :
      (len : ℤ) (rs : List StateToMerge) (bs : Bytes)
      → (read_user codec len rs bs ≡ remote_panics) ↔ IsRefused codec.max_user len
  unfolding read_user
  read_user-IsRefused (pos n) rs bs = (λ e. ground arith, λ h. ground arith)
  read_user-IsRefused (negsuc n) rs bs = (λ e. tt, λ h. refl)

  read_nodes-HasRefused :
      (n len : ℤ) (bs : Bytes) → (read_nodes codec n len bs ≡ remote_panics) ↔ HasRefused n len bs
  unfolding read_nodes
  read_nodes-HasRefused (negsuc n) len bs = (λ e. tt, λ h. refl)
  read_nodes-HasRefused (pos n) len bs = elim (Bool-cases (ltb codec.max_states n)) [
    | inl above ↦ (λ e. inl (ground arith), λ h. ground arith)
    | inr within ↦ elim (Option-cases (decode_states codec n bs)) [
      | inl bad ↦ (
        λ e. absurd (ground arith),
        λ h. absurd (elim h [
          | inl above ↦ ground arith
          | inr (fits, some_states, r) ↦ ground (arith, some_states.1)
        ]),
      )
      | inr ((rs, rest), got) ↦
          let back = read_user-IsRefused len rs rest in
          (
            λ e. inr (ground arith, ((rs, rest), got), back.0 (ground arith)),
            λ h. elim h [
              | inl above ↦ absurd (ground arith)
              | inr (fits, some_states, r) ↦ rw (within, got, read_nodes) (back.1 r)
            ],
          )
    ]
  ]

  -- The reader does not return from `make`, by a panic or for want of memory, on exactly the input whose
  -- header decodes and has a number of nodes that is negative or above what the machine can allocate,
  -- or has an allowed number of nodes whose states all decode and a length of the user state that is
  -- negative or above what it can allocate.
  pub read_remote_state-eq-panics_iff :
      (bs : Bytes)
      → (read_remote_state codec bs ≡ remote_panics) ↔ (
          (h : PushPullHeader) × (rest : Bytes) × (codec.get_header bs ≡ some (h, rest))
          × HasRefused h.nodes h.user_state_len rest)
  unfolding read_remote_state
  read_remote_state-eq-panics_iff bs = (
    λ e. elim (Option-cases (codec.get_header bs)) [
      | inl bad ↦ absurd (ground arith)
      | inr ((h, rest), got) ↦
          (h, rest, got, (read_nodes-HasRefused h.nodes h.user_state_len rest).0 (ground arith))
    ],
    λ w.
        rw (w.2, read_remote_state)
          ((read_nodes-HasRefused w.0.nodes w.0.user_state_len w.1).1 w.3),
  )
