-- ===== src/Gossip/Parts.antt =====
-- How large the parts of a datagram are: the compound messages, and the messages of the user.
use mlist.Prelude.{
  ℕ, zero, suc, ◌+◌, ◌-◌, ◌*◌, ◌≤◌, ◌≡◌, refl, List, [], ◌∷◌, Option, none, some, arith, ltb,
  length, length-append, take, drop, Bool-cases, inl, inr,
}
use mlist.Members.Types.{Bytes}
use mlist.Broadcast.Picking.{bytes_of, bytes_of-append}
use mlist.Wire.Compound.{write_lengths, write_bodies, pack_compound_msg, split_rounds, pack_all}
use mlist.Wire.RoundTrip.{length-write_lengths}
use mlist.Gossip.Send.{add_user_msgs, user_msgs}

-- What `GetBroadcasts` of the user is to keep to: the limit, with the overhead of each message.
abbrev pub IsWithin : Option (ℕ → ℕ → List Bytes) → Type 0
IsWithin none = Unit
IsWithin (some get) = (overhead limit : ℕ) → bytes_of overhead (get overhead limit) ≤ limit

-- Each of the datagrams has at most so many bytes.
abbrev pub AllWithin : ℕ → List Bytes → Type 0
AllWithin n [] = Unit
AllWithin n (m ∷ ms) = (length m ≤ n) × AllWithin n ms

abbrev pub AllSentWithin : ℕ → List (ℕ × List Bytes) → Type 0
AllSentWithin n [] = Unit
AllSentWithin n ((_, ms) ∷ rest) = AllWithin n ms × AllSentWithin n rest

bytes_of-user_msgs :
    (overhead : ℕ) (ms : List Bytes) → bytes_of overhead (user_msgs ms) ≡ bytes_of (overhead + 1) ms
unfolding user_msgs
bytes_of-user_msgs overhead [] = refl
bytes_of-user_msgs overhead (m ∷ ms) = omega (arith, bytes_of-user_msgs overhead ms)

pub length-pack_compound_msg : (ms : List Bytes) → length (pack_compound_msg ms) ≡ 2 + bytes_of 2 ms
unfolding pack_compound_msg
length-pack_compound_msg ms =
    omega (
      arith,
      length-append (write_lengths ms) (write_bodies ms),
      length-write_lengths ms,
      bodies ms,
    )
  where
    bodies : (ms : List Bytes) → length (write_bodies ms) + 2 * length ms ≡ bytes_of 2 ms
    bodies [] = refl
    bodies (m ∷ ms) = omega (arith, length-append m (write_bodies ms), bodies ms)

bytes_of-take-drop :
    (n : ℕ) (ms : List Bytes)
    → (bytes_of 2 (take n ms) ≤ bytes_of 2 ms) × (bytes_of 2 (drop n ms) ≤ bytes_of 2 ms)
bytes_of-take-drop zero ms = omega arith
bytes_of-take-drop (suc n) [] = omega arith
bytes_of-take-drop (suc n) (m ∷ ms) = omega (arith, bytes_of-take-drop n ms)

pub pack_all-AllWithin :
    (n fuel : ℕ) (ms : List Bytes)
    → 2 + bytes_of 2 ms ≤ n
    → AllWithin n (pack_all (split_rounds fuel ms))
unfolding pack_all split_rounds
pack_all-AllWithin n zero ms h = tt
pack_all-AllWithin n (suc fuel) ms h = elim (Bool-cases (ltb 255 (length ms))) [
  | inl many ↦
      rw (many, split_rounds)
        (
          omega (arith, length-pack_compound_msg (take 255 ms), bytes_of-take-drop 255 ms),
          pack_all-AllWithin n fuel (drop 255 ms) (omega (arith, bytes_of-take-drop 255 ms)),
        )
  | inr few ↦ elim (Bool-cases (ltb 0 (length ms))) [
    | inl any ↦ rw (few, any, split_rounds) (omega (arith, length-pack_compound_msg ms), tt)
    | inr nothing ↦ rw (few, nothing, split_rounds) tt
  ]
]

pub add_user_msgs-fits :
    (ub : Option (ℕ → ℕ → List Bytes)) (overhead limit : ℕ) (msgs : List Bytes)
    → IsWithin ub
    → bytes_of overhead msgs ≤ limit
    → bytes_of overhead (add_user_msgs ub overhead limit msgs) ≤ limit
unfolding add_user_msgs
add_user_msgs-fits none overhead limit msgs h own = own
add_user_msgs-fits (some get) overhead limit msgs h own =
    let theirs = get (overhead + 1) (limit - bytes_of overhead msgs) in
    omega (
      arith,
      bytes_of-append overhead msgs (user_msgs theirs),
      bytes_of-user_msgs overhead theirs,
      h (overhead + 1) (limit - bytes_of overhead msgs),
    )
