-- ===== src/Wire/Compound.antt =====
-- util.go: compound messages. A byte is a number; the writers reduce modulo 256 and 65536 as the
-- conversions `uint8(len(msgs))` and `uint16(len(m))` do.
use mlist.Prelude.{
  ℕ, zero, suc, ◌+◌, ◌*◌, ◌/◌, ◌%◌, List, [], ◌∷◌, ◌++◌, ltb, if◌then◌else◌, length, take, drop,
}
use mlist.Members.Types.{Bytes}

abbrev pub compound_code : ℕ
compound_code = 8

-- `binary.Write(buf, binary.BigEndian, uint16(len(m)))` for each message.
unfoldable pub write_lengths : List Bytes → Bytes
write_lengths [] = []
write_lengths (m ∷ ms) = (length m % 65536 / 256) ∷ (length m % 65536 % 256) ∷ write_lengths ms

unfoldable pub write_bodies : List Bytes → Bytes
write_bodies [] = []
write_bodies (m ∷ ms) = m ++ write_bodies ms

unfoldable pub pack_compound_msg : List Bytes → Bytes
unfolding write_lengths write_bodies
pack_compound_msg msgs =
    compound_code ∷ (length msgs % 256) ∷ (write_lengths msgs ++ write_bodies msgs)

-- The loop of `splitToCompoundMsgs`: at most 255 messages to a compound. Each round takes 255
-- messages, so the number of messages is fuel enough.
unfoldable pub split_rounds : ℕ → List Bytes → List (List Bytes)
split_rounds zero msgs = []
split_rounds (suc fuel) msgs =
    let rest = split_rounds fuel (drop 255 msgs) in
    if ltb 255 (length msgs)
    then take 255 msgs ∷ rest
    else if ltb 0 (length msgs)
    then msgs ∷ []
    else []

unfoldable pub pack_all : List (List Bytes) → List Bytes
pack_all [] = []
pack_all (c ∷ cs) = pack_compound_msg c ∷ pack_all cs

unfoldable pub split_to_compound_msgs : List Bytes → List Bytes
unfolding split_rounds pack_all
split_to_compound_msgs msgs = pack_all (split_rounds (length msgs) msgs)

-- `trunc, msgs` or one of the two errors.
pub data Unpacked : Type 0 where
  missing_length truncated_lengths : Unpacked
  parts : ℕ → List Bytes → Unpacked

-- `binary.BigEndian.Uint16(msg[i*2 : i*2+2])` for each part.
unfoldable pub read_lengths : ℕ → Bytes → List ℕ
read_lengths (suc n) (high ∷ low ∷ msg) = (high * 256 + low) ∷ read_lengths n msg
read_lengths _ _ = []

unfoldable pub split_msgs : List ℕ → Bytes → ℕ × List Bytes
split_msgs [] msg = (0, [])
split_msgs (n ∷ ns) msg =
    let (trunc, msgs) = split_msgs ns (drop n msg) in
    if ltb (length msg) n then (suc (length ns), []) else (trunc, take n msg ∷ msgs)

unfoldable pub unpack_compound_msg : Bytes → Unpacked
unfolding read_lengths split_msgs
unpack_compound_msg [] = missing_length
unpack_compound_msg (num_parts ∷ msg) =
    let (trunc, msgs) = split_msgs (read_lengths num_parts msg) (drop (num_parts * 2) msg) in
    if ltb (length msg) (num_parts * 2) then truncated_lengths else parts trunc msgs
