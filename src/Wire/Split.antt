-- ===== src/Wire/Split.antt =====
-- util.go: any number of messages survive `splitToCompoundMsgs`, and unpacking never invents bytes.
use mlist.Prelude.{
  ℕ, zero, suc, ◌+◌, ◌*◌, ◌≤◌, ◌≡◌, refl, ap, ◌∙◌, List, [], ◌∷◌, ◌++◌, append_assoc, append-nil,
  arith, ltb, lt→ltb, length, take, drop, length-drop, length-take, take-append-drop, Bool-cases,
  inl, inr,
}
use mlist.Members.Types.{Bytes}
use mlist.Wire.Compound.{
  write_bodies, pack_compound_msg, pack_all, read_lengths, split_msgs, unpack_compound_msg,
  split_rounds, split_to_compound_msgs, parts,
}
use mlist.Wire.RoundTrip.{AllFit, unpack-pack_compound_msg}

split_msgs-count :
    (ns : List ℕ) (bs : Bytes) → length (split_msgs ns bs).1 + (split_msgs ns bs).0 ≡ length ns
unfolding split_msgs
split_msgs-count [] bs = omega arith
split_msgs-count (n ∷ ns) bs = ground (arith, split_msgs-count ns (drop n bs))

split_msgs-prefix :
    (ns : List ℕ) (bs : Bytes) → (rest : Bytes) × (write_bodies (split_msgs ns bs).1 ++ rest ≡ bs)
unfolding split_msgs write_bodies
split_msgs-prefix [] bs = (bs, refl)
split_msgs-prefix (n ∷ ns) bs = elim (Bool-cases (ltb (length bs) n)) [
  | inl short ↦ (bs, rw (short, split_msgs))
  | inr long ↦
      let (rest, e) = split_msgs-prefix ns (drop n bs) in
      (
        rest,
        rw (long, split_msgs)
            (append_assoc (take n bs) (write_bodies (split_msgs ns (drop n bs)).1) rest
              ∙ (ap (◌++◌ (take n bs)) e ∙ take-append-drop n bs)),
      )
]

length-read_lengths : (n : ℕ) (msg : Bytes) → n * 2 ≤ length msg → length (read_lengths n msg) ≡ n
unfolding read_lengths
length-read_lengths zero msg h = refl
length-read_lengths (suc n) [] h = absurd (omega arith)
length-read_lengths (suc n) (a ∷ []) h = absurd (omega arith)
length-read_lengths (suc n) (a ∷ b ∷ msg) h = ap suc (length-read_lengths n msg (omega arith))

-- Whatever bytes arrive: if they unpack, the messages returned and those counted as truncated make
-- up the number of parts announced, and the messages are, in order, the beginning of the bytes behind
-- the table of lengths.
unpack_compound_msg-prefix :
    (num_parts : ℕ) (msg : Bytes) (trunc : ℕ) (msgs : List Bytes)
    → unpack_compound_msg (num_parts ∷ msg) ≡ parts trunc msgs
    → (length msgs + trunc ≡ num_parts)
      × (rest : Bytes) × (write_bodies msgs ++ rest ≡ drop (num_parts * 2) msg)
unfolding unpack_compound_msg
unpack_compound_msg-prefix num_parts msg trunc msgs e =
    let ns = read_lengths num_parts msg in
    let bs = drop (num_parts * 2) msg in
    let (rest, whole) = split_msgs-prefix ns bs in
    (
      ground (arith, split_msgs-count ns bs, length-read_lengths num_parts msg),
      rest,
      ground (arith, whole),
    )

-- The receiver's messages, over all the compound messages that arrive.
pub unpack_all : List Bytes → List Bytes
unpack_all [] = []
unpack_all ([] ∷ cs) = unpack_all cs
unpack_all ((code ∷ body) ∷ cs) =
    elim (unpack_compound_msg body) [ parts _ ms ↦ ms | _ ↦ [] ] ++ unpack_all cs

AllFit-take : (n : ℕ) (ms : List Bytes) → AllFit ms → AllFit (take n ms)
AllFit-take zero ms h = tt
AllFit-take (suc n) [] h = tt
AllFit-take (suc n) (m ∷ ms) h = (h.0, AllFit-take n ms h.1)

AllFit-drop : (n : ℕ) (ms : List Bytes) → AllFit ms → AllFit (drop n ms)
AllFit-drop zero ms h = h
AllFit-drop (suc n) [] h = tt
AllFit-drop (suc n) (m ∷ ms) h = AllFit-drop n ms h.1

unpack_all-cons :
    (ms : List Bytes) (cs : List Bytes)
    → length ms ≤ 255
    → AllFit ms
    → unpack_all (pack_compound_msg ms ∷ cs) ≡ ms ++ unpack_all cs
unfolding unpack_all
unpack_all-cons ms cs le fit =
    let (body, packed, back) = unpack-pack_compound_msg ms le fit in
    rw packed (rw (back, unpack_all))

unpack_all-rounds :
    (fuel : ℕ) (ms : List Bytes)
    → length ms ≤ fuel
    → AllFit ms
    → unpack_all (pack_all (split_rounds fuel ms)) ≡ ms
unfolding split_rounds pack_all unpack_all
unpack_all-rounds zero [] le fit = refl
unpack_all-rounds zero (m ∷ ms) le fit = absurd (omega arith)
unpack_all-rounds (suc fuel) [] le fit = refl
unpack_all-rounds (suc fuel) (m ∷ ms) le fit = elim (Bool-cases (ltb 255 (length (m ∷ ms)))) [
  | inl many ↦
      rw (many, split_rounds, pack_all)
        (unpack_all-cons (take 255 (m ∷ ms)) (pack_all (split_rounds fuel (drop 255 (m ∷ ms))))
            (omega (arith, length-take 255 (m ∷ ms))) (AllFit-take 255 (m ∷ ms) fit)
          ∙ (ap (◌++◌ (take 255 (m ∷ ms))) (
                unpack_all-rounds fuel (drop 255 (m ∷ ms))
                  (ground (arith, length-drop 255 (m ∷ ms))) (AllFit-drop 255 (m ∷ ms) fit))
              ∙ take-append-drop 255 (m ∷ ms)))
  | inr few ↦
      let left = lt→ltb 0 (length (m ∷ ms)) (omega arith) in
      rw (few, left, split_rounds, pack_all)
        (unpack_all-cons (m ∷ ms) [] (ground arith) fit ∙ append-nil (m ∷ ms))
]

-- Any number of messages, each of a length that fits 16 bits, come back whole and in order when the
-- receiver unpacks all the compound messages of `splitToCompoundMsgs`.
pub unpack-split_to_compound_msgs :
    (ms : List Bytes) → AllFit ms → unpack_all (split_to_compound_msgs ms) ≡ ms
unfolding split_to_compound_msgs
unpack-split_to_compound_msgs ms fit = unpack_all-rounds (length ms) ms (omega arith) fit
