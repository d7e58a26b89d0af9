-- ===== src/Wire/RoundTrip.antt =====
-- util.go: unpacking a compound message gives the messages that were packed.
use mlist.Prelude.{
  ℕ, ◌*◌, ◌%◌, ◌≤◌, ◌<◌, ◌≡◌, refl, ap, sym, ◌∙◌, List, [], ◌∷◌, ◌++◌, arith, length, take, drop,
  length-append,
}
use mlist.Members.Types.{Bytes}
use mlist.Wire.Compound.{
  write_lengths, write_bodies, pack_compound_msg, read_lengths, split_msgs, unpack_compound_msg,
  parts, compound_code,
}

-- Every message fits the 16 bits of its length.
abbrev pub AllFit : List Bytes → Type 0
AllFit [] = Unit
AllFit (m ∷ ms) = (length m < 65536) × AllFit ms

abbrev lengths : List Bytes → List ℕ
lengths [] = []
lengths (m ∷ ms) = length m ∷ lengths ms

pub length-write_lengths : (ms : List Bytes) → length (write_lengths ms) ≡ length ms * 2
unfolding write_lengths
length-write_lengths [] = omega arith
length-write_lengths (m ∷ ms) = omega (arith, length-write_lengths ms)

read-write_lengths :
    (ms : List Bytes) (rest : Bytes)
    → AllFit ms
    → read_lengths (length ms) (write_lengths ms ++ rest) ≡ lengths ms
unfolding write_lengths read_lengths
read-write_lengths [] rest h = refl
read-write_lengths (m ∷ ms) rest h = ground (arith, read-write_lengths ms rest h.1)

pub drop-append {ℓ} : {A : Type ℓ} (xs ys : List A) → drop (length xs) (xs ++ ys) ≡ ys
drop-append [] ys = refl
drop-append (x ∷ xs) ys = drop-append xs ys

pub take-append {ℓ} : {A : Type ℓ} (xs ys : List A) → take (length xs) (xs ++ ys) ≡ xs
take-append [] ys = refl
take-append (x ∷ xs) ys = ap (◌∷◌ x) (take-append xs ys)

split-write_bodies : (ms : List Bytes) → split_msgs (lengths ms) (write_bodies ms) ≡ (0, ms)
unfolding split_msgs write_bodies
split-write_bodies [] = refl
split-write_bodies (m ∷ ms) = ground (
  arith,
  drop-append m (write_bodies ms),
  take-append m (write_bodies ms),
  length-append m (write_bodies ms),
  split-write_bodies ms,
)

drop-lengths :
    (ms : List Bytes) → drop (length ms * 2) (write_lengths ms ++ write_bodies ms) ≡ write_bodies ms
drop-lengths ms =
    ap (λ n. drop n (write_lengths ms ++ write_bodies ms)) (sym (length-write_lengths ms))
    ∙ drop-append (write_lengths ms) (write_bodies ms)

-- At most 255 messages, each of a length that fits 16 bits, come back whole and in order from the
-- compound message that `packCompoundMsg` makes of them, behind its type byte.
pub unpack-pack_compound_msg :
    (ms : List Bytes)
    → length ms ≤ 255
    → AllFit ms
    → (body : Bytes) × (pack_compound_msg ms ≡ compound_code ∷ body)
      × (unpack_compound_msg body ≡ parts 0 ms)
unfolding pack_compound_msg unpack_compound_msg
unpack-pack_compound_msg ms le fit =
    let few : length ms % 256 ≡ length ms = omega arith in
    (
      _,
      refl,
      rw few (
          ground (
            arith,
            read-write_lengths ms (write_bodies ms) fit,
            drop-lengths ms,
            split-write_bodies ms,
            length-append (write_lengths ms) (write_bodies ms),
            length-write_lengths ms,
          )),
    )
