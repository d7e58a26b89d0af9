-- ===== src/Inbox/DispatchLaws.antt =====
-- net_handlers.go: nested compound messages come to an end, and a compound message stands for the
-- messages in it.
use mlist.Prelude.{
  ℕ, zero, suc, ◌*◌, ◌≤◌, ◌≡◌, refl, ap₂, ◌∙◌, List, [], ◌∷◌, ◌++◌, arith, ltb, length, drop,
  length-take, length-drop, Bool-cases, inl, inr,
}
use mlist.Members.Types.{Bytes}
use mlist.Wire.Compound.{pack_compound_msg, unpack_compound_msg, split_msgs, read_lengths}
use mlist.Wire.RoundTrip.{AllFit, unpack-pack_compound_msg}
use mlist.Inbox.LongRun.{is_long_run_msg}
use mlist.Inbox.Dispatch.{
  Call, msg_type, is_compound, handle_each, handle_compound, handle_fueled, handle_udp_msg,
}

abbrev AllShort : ℕ → List Bytes → Type 0
AllShort n [] = Unit
AllShort n (m ∷ ms) = (length m ≤ n) × AllShort n ms

split_msgs-AllShort :
    (n : ℕ) (ns : List ℕ) (bs : Bytes) → length bs ≤ n → AllShort n (split_msgs ns bs).1
unfolding split_msgs
split_msgs-AllShort n [] bs h = tt
split_msgs-AllShort n (k ∷ ns) bs h = elim (Bool-cases (ltb (length bs) k)) [
  | inl short ↦ rw (short, split_msgs) tt
  | inr long ↦
      rw (long, split_msgs)
        (
          omega (arith, length-take k bs),
          split_msgs-AllShort n ns (drop k bs) (omega (arith, length-drop k bs)),
        )
]

handle_each-agree :
    (n : ℕ) (f g : Bytes → List Call)
    → ((m : Bytes) → length m ≤ n → f m ≡ g m)
    → (ms : List Bytes) → AllShort n ms
    → handle_each f ms ≡ handle_each g ms
unfolding handle_each
handle_each-agree n f g same [] h = refl
handle_each-agree n f g same (m ∷ ms) h =
    ap₂ ◌++◌ (same m h.0) (handle_each-agree n f g same ms h.1)

handle_compound-agree :
    (n : ℕ) (f g : Bytes → List Call)
    → ((m : Bytes) → length m ≤ n → f m ≡ g m)
    → (msg : Bytes) → length msg ≤ n
    → handle_compound f msg ≡ handle_compound g msg
unfolding handle_compound unpack_compound_msg
handle_compound-agree n f g same [] h = refl
handle_compound-agree n f g same (k ∷ msg) h = elim (Bool-cases (ltb (length msg) (k * 2))) [
  | inl short ↦ rw (short, handle_compound, unpack_compound_msg) refl
  | inr long ↦
      rw (long, handle_compound, unpack_compound_msg)
        (handle_each-agree n f g same _ (
          split_msgs-AllShort n (read_lengths k msg) (drop (k * 2) msg)
            (omega (arith, length-drop (k * 2) msg))))
]

handle_fueled-agree :
    (f g : ℕ) (msg : Bytes)
    → length msg ≤ f
    → length msg ≤ g
    → handle_fueled f msg ≡ handle_fueled g msg
unfolding handle_fueled
handle_fueled-agree zero zero [] hf hg = refl
handle_fueled-agree zero (suc g) [] hf hg = refl
handle_fueled-agree (suc f) zero [] hf hg = refl
handle_fueled-agree (suc f) (suc g) [] hf hg = refl
handle_fueled-agree zero g (t ∷ msg) hf hg = absurd (omega arith)
handle_fueled-agree (suc f) zero (t ∷ msg) hf hg = absurd (omega arith)
handle_fueled-agree (suc f) (suc g) (t ∷ msg) hf hg =
    let inner =
      handle_compound-agree (length msg) (handle_fueled f) (handle_fueled g)
        (λ m h. handle_fueled-agree f g m (omega arith) (omega arith)) msg (omega arith) in
    elim (Bool-cases (is_long_run_msg (msg_type t))) [
      | inl long ↦ rw (long, handle_fueled) refl
      | inr quick ↦ elim (Bool-cases (is_compound (msg_type t))) [
        | inl nested ↦ rw (quick, nested, handle_fueled) inner
        | inr flat ↦ rw (quick, flat, handle_fueled) refl
      ]
    ]

-- The handling of any datagram comes to an end: fuel for its length is enough, since every message
-- inside a compound message is shorter, and more fuel changes nothing.
handle_udp_msg-terminates :
    (fuel : ℕ) (msg : Bytes) → length msg ≤ fuel → handle_fueled fuel msg ≡ handle_udp_msg msg
unfolding handle_udp_msg
handle_udp_msg-terminates fuel msg h = handle_fueled-agree fuel (length msg) msg h (omega arith)

-- A compound message of at most 255 messages, each of a length that fits 16 bits, is handled as its
-- messages are, one after the other in their order.
pub handle_udp_msg-pack_compound_msg :
    (ms : List Bytes)
    → length ms ≤ 255
    → AllFit ms
    → handle_udp_msg (pack_compound_msg ms) ≡ handle_each handle_udp_msg ms
unfolding handle_udp_msg
handle_udp_msg-pack_compound_msg ms le fit =
    let (body, packed, back) = unpack-pack_compound_msg ms le fit in
    rw packed (
      unfold msg_type in
      (handle_compound-agree (length body) (handle_fueled (length body)) handle_udp_msg
          (λ m h. handle_udp_msg-terminates (length body) m h) body (omega arith)
        ∙ rw (back, handle_compound) refl))
