-- ===== src/Ping/NackLaws.antt =====
-- ping.go: the nacks of an indirect ping are counted until its ack comes, which is delivered.
use mlist.Prelude.{
  ℕ, ◌+◌, ◌≡◌, List, [], ◌∷◌, true, false, none, some, arith, ℕ_discrete, ite, Option-cases,
  Bool-cases, inl, inr,
}
use mlist.Ping.Manager.{
  IndirectAck, IndirectAckHandler, PingManager, answer_indirect, invoke_indirect_ack_handler,
}

unfoldable pub handle_indirect_acks : List IndirectAck → PingManager → PingManager
handle_indirect_acks [] mng = mng
handle_indirect_acks (a ∷ later) mng =
    handle_indirect_acks later (invoke_indirect_ack_handler a mng)

-- None of the acks is a success for the sequence number.
abbrev pub NoSuccess : ℕ → List IndirectAck → Type 0
NoSuccess n [] = Unit
NoSuccess n (a ∷ later) = (a.seq_no ≡ n → a.success ≡ false) × NoSuccess n later

-- The acks for the sequence number.
abbrev pub acks_for : ℕ → List IndirectAck → ℕ
acks_for n [] = 0
acks_for n (a ∷ later) = ite (ℕ_discrete a.seq_no n) 1 0 + acks_for n later

-- The handler waits under the number, and no other handler counts in its counter.
pub record IsWaiting (n : ℕ) (h : IndirectAckHandler) (mng : PingManager) : Type 0 where
  pub here : mng.indirect_ack_handlers n ≡ some h
  pub alone :
      (k : ℕ) (other : IndirectAckHandler)
      → mng.indirect_ack_handlers k ≡ some other
      → other.n_nacks ≡ h.n_nacks
      → k ≡ n

invoke-IsWaiting :
    (a : IndirectAck) (n : ℕ) (h : IndirectAckHandler) (mng : PingManager)
    → IsWaiting n h mng
    → (a.seq_no ≡ n → a.success ≡ false)
    → IsWaiting n h (invoke_indirect_ack_handler a mng)
      × ((invoke_indirect_ack_handler a mng).nacks h.n_nacks
          ≡ mng.nacks h.n_nacks + ite (ℕ_discrete a.seq_no n) 1 0)
unfolding invoke_indirect_ack_handler answer_indirect
invoke-IsWaiting a n h mng w s = elim (Option-cases (mng.indirect_ack_handlers a.seq_no)) [
  | inl absent ↦ (
    record { here = ground (arith, w.here); alone = λ k other e. w.alone k other (ground arith) },
    ground (arith, w.here),
  )
  | inr (g, known) ↦ elim (Bool-cases a.success) [
    | inl good ↦ (
      record { here = ground (arith, w.here); alone = λ k other e. w.alone k other (ground arith) },
      ground (arith, w.here),
    )
    | inr bad ↦ (
      record { here = ground (arith, w.here); alone = λ k other e. w.alone k other (ground arith) },
      ground (arith, w.here, w.alone a.seq_no g known),
    )
  ]
]

handle_indirect_acks-IsWaiting :
    (acks : List IndirectAck) (n : ℕ) (h : IndirectAckHandler) (mng : PingManager)
    → IsWaiting n h mng
    → NoSuccess n acks
    → IsWaiting n h (handle_indirect_acks acks mng)
      × ((handle_indirect_acks acks mng).nacks h.n_nacks ≡ mng.nacks h.n_nacks + acks_for n acks)
unfolding handle_indirect_acks
handle_indirect_acks-IsWaiting [] n h mng w s = (w, omega arith)
handle_indirect_acks-IsWaiting (a ∷ later) n h mng w s =
    let (w', one) = invoke-IsWaiting a n h mng w s.0 in
    let (w'', rest) =
      handle_indirect_acks-IsWaiting later n h (invoke_indirect_ack_handler a mng) w' s.1 in
    (w'', omega arith)

-- While a handler waits, whose counter no other handler has, and no success comes for it, its counter
-- goes up by one for each ack for it; a success that comes next is delivered on its channel, and takes
-- the handler away.
pub handle_indirect_acks_lem :
    (acks : List IndirectAck) (a : IndirectAck) (h : IndirectAckHandler) (mng : PingManager)
    → IsWaiting a.seq_no h mng
    → NoSuccess a.seq_no acks
    → a.success ≡ true
    → let before = handle_indirect_acks acks mng in
      let after = invoke_indirect_ack_handler a before in
      (before.nacks h.n_nacks ≡ mng.nacks h.n_nacks + acks_for a.seq_no acks)
      × (after.indirect_delivered ≡ h.ack_ch ∷ before.indirect_delivered)
      × (after.indirect_ack_handlers a.seq_no ≡ none)
unfolding invoke_indirect_ack_handler answer_indirect
handle_indirect_acks_lem acks a h mng w s good =
    let (w', counted) = handle_indirect_acks-IsWaiting acks a.seq_no h mng w s in
    (counted, ground (arith, w'.here), ground (arith, w'.here))
