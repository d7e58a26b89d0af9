-- ===== src/Ping/ManagerLaws.antt =====
-- ping.go: an ack is delivered at most once, and nacks are counted.
use mlist.Prelude.{
  ℕ, ◌+◌, ◌≤◌, ◌≡◌, ◌≢◌, refl, List, [], ◌∷◌, some, arith, ℕ_discrete, ite, Option-cases, inl, inr,
}
use mlist.Members.Types.{Bytes}
use mlist.Ping.Manager.{Ack, PingManager, set_ack_handler, ack_timeout, invoke_ack_handler}

-- What happens to the table of ack handlers while a ping waits, its own handler being set before.
pub data AckEvent : Type 0 where
  acked : Ack → AckEvent
  timed_out : ℕ → AckEvent
  is_set : ℕ → ℕ → AckEvent

unfoldable pub handle_acks : List AckEvent → PingManager → PingManager
handle_acks [] mng = mng
handle_acks (acked a ∷ es) mng = handle_acks es (invoke_ack_handler a mng)
handle_acks (timed_out seq_no ∷ es) mng = handle_acks es (ack_timeout seq_no mng)
handle_acks (is_set seq_no ch ∷ es) mng = handle_acks es (set_ack_handler seq_no ch mng)

-- No handler is set for the channel.
abbrev pub NotSetOn : ℕ → List AckEvent → Type 0
NotSetOn ch [] = Unit
NotSetOn ch (is_set _ other ∷ es) = (other ≢ ch) × NotSetOn ch es
NotSetOn ch (acked _ ∷ es) = NotSetOn ch es
NotSetOn ch (timed_out _ ∷ es) = NotSetOn ch es

-- The number of sends on a channel.
abbrev pub sent_on : ℕ → List (ℕ × Bytes) → ℕ
sent_on ch [] = 0
sent_on ch ((other, _) ∷ ds) = ite (ℕ_discrete ch other) 1 0 + sent_on ch ds

-- Handlers of a channel, if there is one, wait for one sequence number.
abbrev pub WaitsOnlyFor : ℕ → ℕ → PingManager → Type 0
WaitsOnlyFor ch seq_no mng = (n : ℕ) → mng.ack_handlers n ≡ some ch → n ≡ seq_no

-- No handler of the channel.
abbrev Forgotten : ℕ → PingManager → Type 0
Forgotten ch mng = (n : ℕ) → mng.ack_handlers n ≢ some ch

handle_acks-Forgotten :
    (es : List AckEvent) (ch : ℕ) (mng : PingManager)
    → Forgotten ch mng
    → NotSetOn ch es
    → sent_on ch (handle_acks es mng).delivered ≡ sent_on ch mng.delivered
unfolding handle_acks invoke_ack_handler ack_timeout set_ack_handler
handle_acks-Forgotten [] ch mng h s = refl
handle_acks-Forgotten (acked a ∷ es) ch mng h s = elim (Option-cases (mng.ack_handlers a.seq_no)) [
  | inl absent ↦
      ground (
        arith,
        handle_acks-Forgotten es ch (invoke_ack_handler a mng) (λ n e. ground (arith, h n)) s,
      )
  | inr (other, here) ↦ ground (
    arith,
    h a.seq_no,
    handle_acks-Forgotten es ch (invoke_ack_handler a mng) (λ n e. ground (arith, h n)) s,
  )
]
handle_acks-Forgotten (timed_out seq_no ∷ es) ch mng h s =
    handle_acks-Forgotten es ch (ack_timeout seq_no mng) (λ n e. ground (arith, h n)) s
handle_acks-Forgotten (is_set seq_no other ∷ es) ch mng h s =
    handle_acks-Forgotten es ch (set_ack_handler seq_no other mng) (λ n e. ground (arith, h n, s.0))
      s.1

-- Whatever acks arrive, timers run and handlers are set for other channels: on a channel whose handlers
-- all wait for one sequence number, at most one ack is delivered from then on.
pub handle_acks-at_most_once :
    (es : List AckEvent) (ch seq_no : ℕ) (mng : PingManager)
    → WaitsOnlyFor ch seq_no mng
    → NotSetOn ch es
    → sent_on ch (handle_acks es mng).delivered ≤ sent_on ch mng.delivered + 1
unfolding handle_acks invoke_ack_handler ack_timeout set_ack_handler
handle_acks-at_most_once [] ch seq_no mng h s = omega arith
handle_acks-at_most_once (acked a ∷ es) ch seq_no mng h s =
    elim (Option-cases (mng.ack_handlers a.seq_no)) [
      | inl absent ↦ ground (
        arith,
        handle_acks-at_most_once es ch seq_no (invoke_ack_handler a mng)
            (λ n e. ground (arith, h n)) s,
      )
      | inr (other, here) ↦ elim (ℕ_discrete ch other) [
        | no far ↦ ground (
          arith,
          handle_acks-at_most_once es ch seq_no (invoke_ack_handler a mng)
              (λ n e. ground (arith, h n)) s,
        )
        | yes mine ↦ ground (
          arith,
          handle_acks-Forgotten es ch (invoke_ack_handler a mng)
              (λ n e. ground (arith, h n, h a.seq_no)) s,
        )
      ]
    ]
handle_acks-at_most_once (timed_out n ∷ es) ch seq_no mng h s =
    handle_acks-at_most_once es ch seq_no (ack_timeout n mng) (λ k e. ground (arith, h k)) s
handle_acks-at_most_once (is_set n other ∷ es) ch seq_no mng h s =
    handle_acks-at_most_once es ch seq_no (set_ack_handler n other mng)
      (λ k e. ground (arith, h k, s.0)) s.1
