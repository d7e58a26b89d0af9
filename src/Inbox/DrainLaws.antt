-- ===== src/Inbox/DrainLaws.antt =====
-- net_handlers.go: what emptying the queues does to the table, whatever bytes the messages hold.
use mlist.Prelude.{
  ℕ, zero, suc, ◌+◌, ◌≡◌, refl, sym, ap, ◌∙◌, List, [], ◌∷◌, ◌++◌, Bool, false, Option, none, some,
  arith, if◌then◌else◌, length, length-append, Option-cases, inl, inr,
}
use mlist.Suspicion.{Floats}
use mlist.Members.Types.{Bytes, Config, Memberlist}
use mlist.Members.Handlers.{ip_allowed}
use mlist.Members.Valid.{IsSound}
use mlist.Maintenance.Run.{
  Input, lives, is_suspected, dies, run, step, AllOrdinary, run_total, run-IsSound_from,
}
use mlist.Inbox.LongRun.{
  LongRunMsg, LongRunMsgManager, MsgType, ping_msg, indirect_ping_msg, ack_msg, indirect_ack_msg,
  alive_msg, suspect_msg, dead_msg, push_pull_msg, compound_msg, user_msg, compress_msg,
  encrypt_msg, has_crc_msg, err_msg, unknown_msg, get_next_msg,
}
use mlist.Inbox.Replies.{MsgCodec}
use mlist.Inbox.Drain.{
  Served, handle_alive, handle_suspect, handle_dead, handle_user, handle_long_run, drain, drain_all,
}

abbrev pub emptied : LongRunMsgManager → LongRunMsgManager
emptied mng = record mng { high_prior_queue = []; low_prior_queue = [] }

module _ {F : Type 0} (fl : Floats F) (c : Config) (msgs : MsgCodec)
    (usr_msg_ch : Option (List Bytes → Bool)) where
  -- What a message is for the table: nothing, if its bytes do not decode.
  abbrev pub input_of : MsgType → LongRunMsg → ℕ → List Input
  input_of alive_msg m rnd =
      if ip_allowed c m.from.ip
      then elim (msgs.get_alive m.msg) [ none ↦ [] | some a ↦ lives a false rnd ∷ [] ]
      else []
  input_of suspect_msg m rnd = elim (msgs.get_suspect m.msg) [
    | none ↦ []
    | some s ↦ is_suspected s ∷ []
  ]
  input_of dead_msg m rnd = elim (msgs.get_dead m.msg) [ none ↦ [] | some d ↦ dies d false ∷ [] ]
  input_of _ m rnd = []

  abbrev pub timed : ℕ → List Input → List (ℕ × Input)
  timed now [] = []
  timed now (i ∷ is) = (now, i) ∷ timed now is

  -- The inputs to the table, in the order of the messages.
  abbrev pub inputs_of : (ℕ → ℕ) → (ℕ → ℕ) → List LongRunMsg → List (ℕ × Input)
  inputs_of clock rnd [] = []
  inputs_of clock rnd (m ∷ ms) =
      timed (clock (suc (length ms))) (input_of m.m_type m (rnd (suc (length ms))))
      ++ inputs_of clock rnd ms

  -- The messages for the user, if a reader takes them.
  abbrev pub users_of : MsgType → LongRunMsg → List Bytes → Option (List Bytes)
  users_of user_msg m users = elim usr_msg_ch [
    | none ↦ some users
    | some takes ↦ if takes users then some (m.msg ∷ users) else none
  ]
  users_of _ m users = some users

  abbrev pub all_users : List LongRunMsg → List Bytes → Option (List Bytes)
  all_users [] users = some users
  all_users (m ∷ ms) users = elim (users_of m.m_type m users) [
    | none ↦ none
    | some users ↦ all_users ms users
  ]

  all_users_step :
      (m : LongRunMsg) (ms : List LongRunMsg) (users : List Bytes) {r : Option (List Bytes)}
      → users_of m.m_type m users ≡ r
      → all_users (m ∷ ms) users ≡ elim r [ none ↦ none | some us ↦ all_users ms us ]
  all_users_step m ms users e =
      ap (λ (r : Option (List Bytes)). elim r [ none ↦ none | some us ↦ all_users ms us ]) e

  run-append :
      (xs ys : List (ℕ × Input)) (m : Memberlist)
      → run fl c (xs ++ ys) m ≡ elim (run fl c xs m) [ none ↦ none | some m' ↦ run fl c ys m' ]
  unfolding run
  run-append [] ys m = refl
  run-append ((now, i) ∷ xs) ys m = elim (Option-cases (step fl c now i m)) [
    | inl bad ↦ rw (bad, run) refl
    | inr (m', done) ↦ rw (done, run) (run-append xs ys m')
  ]

  abbrev pub served_by : Option Memberlist → Option (List Bytes) → Option Served
  served_by none users = none
  served_by (some m) none = none
  served_by (some m) (some users) = some (record { table = m; users = users })

  pub handle_long_run-served :
      (t : MsgType) (m : LongRunMsg) (now rnd : ℕ) (sv : Served)
      → handle_long_run fl c msgs usr_msg_ch t m now rnd sv
        ≡ served_by (run fl c (timed now (input_of t m rnd)) sv.table) (users_of t m sv.users)
  unfolding handle_long_run handle_alive handle_suspect handle_dead handle_user run step
  handle_long_run-served alive_msg m now rnd sv = ground arith
  handle_long_run-served suspect_msg m now rnd sv = ground arith
  handle_long_run-served dead_msg m now rnd sv = ground arith
  handle_long_run-served user_msg m now rnd sv = ground arith
  handle_long_run-served ping_msg m now rnd sv = refl
  handle_long_run-served indirect_ping_msg m now rnd sv = refl
  handle_long_run-served ack_msg m now rnd sv = refl
  handle_long_run-served indirect_ack_msg m now rnd sv = refl
  handle_long_run-served push_pull_msg m now rnd sv = refl
  handle_long_run-served compound_msg m now rnd sv = refl
  handle_long_run-served compress_msg m now rnd sv = refl
  handle_long_run-served encrypt_msg m now rnd sv = refl
  handle_long_run-served has_crc_msg m now rnd sv = refl
  handle_long_run-served err_msg m now rnd sv = refl
  handle_long_run-served (unknown_msg n) m now rnd sv = refl

  abbrev pub drained :
      LongRunMsgManager
      → Option Memberlist
      → Option (List Bytes)
      → Option (LongRunMsgManager × Served)
  drained mng none users = none
  drained mng (some m) none = none
  drained mng (some m) (some users) = some (mng, record { table = m; users = users })

  drained-none : (mng : LongRunMsgManager) (r : Option Memberlist) → drained mng r none ≡ none
  drained-none mng none = refl
  drained-none mng (some m) = refl

  drain-step :
      (clock rnd : ℕ → ℕ) (k : ℕ) (m : LongRunMsg) (mng mng' : LongRunMsgManager) (sv : Served)
      → get_next_msg mng ≡ some (mng', some m)
      → drain fl c msgs usr_msg_ch (suc k) clock rnd mng sv
        ≡ elim (handle_long_run fl c msgs usr_msg_ch m.m_type m (clock k) (rnd k) sv) [
          | none ↦ none
          | some sv' ↦ drain fl c msgs usr_msg_ch k clock rnd mng' sv'
        ]
  unfolding drain
  drain-step clock rnd k m mng mng' sv next = rw (next, drain) refl

  -- One round, in which the message `m` is taken.
  drain-round :
      (clock rnd : ℕ → ℕ) (k : ℕ) (ms : List LongRunMsg) (m : LongRunMsg)
      (mng mng' last : LongRunMsgManager) (sv : Served)
      → get_next_msg mng ≡ some (mng', some m)
      → k ≡ length ms
      → ((sv' : Served)
          → drain fl c msgs usr_msg_ch (suc k) clock rnd mng' sv'
            ≡ drained last (run fl c (inputs_of clock rnd ms) sv'.table) (all_users ms sv'.users))
      → drain fl c msgs usr_msg_ch (suc (suc k)) clock rnd mng sv
        ≡ drained last
            (run fl c (inputs_of clock rnd (m ∷ ms)) sv.table)
            (all_users (m ∷ ms) sv.users)
  drain-round clock rnd k ms m mng mng' last sv next size rest =
      let now = clock (suc k) in
      let own = input_of m.m_type m (rnd (suc k)) in
      rw
        (
          drain-step clock rnd (suc k) m mng mng' sv next,
          handle_long_run-served m.m_type m now (rnd (suc k)) sv,
          sym size,
          run-append (timed now own) (inputs_of clock rnd ms) sv.table,
        )
        (elim (Option-cases (run fl c (timed now own) sv.table)) [
          | inl bad ↦ rw bad refl
          | inr (m', done) ↦ elim (Option-cases (users_of m.m_type m sv.users)) [
            | inl blocked ↦
                rw (done, blocked, all_users_step m ms sv.users blocked)
                  (sym (drained-none last (run fl c (inputs_of clock rnd ms) m')))
            | inr (users, sent) ↦
                rw (done, sent, all_users_step m ms sv.users sent)
                  (rest (record { table = m'; users = users }))
          ]
        ])

  drain-low :
      (clock rnd : ℕ → ℕ) (low : List LongRunMsg) (mng : LongRunMsgManager) (sv : Served)
      → mng.locked ≡ false
      → drain fl c msgs usr_msg_ch
          (suc (length low))
          clock
          rnd
          (record mng { high_prior_queue = []; low_prior_queue = low })
          sv
        ≡ drained
            (emptied mng)
            (run fl c (inputs_of clock rnd low) sv.table)
            (all_users low sv.users)
  unfolding drain get_next_msg
  drain-low clock rnd [] mng sv free = unfold run in ground arith
  drain-low clock rnd (m ∷ ms) mng sv free =
      drain-round clock rnd (length ms) ms m
        (record mng { high_prior_queue = []; low_prior_queue = m ∷ ms })
        (record mng { high_prior_queue = []; low_prior_queue = ms }) (emptied mng) sv (ground arith)
        refl (λ sv'. drain-low clock rnd ms mng sv' free)

  drain-high :
      (clock rnd : ℕ → ℕ) (n : ℕ) (high low : List LongRunMsg) (mng : LongRunMsgManager)
      (sv : Served)
      → mng.locked ≡ false
      → n ≡ length high + length low
      → drain fl c msgs usr_msg_ch
          (suc n)
          clock
          rnd
          (record mng { high_prior_queue = high; low_prior_queue = low })
          sv
        ≡ drained
            (emptied mng)
            (run fl c (inputs_of clock rnd (high ++ low)) sv.table)
            (all_users (high ++ low) sv.users)
  unfolding get_next_msg
  drain-high clock rnd n [] low mng sv free size =
      let all_low : n ≡ length low = omega arith in rw all_low (drain-low clock rnd low mng sv free)
  drain-high clock rnd zero (m ∷ ms) low mng sv free size = absurd (omega arith)
  drain-high clock rnd (suc k) (m ∷ ms) low mng sv free size =
      drain-round clock rnd k (ms ++ low) m
        (record mng { high_prior_queue = m ∷ ms; low_prior_queue = low })
        (record mng { high_prior_queue = ms; low_prior_queue = low }) (emptied mng) sv
        (ground arith) (omega (arith, length-append ms low))
        (λ sv'. drain-high clock rnd k ms low mng sv' free (omega arith))

  -- With its mutex free, the handler of the waiting messages does to the table what its messages do one
  -- by one: the alive messages first, then the others, the newest first in each queue. A message whose
  -- bytes do not decode, or an alive message from an address that is not allowed, does nothing. The
  -- queues are empty in the end, and the messages for the user are sent in the same order. It does
  -- not return in exactly the cases where one of the handlers does not, or a message for the user finds
  -- no reader. No message is queued meanwhile.
  pub drain_all-run :
      (clock rnd : ℕ → ℕ) (mng : LongRunMsgManager) (sv : Served)
      → mng.locked ≡ false
      → drain_all fl c msgs usr_msg_ch clock rnd mng sv
        ≡ drained
            (emptied mng)
            (run fl c (inputs_of clock rnd (mng.high_prior_queue ++ mng.low_prior_queue)) sv.table)
            (all_users (mng.high_prior_queue ++ mng.low_prior_queue) sv.users)
  unfolding drain_all
  drain_all-run clock rnd mng sv free =
      drain-high clock rnd _ mng.high_prior_queue mng.low_prior_queue mng sv free refl

  -- Whatever bytes the waiting messages hold, if the messages for the user are taken and no life number
  -- that they decode to is the largest `uint32` in a suspect or dead message, the handler comes to an
  -- end with empty queues and the table sound.
  pub drain_all-IsSound :
      (clock rnd : ℕ → ℕ) (mng : LongRunMsgManager) (sv : Served)
      → mng.locked ≡ false
      → IsSound c sv.table
      → AllOrdinary (inputs_of clock rnd (mng.high_prior_queue ++ mng.low_prior_queue))
      → {users : List Bytes}
      → all_users (mng.high_prior_queue ++ mng.low_prior_queue) sv.users ≡ some users
      → (last : Served) × (drain_all fl c msgs usr_msg_ch clock rnd mng sv
          ≡ some (emptied mng, last))
        × IsSound c last.table
  drain_all-IsSound clock rnd mng sv free h o {users = users} taken =
      let (m, done) =
        run_total fl c (inputs_of clock rnd (mng.high_prior_queue ++ mng.low_prior_queue)) sv.table
          h o in
      (
        record { table = m; users = users },
        drain_all-run clock rnd mng sv free ∙ rw (done, taken) refl,
        run-IsSound_from fl c (inputs_of clock rnd (mng.high_prior_queue ++ mng.low_prior_queue))
            sv.table h done,
      )
