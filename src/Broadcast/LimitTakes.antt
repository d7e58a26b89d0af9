-- ===== src/Broadcast/LimitTakes.antt =====
-- broadcast.go: `GetMessages` and `Resize` keep the number of transmissions in its bound.
use mlist.Prelude.{
  ℕ, zero, suc, ◌+◌, ◌≤◌, ◌≡◌, List, [], ◌∷◌, false, ◌||◌, arith, ◌==◌, ltb, leb, length,
  Bool-cases, Option-cases, inl, inr,
}
use mlist.Broadcast.Queue.{
  TransmitCapItem, HeapOps, TransmitCapQueue, Pick, len, finish, bump, reset, start_pick, pop, pick,
  push_all, send_all, get_messages, shrink_to, transmit_limit,
}
use mlist.Broadcast.Named.{IsHeap}
use mlist.Broadcast.Limits.{
  over, IsLimited, push-IsLimited, pop-IsLimited, finish-IsLimited, not-beyond, bump-not-beyond,
}

module _ {H : Type 0} (ops : HeapOps H) (heap : IsHeap ops) (scale limit : ℕ) where
  abbrev AllUnder : List TransmitCapItem → Type 0
  AllUnder [] = Unit
  AllUnder (i ∷ is) = (over limit i ≡ false) × AllUnder is

  record PickIsLimited (p : Pick H) : Type 0 where
    rest : IsLimited ops heap scale limit p.rest
    picked : AllUnder p.picked
    not_picked : AllUnder p.not_picked

  pick-IsLimited :
      (fuel overhead size : ℕ) (p : Pick H)
      → PickIsLimited p
      → PickIsLimited (pick ops fuel overhead size p)
  unfolding pick
  pick-IsLimited zero overhead size p h = h
  pick-IsLimited (suc fuel) overhead size p h =
      elim (Bool-cases (ltb size (p.bytes_used + 20 + overhead))) [
        | inl full ↦ rw (full, pick) h
        | inr room ↦ elim (Option-cases (pop ops p.rest)) [
          | inl nothing ↦ rw (room, nothing, pick) h
          | inr ((item, rest), taken) ↦
              let (left, under) =
                pop-IsLimited ops heap scale limit p.rest rest item taken h.rest in
              elim (Bool-cases (ltb size (p.bytes_used + length item.msg + overhead))) [
                | inl large ↦
                    rw (room, taken, pick)
                      (rw large (
                        pick-IsLimited fuel overhead size _ (record {
                          rest = left;
                          picked = h.picked;
                          not_picked = (under, h.not_picked);
                        })))
                | inr fits ↦
                    rw (room, taken, pick)
                      (rw fits (
                        pick-IsLimited fuel overhead size _ (record {
                          rest = left;
                          picked = (under, h.picked);
                          not_picked = h.not_picked;
                        })))
              ]
        ]
      ]

  push_all-IsLimited :
      (is : List TransmitCapItem) (q : TransmitCapQueue H)
      → AllUnder is
      → IsLimited ops heap scale limit q
      → IsLimited ops heap scale limit (push_all ops is q)
  unfolding push_all
  push_all-IsLimited [] q all h = h
  push_all-IsLimited (i ∷ is) q all h =
      push-IsLimited ops heap scale limit (push_all ops is q) i all.0
        (push_all-IsLimited is q all.1 h)

  -- `now` is the limit of this call.
  send_all-IsLimited :
      (now : ℕ) (is : List TransmitCapItem) (q : TransmitCapQueue H)
      → now ≤ limit
      → AllUnder is
      → IsLimited ops heap scale limit q
      → IsLimited ops heap scale limit (send_all ops now is q).0
  unfolding send_all
  send_all-IsLimited now [] q le all h = h
  send_all-IsLimited now (i ∷ is) q le all h =
      let before = send_all-IsLimited now is q le all.1 h in
      let q1 = (send_all ops now is q).0 in
      elim (Bool-cases (leb now (bump i).transmits)) [
        | inl last ↦
            rw (last, send_all)
              (finish-IsLimited ops heap scale limit q1 (bump i)
                (bump-not-beyond ops heap scale limit i all.0) before)
        | inr more ↦
            let under : over limit (bump i) ≡ false = ground arith in
            rw (more, send_all) (push-IsLimited ops heap scale limit q1 (bump i) under before)
      ]

  reset-IsLimited :
      (q : TransmitCapQueue H)
      → IsLimited ops heap scale limit q
      → IsLimited ops heap scale limit (reset ops q)
  reset-IsLimited q h = record {
    same_scale = h.same_scale;
    waiting = h.waiting;
    known = h.known;
    done = h.done;
  }

  pub get_messages-IsLimited :
      (ceil_log10 : ℕ → ℕ) (num_nodes overhead size : ℕ) (q : TransmitCapQueue H)
      → transmit_limit ceil_log10 scale num_nodes ≤ limit
      → IsLimited ops heap scale limit q
      → IsLimited ops heap scale limit (get_messages ops ceil_log10 num_nodes overhead size q).0
  unfolding get_messages
  get_messages-IsLimited ceil_log10 num_nodes overhead size q le h =
      elim (Bool-cases (leb size overhead || len ops q == 0)) [
        | inl nothing ↦ rw (nothing, get_messages) h
        | inr some_left ↦
            let p = pick ops (len ops q) overhead size (start_pick ops q) in
            let picked =
              pick-IsLimited (len ops q) overhead size (start_pick ops q)
                (record { rest = h; picked = tt; not_picked = tt }) in
            let q1 = push_all ops p.not_picked p.rest in
            let back = push_all-IsLimited p.not_picked p.rest picked.not_picked picked.rest in
            let now = transmit_limit ceil_log10 q1.transmit_scale num_nodes in
            let fits : now ≤ limit = rw back.same_scale le in
            rw (some_left, get_messages)
              (reset-IsLimited (send_all ops now p.picked q1).0
                (send_all-IsLimited now p.picked q1 fits picked.picked back))
      ]

  pub shrink_to-IsLimited :
      (fuel size : ℕ) (q : TransmitCapQueue H)
      → IsLimited ops heap scale limit q
      → IsLimited ops heap scale limit (shrink_to ops fuel size q)
  unfolding shrink_to
  shrink_to-IsLimited zero size q h = h
  shrink_to-IsLimited (suc fuel) size q h = elim (Bool-cases (ltb size (len ops q))) [
    | inr small ↦ rw (small, shrink_to) h
    | inl big ↦ elim (Option-cases (pop ops q)) [
      | inl nothing ↦ rw (big, nothing, shrink_to) h
      | inr ((item, rest), taken) ↦
          let (left, under) = pop-IsLimited ops heap scale limit q rest item taken h in
          rw (big, taken, shrink_to)
            (shrink_to-IsLimited fuel size (finish ops rest item) (
              finish-IsLimited ops heap scale limit rest item
                (not-beyond ops heap scale limit item under) left))
    ]
  ]
