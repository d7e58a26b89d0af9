-- ===== src/Broadcast/Named/Take.antt =====
-- broadcast.go: `GetMessages` and `Resize` keep the names and the IDs apart.
use mlist.Prelude.{
  ℕ, zero, suc, ◌+◌, ◌≡◌, refl, List, [], ◌∷◌, ◌++◌, Bool, ◌||◌, arith, ◌==◌, ltb, leb, length,
  Bool-cases, Option-cases, inl, inr,
}
use mlist.Broadcast.Queue.{
  TransmitCapItem, HeapOps, TransmitCapQueue, Pick, len, finish, bump, reset, start_pick, pop, pick,
  push_all, send_all, get_messages, shrink_to, transmit_limit,
}
use mlist.Broadcast.Named.{count_of, has_id, IsHeap, IsNamed, IsNamed-counts, pop-IsNamed}
use mlist.Broadcast.Named.Push.{push-IsNamed}

count_of-append :
    (t : TransmitCapItem → Bool) (xs ys : List TransmitCapItem)
    → count_of t (xs ++ ys) ≡ count_of t xs + count_of t ys
count_of-append t [] ys = omega arith
count_of-append t (x ∷ xs) ys = omega (arith, count_of-append t xs ys)

module _ {H : Type 0} (ops : HeapOps H) (heap : IsHeap ops) where
  abbrev PickIsNamed : Pick H → Type 0
  PickIsNamed p = IsNamed ops heap p.rest (p.picked ++ p.not_picked)

  pick-IsNamed :
      (fuel overhead size : ℕ) (p : Pick H)
      → PickIsNamed p
      → PickIsNamed (pick ops fuel overhead size p)
  unfolding pick
  pick-IsNamed zero overhead size p h = h
  pick-IsNamed (suc fuel) overhead size p h =
      elim (Bool-cases (ltb size (p.bytes_used + 20 + overhead))) [
        | inl full ↦ rw (full, pick) h
        | inr room ↦ elim (Option-cases (pop ops p.rest)) [
          | inl done ↦ rw (room, done, pick) h
          | inr ((item, rest), taken) ↦
              let floats =
                pop-IsNamed ops heap p.rest rest item (p.picked ++ p.not_picked) taken h in
              elim (Bool-cases (ltb size (p.bytes_used + length item.msg + overhead))) [
                | inl large ↦
                    rw (room, taken, pick)
                      (rw large (
                        pick-IsNamed fuel overhead size _ (
                          IsNamed-counts ops heap rest (item ∷ (p.picked ++ p.not_picked))
                            (p.picked ++ (item ∷ p.not_picked))
                            (λ t. omega (
                              arith,
                              count_of-append t p.picked p.not_picked,
                              count_of-append t p.picked (item ∷ p.not_picked),
                            ))
                            floats)))
                | inr fits ↦
                    rw (room, taken, pick) (rw fits (pick-IsNamed fuel overhead size _ floats))
              ]
        ]
      ]

  push_all-IsNamed :
      (is f : List TransmitCapItem) (q : TransmitCapQueue H)
      → IsNamed ops heap q (is ++ f)
      → IsNamed ops heap (push_all ops is q) f
  unfolding push_all
  push_all-IsNamed [] f q h = h
  push_all-IsNamed (i ∷ is) f q h = push-IsNamed ops heap (push_all ops is q) i f (
      push_all-IsNamed is (i ∷ f) q (
        IsNamed-counts ops heap q ((i ∷ is) ++ f) (is ++ (i ∷ f))
          (λ t. omega (arith, count_of-append t is f, count_of-append t is (i ∷ f))) h))

  bumped :
      (q : TransmitCapQueue H) (i : TransmitCapItem) (f : List TransmitCapItem)
      → IsNamed ops heap q (i ∷ f)
      → IsNamed ops heap q (bump i ∷ f)
  bumped q i f h = record {
    name_once = h.name_once;
    id_once = h.id_once;
    id_old = h.id_old;
    known = h.known;
  }

  finished-IsNamed :
      (q : TransmitCapQueue H) (i j : TransmitCapItem) (f : List TransmitCapItem)
      → IsNamed ops heap q (i ∷ f)
      → IsNamed ops heap (finish ops q j) f
  finished-IsNamed q i j f h =
      let dropped = IsNamed-counts ops heap q (i ∷ f) f (λ t. omega arith) h in
      record {
        name_once = dropped.name_once;
        id_once = dropped.id_once;
        id_old = dropped.id_old;
        known = dropped.known;
      }

  send_all-IsNamed :
      (limit : ℕ) (is f : List TransmitCapItem) (q : TransmitCapQueue H)
      → IsNamed ops heap q (is ++ f)
      → IsNamed ops heap (send_all ops limit is q).0 f
  unfolding send_all
  send_all-IsNamed limit [] f q h = h
  send_all-IsNamed limit (i ∷ is) f q h =
      let before = send_all-IsNamed limit is (i ∷ f) q (
        IsNamed-counts ops heap q ((i ∷ is) ++ f) (is ++ (i ∷ f))
          (λ t. omega (arith, count_of-append t is f, count_of-append t is (i ∷ f))) h) in
      let q1 = (send_all ops limit is q).0 in
      elim (Bool-cases (leb limit (bump i).transmits)) [
        | inl last ↦ rw (last, send_all) (finished-IsNamed q1 i (bump i) f before)
        | inr more ↦
            rw (more, send_all) (push-IsNamed ops heap q1 (bump i) f (bumped q1 i f before))
      ]

  reset-IsNamed :
      (q : TransmitCapQueue H) → IsNamed ops heap q [] → IsNamed ops heap (reset ops q) []
  reset-IsNamed q h = record {
    name_once = h.name_once;
    id_once = h.id_once;
    id_old = λ k old. elim (Bool-cases (len ops q == 0)) [
      | inl empty ↦ ground (
        arith,
        none_left (heap.items q.queue) (ground (arith, heap.size_items q.queue)) (has_id k),
      )
      | inr some_left ↦ ground (arith, h.id_old k (ground arith))
    ];
    known = h.known;
  }
    where
      none_left :
          (l : List TransmitCapItem)
          → length l ≡ 0
          → (t : TransmitCapItem → Bool) → count_of t l ≡ 0
      none_left [] e t = refl
      none_left (i ∷ is) e t = absurd (omega arith)

  pub get_messages-IsNamed :
      (ceil_log10 : ℕ → ℕ) (num_nodes overhead size : ℕ) (q : TransmitCapQueue H)
      → IsNamed ops heap q []
      → IsNamed ops heap (get_messages ops ceil_log10 num_nodes overhead size q).0 []
  unfolding get_messages
  get_messages-IsNamed ceil_log10 num_nodes overhead size q h =
      elim (Bool-cases (leb size overhead || len ops q == 0)) [
        | inl nothing ↦ rw (nothing, get_messages) h
        | inr some_left ↦
            let p = pick ops (len ops q) overhead size (start_pick ops q) in
            let picked = pick-IsNamed (len ops q) overhead size (start_pick ops q) h in
            let q1 = push_all ops p.not_picked p.rest in
            let back = push_all-IsNamed p.not_picked p.picked p.rest (
              IsNamed-counts ops heap p.rest (p.picked ++ p.not_picked) (p.not_picked ++ p.picked)
                (λ t. omega (
                  arith,
                  count_of-append t p.picked p.not_picked,
                  count_of-append t p.not_picked p.picked,
                ))
                picked) in
            let limit = transmit_limit ceil_log10 q1.transmit_scale num_nodes in
            let sent = send_all-IsNamed limit p.picked [] q1 (
              IsNamed-counts ops heap q1 p.picked (p.picked ++ [])
                (λ t. omega (arith, count_of-append t p.picked [])) back) in
            rw (some_left, get_messages) (reset-IsNamed (send_all ops limit p.picked q1).0 sent)
      ]

  pub shrink_to-IsNamed :
      (fuel size : ℕ) (q : TransmitCapQueue H)
      → IsNamed ops heap q []
      → IsNamed ops heap (shrink_to ops fuel size q) []
  unfolding shrink_to
  shrink_to-IsNamed zero size q h = h
  shrink_to-IsNamed (suc fuel) size q h = elim (Bool-cases (ltb size (len ops q))) [
    | inr small ↦ rw (small, shrink_to) h
    | inl big ↦ elim (Option-cases (pop ops q)) [
      | inl done ↦ rw (big, done, shrink_to) h
      | inr ((item, rest), taken) ↦
          rw (big, taken, shrink_to)
            (shrink_to-IsNamed fuel size (finish ops rest item)
              (finished-IsNamed rest item item [] (pop-IsNamed ops heap q rest item [] taken h)))
    ]
  ]
