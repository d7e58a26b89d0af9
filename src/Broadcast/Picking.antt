-- ===== src/Broadcast/Picking.antt =====
-- broadcast.go: the messages picked for one packet fit its size, and the loops over the heap end.
use mlist.Prelude.{
  ℕ, zero, suc, ◌+◌, ◌≤◌, ◌<◌, ◌≡◌, ◌⊎◌, inl, inr, refl, List, [], ◌∷◌, ◌++◌, ◌||◌, none, some,
  arith, ltb, leb, ◌==◌, length, Bool-cases, Option-cases,
}
use mlist.Prelude.Maps.{str_dec, delete}
use mlist.Members.Types.{Bytes}
use mlist.Broadcast.Queue.{
  TransmitCapItem, HeapOps, TransmitCapQueue, Pick, start_pick, pop, pick, push_all, send_all,
  get_messages, shrink_to, resize, len, transmit_limit,
}

-- What the heap's documentation says of its size.
pub record IsSized {H : Type 0} (ops : HeapOps H) : Type 0 where
  pub size_empty : ops.size ops.empty ≡ 0
  pub size_push : (h : H) (i : TransmitCapItem) → ops.size (ops.push h i) ≡ ops.size h + 1
  pub size_pop_none : (h : H) → ops.pop h ≡ none → ops.size h ≡ 0
  pub size_pop :
      (h h' : H) (i : TransmitCapItem) → ops.pop h ≡ some (i, h') → ops.size h ≡ ops.size h' + 1

-- The bytes that messages take in a compound message, each with its overhead.
abbrev pub bytes_of : ℕ → List Bytes → ℕ
bytes_of overhead [] = 0
bytes_of overhead (m ∷ ms) = length m + overhead + bytes_of overhead ms

abbrev item_bytes : ℕ → List TransmitCapItem → ℕ
item_bytes overhead [] = 0
item_bytes overhead (i ∷ is) = length i.msg + overhead + item_bytes overhead is

pub bytes_of-append :
    (overhead : ℕ) (xs ys : List Bytes)
    → bytes_of overhead (xs ++ ys) ≡ bytes_of overhead xs + bytes_of overhead ys
bytes_of-append overhead [] ys = omega arith
bytes_of-append overhead (x ∷ xs) ys = omega (arith, bytes_of-append overhead xs ys)

module _ {H : Type 0} (ops : HeapOps H) where
  abbrev Fits : ℕ → ℕ → Pick H → Type 0
  Fits overhead size p = (p.bytes_used ≤ size) × (p.bytes_used ≡ item_bytes overhead p.picked)

  pick-Fits :
      (fuel overhead size : ℕ) (p : Pick H)
      → Fits overhead size p
      → Fits overhead size (pick ops fuel overhead size p)
  unfolding pick
  pick-Fits zero overhead size p h = h
  pick-Fits (suc fuel) overhead size p h =
      elim (Bool-cases (ltb size (p.bytes_used + 20 + overhead))) [
        | inl full ↦ rw (full, pick) h
        | inr room ↦ elim (Option-cases (pop ops p.rest)) [
          | inl done ↦ rw (room, done, pick) h
          | inr ((item, rest), taken) ↦
              rw (room, taken, pick) (pick-Fits fuel overhead size _ (ground arith))
        ]
      ]

  send_all-bytes :
      (overhead limit : ℕ) (is : List TransmitCapItem) (q : TransmitCapQueue H)
      → bytes_of overhead (send_all ops limit is q).1 ≡ item_bytes overhead is
  unfolding send_all
  send_all-bytes overhead limit [] q = refl
  send_all-bytes overhead limit (i ∷ is) q = omega (
    arith,
    send_all-bytes overhead limit is q,
    bytes_of-append overhead (send_all ops limit is q).1 (i.msg ∷ []),
  )

  -- The messages that `GetMessages` returns take at most `size` bytes, the overhead of each included.
  pub get_messages-fits :
      (ceil_log10 : ℕ → ℕ) (num_nodes overhead size : ℕ) (q : TransmitCapQueue H)
      → bytes_of overhead (get_messages ops ceil_log10 num_nodes overhead size q).1 ≤ size
  unfolding get_messages
  get_messages-fits ceil_log10 num_nodes overhead size q =
      let start = start_pick ops q in
      let p = pick ops (len ops q) overhead size start in
      let fits = pick-Fits (len ops q) overhead size start (omega arith, refl) in
      let limit =
        transmit_limit ceil_log10 (push_all ops p.not_picked p.rest).transmit_scale num_nodes in
      let sent = send_all-bytes overhead limit p.picked (push_all ops p.not_picked p.rest) in
      elim (Bool-cases (leb size overhead || len ops q == 0)) [
        | inl nothing ↦ rw (nothing, get_messages) (omega arith)
        | inr some_left ↦ rw (some_left, get_messages) (omega arith)
      ]

  module _ (laws : IsSized ops) where
    -- The loop of `GetMessages` comes to its end within the model's fuel: it stops because less than
    -- the 20 bytes of the smallest message are left, or because the heap is empty.
    pick-stops :
        (fuel overhead size : ℕ) (p : Pick H)
        → len ops p.rest ≤ fuel
        → let p' = pick ops fuel overhead size p in
          (size < p'.bytes_used + 20 + overhead) ⊎ (len ops p'.rest ≡ 0)
    unfolding pick pop
    pick-stops zero overhead size p h = inr (omega arith)
    pick-stops (suc fuel) overhead size p h =
        elim (Bool-cases (ltb size (p.bytes_used + 20 + overhead))) [
          | inl full ↦ rw (full, pick) (inl (ground arith))
          | inr room ↦ elim (Option-cases (ops.pop p.rest.queue)) [
            | inl done ↦ rw (room, done, pick, pop) (inr (laws.size_pop_none p.rest.queue done))
            | inr ((item, rest), taken) ↦
                rw (room, taken, pick, pop)
                  (pick-stops fuel overhead size _
                    (ground (arith, laws.size_pop p.rest.queue rest item taken)))
          ]
        ]

    shrink_to-le :
        (fuel size : ℕ) (q : TransmitCapQueue H)
        → len ops q ≤ fuel
        → (len ops (shrink_to ops fuel size q) ≤ size)
          × (len ops (shrink_to ops fuel size q) + length (shrink_to ops fuel size q).finished
              ≡ len ops q + length q.finished)
    unfolding shrink_to pop
    shrink_to-le zero size q h = (omega arith, refl)
    shrink_to-le (suc fuel) size q h = elim (Bool-cases (ltb size (len ops q))) [
      | inr small ↦ rw (small, shrink_to) (ground arith, refl)
      | inl big ↦ elim (Option-cases (ops.pop q.queue)) [
        | inl done ↦ absurd (ground (arith, laws.size_pop_none q.queue done))
        | inr ((item, rest), taken) ↦
            let q' : TransmitCapQueue H = record q {
              queue = rest;
              exists = delete str_dec item.name q.exists;
              finished = item ∷ q.finished;
            } in
            let fewer = laws.size_pop q.queue rest item taken in
            let (small, all) = shrink_to-le fuel size q' (omega arith) in
            rw (big, taken, shrink_to, pop) (small, omega arith)
      ]
    ]

    -- `Resize` ends with at most `size` items, and finishes each of those that it takes out.
    resize-le :
        (size : ℕ) (q : TransmitCapQueue H)
        → (len ops (resize ops size q) ≤ size)
          × (len ops (resize ops size q) + length (resize ops size q).finished
              ≡ len ops q + length q.finished)
    unfolding resize
    resize-le size q = shrink_to-le (len ops q) size q (omega arith)
