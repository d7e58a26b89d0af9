-- ===== src/Keyring/RemoveLaws.antt =====
-- keyring.go: `RemoveKey`, whose loop moves the entries of the slice that it ranges over.
use mlist.Prelude.{
  ℕ, zero, suc, ◌+◌, ◌-◌, ◌≤◌, ◌<◌, ◌≡◌, refl, sym, ap, ◌∙◌, List, [], ◌∷◌, ◌++◌, append_assoc,
  Bool, true, false, not, ◌&&◌, none, some, arith, ltb, if◌then◌else◌, ite, length, length-append,
  length-take, length-drop, take, drop, get_or, count, count-append, Bool-cases, inl, inr,
}
use mlist.Members.Types.{Bytes}
use mlist.Members.Handlers.{bytes_dec, bytes_equal}
use mlist.Keyring.Keys.{
  Keyring, removing_primary, missing_key, bytes_of, pred, shift, remove_loop, remove_key,
}
use mlist.Keyring.Laws.{IsValid}

module _ {ℓ} {A : Type ℓ} where
  take-length : (xs : List A) → take (length xs) xs ≡ xs
  take-length [] = refl
  take-length (x ∷ xs) = ap (◌∷◌ x) (take-length xs)

  take_append_of-le : (n : ℕ) (xs ys : List A) → length xs ≡ n → take n (xs ++ ys) ≡ xs
  take_append_of-le zero [] ys h = refl
  take_append_of-le zero (x ∷ xs) ys h = absurd (omega arith)
  take_append_of-le (suc n) [] ys h = absurd (omega arith)
  take_append_of-le (suc n) (x ∷ xs) ys h = ap (◌∷◌ x) (take_append_of-le n xs ys (omega arith))

  get_or-append_right :
      (xs ys : List A) (q : ℕ) (d : A)
      → length xs ≤ q
      → get_or (xs ++ ys) q d ≡ get_or ys (q - length xs) d
  get_or-append_right [] ys q d h = ap (λ k. get_or ys k d) (omega arith)
  get_or-append_right (x ∷ xs) ys zero d h = absurd (omega arith)
  get_or-append_right (x ∷ xs) ys (suc q) d h =
      get_or-append_right xs ys q d (omega arith) ∙ ap (λ k. get_or ys k d) (omega arith)

count-drop_mono :
    (k : Bytes) (a b : ℕ) (xs : List Bytes)
    → a ≤ b
    → count bytes_dec k (drop b xs) ≤ count bytes_dec k (drop a xs)
unfolding count
count-drop_mono k zero zero xs h = omega arith
count-drop_mono k zero (suc b) [] h = omega arith
count-drop_mono k zero (suc b) (x ∷ xs) h =
    ground (arith, count-drop_mono k zero b xs (omega arith))
count-drop_mono k (suc a) zero xs h = absurd (omega arith)
count-drop_mono k (suc a) (suc b) [] h = omega arith
count-drop_mono k (suc a) (suc b) (x ∷ xs) h = count-drop_mono k a b xs (omega arith)

count-at :
    (k : Bytes) (xs : List Bytes) (i : ℕ)
    → i < length xs
    → count bytes_dec k xs
      ≡ count bytes_dec k (take i xs)
        + ite (bytes_dec k (get_or xs i [])) 1 0
        + count bytes_dec k (drop (suc i) xs)
unfolding count
count-at k [] i h = elim h [ ]
count-at k (x ∷ xs) zero h = ground arith
count-at k (x ∷ xs) (suc i) h = ground (arith, count-at k xs i (omega arith))

count-take_next :
    (k : Bytes) (xs : List Bytes) (i : ℕ)
    → i < length xs
    → count bytes_dec k (take (suc i) xs)
      ≡ count bytes_dec k (take i xs) + ite (bytes_dec k (get_or xs i [])) 1 0
unfolding count
count-take_next k [] i h = elim h [ ]
count-take_next k (x ∷ xs) zero h = ground arith
count-take_next k (x ∷ xs) (suc i) h = ground (arith, count-take_next k xs i (omega arith))

module _ (key : Bytes) where
  unmatched :
      (xs : List Bytes) (q : ℕ)
      → count bytes_dec key xs ≡ 0
      → q < length xs
      → bytes_equal key (get_or xs q []) ≡ false
  unfolding count
  unmatched [] q h lt = elim lt [ ]
  unmatched (x ∷ xs) zero h lt = ground arith
  unmatched (x ∷ xs) (suc q) h lt = ground (arith, unmatched xs q)

  remove_loop_unmatched :
      (n i : ℕ) (array : List Bytes) (len : ℕ) (exist : Bool)
      → ((q : ℕ) → i ≤ q → q < i + n → bytes_equal key (get_or array q []) ≡ false)
      → remove_loop key n i array len exist ≡ (array, len, exist)
  unfolding remove_loop
  remove_loop_unmatched zero i array len exist h = refl
  remove_loop_unmatched (suc n) i array len exist h =
      let here = h i (omega arith) (omega arith) in
      let rest =
        remove_loop_unmatched n (i + 1) array len exist
          (λ q le lt. h q (omega arith) (omega arith)) in
      ground arith

  shift-unmatched :
      (n i : ℕ) (array : List Bytes)
      → i + suc n ≡ length array
      → count bytes_dec key (drop (suc i) array) ≡ 0
      → (q : ℕ) → i + 1 ≤ q
      → q < i + 1 + n
      → bytes_equal key (get_or (shift array i (length array)) q []) ≡ false
  unfolding shift
  shift-unmatched n i array len none_left q le lt =
      let len_take : length (take i array) ≡ i = omega (arith, length-take i array) in
      let back = drop (suc i) (take (length array) array) ++ drop (pred (length array)) array in
      let fewer = count-drop_mono key (suc i) (pred (length array)) array (ground arith) in
      let whole = take-length array in
      let gone : count bytes_dec key back ≡ 0 =
        count-append bytes_dec key (drop (suc i) (take (length array) array))
          (drop (pred (length array)) array)
        ∙ (ap
              (λ t.
                count bytes_dec key (drop (suc i) t)
                + count bytes_dec key (drop (pred (length array)) array))
              whole
            ∙ omega arith) in
      let long : q - length (take i array) < length back = ground (
        arith,
        length-append (drop (suc i) (take (length array) array)) (drop (pred (length array)) array),
        length-drop (suc i) (take (length array) array),
        length-drop (pred (length array)) array,
        ap length whole,
      ) in
      ap (bytes_equal key) (get_or-append_right (take i array) back q [] (omega arith))
      ∙ unmatched back (q - length (take i array)) gone long

  take-shift :
      (i : ℕ) (array : List Bytes)
      → i < length array
      → take (pred (length array)) (shift array i (length array))
        ≡ take i array ++ drop (suc i) array
  unfolding shift
  take-shift i array lt =
      let front = take i array ++ drop (suc i) (take (length array) array) in
      let whole = take-length array in
      let len : length front ≡ pred (length array) = ground (
        arith,
        length-append (take i array) (drop (suc i) (take (length array) array)),
        length-take i array,
        length-drop (suc i) (take (length array) array),
        ap length whole,
      ) in
      ap (take (pred (length array))) (
        sym (
          append_assoc (take i array) (drop (suc i) (take (length array) array))
            (drop (pred (length array)) array)))
      ∙ (take_append_of-le (pred (length array)) front (drop (pred (length array)) array) len
          ∙ ap (λ t. take i array ++ drop (suc i) t) whole)

  -- What the loop leaves of a list in which the key stands at most once, and not before `i`.
  remove_loop_lem :
      (n i : ℕ) (array : List Bytes)
      → i + n ≡ length array
      → count bytes_dec key array ≤ 1
      → count bytes_dec key (take i array) ≡ 0
      → let r = remove_loop key n i array (length array) false in
        (r.2 ≡ ltb 0 (count bytes_dec key array))
        × ((k : Bytes)
            → count bytes_dec k (take r.1 r.0)
              ≡ (if bytes_equal k key then 0 else count bytes_dec k array))
  unfolding remove_loop
  remove_loop_lem zero i array len once before =
      let all : take i array ≡ array = ap (λ j. take j array) (omega arith) ∙ take-length array in
      let absent : count bytes_dec key array ≡ 0 = sym (ap (count bytes_dec key) all) ∙ before in
      (
        ground arith,
        λ k. ap (count bytes_dec k) (take-length array) ∙ elim (bytes_dec k key) [
          | yes e ↦ ap (λ j. count bytes_dec j array) e ∙ ground arith
          | no ne ↦ ground arith
        ],
      )
  remove_loop_lem (suc n) i array len once before =
      let at = count-at key array i (omega arith) in
      elim (Bool-cases (bytes_equal key (get_or array i []))) [
        | inr other ↦
            let after : count bytes_dec key (take (i + 1) array) ≡ 0 =
              ap (λ j. count bytes_dec key (take j array)) {y = suc i} (omega arith)
              ∙ (count-take_next key array i (omega arith) ∙ ground arith) in
            rw (other, remove_loop) (remove_loop_lem n (i + 1) array (omega arith) once after)
        | inl found ↦
            let rest =
              remove_loop_unmatched n (i + 1) (shift array i (length array)) (pred (length array))
                true (shift-unmatched n i array len (ground arith)) in
            rw (found, remove_loop)
              (rw rest (
                ground arith,
                λ k.
                    ap (count bytes_dec k) (take-shift i array (omega arith))
                    ∙ (count-append bytes_dec k (take i array) (drop (suc i) array)
                        ∙ ground (arith, count-at k array i (omega arith))),
              ))
      ]

-- In a valid ring `RemoveKey` refuses the primary key, and reports any other key as missing exactly if it
-- is not there; it never changes the primary key; and it takes out the key that it is given, unless that
-- is the primary key, and no other.
pub remove_key_lem :
    (r : Keyring) (key : Bytes)
    → IsValid r
    → let is_primary = bytes_equal key (bytes_of r.primary_key) in
      ((remove_key r key).1 ≡ (
        if is_primary
        then some removing_primary
        else if ltb 0 (count bytes_dec key r.keys)
        then none
        else some missing_key))
      × ((remove_key r key).0.primary_key ≡ r.primary_key)
      × ((k : Bytes)
          → count bytes_dec k (remove_key r key).0.keys
            ≡ (if not is_primary && bytes_equal k key then 0 else count bytes_dec k r.keys))
unfolding remove_key count
remove_key_lem r key h =
    let (found, kept) =
      remove_loop_lem key (length r.keys) 0 r.keys (omega arith) (h.once key) refl in
    elim (Bool-cases (bytes_equal key (bytes_of r.primary_key))) [
      | inl same ↦ rw (same, remove_key) (refl, refl, λ k. refl)
      | inr other ↦ rw (other, remove_key) (ground arith, refl, kept)
    ]
