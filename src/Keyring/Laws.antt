-- ===== src/Keyring/Laws.antt =====
-- keyring.go: the ring holds valid keys, each once, and its primary key.
use mlist.Prelude.{
  ◌+◌, ◌≤◌, ◌<◌, ◌≡◌, inl, inr, refl, subst, ◌∙◌, List, [], ◌∷◌, ◌++◌, Option, none, some, arith,
  ltb, ite, count, count-append, Bool-cases, Option-cases,
}
use mlist.Members.Types.{Bytes}
use mlist.Members.Handlers.{bytes_dec}
use mlist.Keyring.Keys.{
  Keyring, contains, validate_key, add_key, use_key, get_keys, others, add_all, new_keyring,
}

pub record IsValid (r : Keyring) : Type 0 where
  pub once : (k : Bytes) → count bytes_dec k r.keys ≤ 1
  pub sized : (k : Bytes) → 0 < count bytes_dec k r.keys → validate_key k ≡ none
  pub primary : (p : Bytes) → r.primary_key ≡ some p → 0 < count bytes_dec p r.keys

contains-count : (ks : List Bytes) (k : Bytes) → contains ks k ≡ ltb 0 (count bytes_dec k ks)
unfolding contains count
contains-count [] k = refl
contains-count (j ∷ ks) k = ground (arith, contains-count ks k)

add_key-IsValid : (r : Keyring) (key : Bytes) → IsValid r → IsValid (add_key r key).0
unfolding add_key
add_key-IsValid r key h = elim (Option-cases (validate_key key)) [
  | inr (e, bad) ↦ rw (bad, add_key) h
  | inl good ↦ elim (Bool-cases (contains r.keys key)) [
    | inl old ↦ rw (good, old, add_key) h
    | inr new ↦
        rw (good, new, add_key)
          (record {
            once = λ k. ground (arith, counted k, h.once k, contains-count r.keys key);
            sized = λ k e. ground (arith, counted k, h.sized k, good);
            primary = λ p e. ground (arith, counted p, h.primary p);
          })
  ]
]
  where
    counted :
        (k : Bytes)
        → count bytes_dec k (r.keys ++ (key ∷ []))
          ≡ count bytes_dec k r.keys + ite (bytes_dec k key) 1 0
    counted k = count-append bytes_dec k r.keys (key ∷ []) ∙ unfold count in ground arith

use_key-IsValid : (r : Keyring) (key : Bytes) → IsValid r → IsValid (use_key r key).0
unfolding use_key
use_key-IsValid r key h = elim (Bool-cases (contains r.keys key)) [
  | inr absent ↦ rw (absent, use_key) h
  | inl known ↦
      rw (known, use_key)
        (record {
          once = h.once;
          sized = h.sized;
          primary = λ p e. ground (arith, contains-count r.keys key);
        })
]

add_all-IsValid :
    (ks : List Bytes) (r : Keyring) {r' : Keyring} → IsValid r → add_all r ks ≡ some r' → IsValid r'
unfolding add_all
add_all-IsValid [] r h e = subst IsValid (ground arith) h
add_all-IsValid (k ∷ ks) r h e =
    add_all-IsValid ks (add_key r k).0 (add_key-IsValid r k h) (ground arith)

empty-IsValid : IsValid (record { primary_key = none; keys = [] })
unfolding count
empty-IsValid = record {
  once = λ k. omega arith;
  sized = λ k h. absurd (omega arith);
  primary = λ p e. absurd (ground arith);
}

-- A keyring that `NewKeyring` returns is valid: its keys have 16, 24 or 32 bytes, none is there twice,
-- and its primary key, if it has one, is among them.
pub new_keyring-IsValid :
    (keys : List Bytes) (primary : Option Bytes) {r : Keyring}
    → new_keyring keys primary ≡ some r
    → IsValid r
unfolding new_keyring
new_keyring-IsValid keys none e = add_all-IsValid keys _ empty-IsValid e
new_keyring-IsValid keys (some p) e =
    let empty : Keyring = record { primary_key = none; keys = [] } in
    let r1 = (add_key empty p).0 in
    add_all-IsValid keys (use_key r1 p).0
      (use_key-IsValid r1 p (add_key-IsValid empty p empty-IsValid)) (ground arith)

count-others :
    (p k : Bytes) (ks : List Bytes)
    → count bytes_dec k (others p ks) ≡ ite (bytes_dec k p) 0 (count bytes_dec k ks)
unfolding others count
count-others p k [] = ground arith
count-others p k (j ∷ ks) = ground (arith, count-others p k ks)

-- `GetKeys` of a valid ring with a primary key lists that key first and then every other key once, so
-- that decryption tries the primary key first and no key is left out.
get_keys_lem :
    (r : Keyring) (p : Bytes)
    → IsValid r
    → r.primary_key ≡ some p
    → (rest : List Bytes) × (get_keys r ≡ p ∷ rest)
      × ((k : Bytes) → count bytes_dec k (get_keys r) ≡ count bytes_dec k r.keys)
unfolding get_keys count
get_keys_lem r p h e = (
  others p r.keys,
  ground arith,
  λ k. ground (arith, count-others p k r.keys, h.once p, h.primary p e),
)
