-- ===== src/Startup/SecretLaws.antt =====
-- memberlist.go: what `Build` does with the secret key.
use mlist.Prelude.{
  ◌≡◌, ◌≢◌, subst, List, [], ◌∷◌, ◌++◌, true, Option, none, some, arith, Bool-cases, Option-cases,
  inl, inr,
}
use mlist.Members.Types.{Bytes}
use mlist.Keyring.Keys.{
  Keyring, contains, add_key, use_key, new_keyring, add_all, validate_key, get_primary_key,
  encryption_enabled, get_keys,
}
use mlist.Startup.Build.{build_keyring}

-- The secret key has become the primary key, so that packets are encrypted.
abbrev pub HasSecret : Option Bytes → Option Keyring → Type 0
HasSecret none ring = Unit
HasSecret (some k) none = ⊥
HasSecret (some k) (some r) =
    (get_primary_key r ≡ k) × (encryption_enabled (some r) ≡ true) × (validate_key k ≡ none)

use_key-HasSecret :
    (r : Keyring) (k : Bytes)
    → validate_key k ≡ none
    → (use_key r k).1 ≡ none
    → HasSecret (some k) (some (use_key r k).0)
unfolding use_key get_primary_key encryption_enabled get_keys
use_key-HasSecret r k ok e = ground arith

add_key-validates : (r : Keyring) (k : Bytes) → (add_key r k).1 ≡ none → validate_key k ≡ none
unfolding add_key
add_key-validates r k e = ground arith

contains-append_self : (ks : List Bytes) (k : Bytes) → contains (ks ++ (k ∷ [])) k ≡ true
unfolding contains
contains-append_self [] k = ground arith
contains-append_self (j ∷ ks) k = ground (arith, contains-append_self ks k)

-- A key of a size that is allowed can be added and used.
add_key-use_key :
    (r : Keyring) (k : Bytes)
    → validate_key k ≡ none
    → ((add_key r k).1 ≡ none) × ((use_key (add_key r k).0 k).1 ≡ none)
unfolding add_key use_key
add_key-use_key r k ok = elim (Bool-cases (contains r.keys k)) [
  | inl old ↦ (ground arith, ground arith)
  | inr new ↦ (ground arith, ground (arith, contains-append_self r.keys k))
]

add_use-HasSecret :
    (r : Keyring) (k : Bytes) (ring : Option Keyring)
    → build_keyring (some k) (some r) ≡ some ring
    → HasSecret (some k) ring
unfolding build_keyring
add_use-HasSecret r k ring e = elim (Option-cases (add_key r k).1) [
  | inr (bad, refused) ↦ absurd (ground arith)
  | inl added ↦ elim (Option-cases (use_key (add_key r k).0 k).1) [
    | inr (bad, refused) ↦ absurd (ground arith)
    | inl used ↦
        subst (HasSecret (some k)) {x = some (use_key (add_key r k).0 k).0} (ground arith)
          (use_key-HasSecret (add_key r k).0 k (add_key-validates r k added) used)
  ]
]

new-HasSecret :
    (k : Bytes) (ring : Option Keyring)
    → build_keyring (some k) none ≡ some ring
    → HasSecret (some k) ring
unfolding build_keyring new_keyring add_all add_key use_key validate_key get_primary_key
    encryption_enabled get_keys
new-HasSecret k none e = absurd (ground arith)
new-HasSecret k (some r) e = ground arith

-- The secret key is of no size that is allowed.
abbrev pub IsRefused : Option Bytes → Type 0
IsRefused none = ⊥
IsRefused (some k) = validate_key k ≢ none

pub secret-IsRefused :
    (secret : Option Bytes) (given : Option Keyring)
    → build_keyring secret given ≡ none
    → IsRefused secret
unfolding build_keyring new_keyring add_all
secret-IsRefused none given e = cc
secret-IsRefused (some k) none e =
    λ ok. ground (arith, add_key-use_key (record { primary_key = none; keys = [] }) k ok)
secret-IsRefused (some k) (some r) e = λ ok. ground (arith, add_key-use_key r k ok)

pub secret_used :
    (secret : Option Bytes) (given : Option Keyring) (ring : Option Keyring)
    → build_keyring secret given ≡ some ring
    → HasSecret secret ring
secret_used none given ring e = tt
secret_used (some k) none ring e = new-HasSecret k ring e
secret_used (some k) (some r) ring e = add_use-HasSecret r k ring e
