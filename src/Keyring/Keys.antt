-- ===== src/Keyring/Keys.antt =====
-- keyring.go: the operations. A method returns the ring, changed or not, and its error.
use mlist.Prelude.{
  ℕ, zero, suc, ◌+◌, List, [], ◌∷◌, ◌++◌, Bool, true, false, Option, none, some, ◌==◌, ◌||◌,
  if◌then◌else◌, length, take, drop, get_or,
}
use mlist.Members.Types.{Bytes}
use mlist.Members.Handlers.{bytes_equal}

pub record Keyring : Type 0 where
  pub primary_key : Option Bytes
  pub keys : List Bytes

pub data Error : Type 0 where
  bad_size missing_key removing_primary : Error

-- Whether a key is in the ring: the loops that look for `bytes.Equal(key, k)`.
unfoldable pub contains : List Bytes → Bytes → Bool
contains [] key = false
contains (k ∷ ks) key = bytes_equal key k || contains ks key

unfoldable pub validate_key : Bytes → Option Error
validate_key key =
    if length key == 16 || (length key == 24 || length key == 32) then none else some bad_size

unfoldable pub add_key : Keyring → Bytes → Keyring × Option Error
unfolding validate_key contains
add_key r key = elim (validate_key key) [
  | some e ↦ (r, some e)
  | none ↦
      if contains r.keys key then (r, none) else (record r { keys = r.keys ++ (key ∷ []) }, none)
]

unfoldable pub use_key : Keyring → Bytes → Keyring × Option Error
unfolding contains
use_key r key =
    if contains r.keys key
    then (record r { primary_key = some key }, none)
    else (r, some missing_key)

-- `bytes.Equal(key, r.primaryKey)`, where a `nil` slice has no bytes.
abbrev pub bytes_of : Option Bytes → Bytes
bytes_of none = []
bytes_of (some k) = k

abbrev pub pred : ℕ → ℕ
pred zero = zero
pred (suc k) = k

-- `append(a[:i], a[i+1:len]...)` in place: the entries behind `i` move down, and the array keeps its
-- last entries.
unfoldable pub shift : List Bytes → ℕ → ℕ → List Bytes
shift array i len = take i array ++ (drop (suc i) (take len array) ++ drop (pred len) array)

-- The loop of `RemoveKey`, for `n` indices from `i` on. `range r.keys` keeps the slice that it starts
-- with, so the loop reads `array`, whose first `len` entries are `r.keys`. The result is the array, the
-- length and `exist`. (A second match, which a ring without duplicates never has, could panic.)
unfoldable pub remove_loop : Bytes → ℕ → ℕ → List Bytes → ℕ → Bool → List Bytes × ℕ × Bool
remove_loop key zero i array len exist = (array, len, exist)
remove_loop key (suc n) i array len exist =
    let found = bytes_equal key (get_or array i []) in
    remove_loop key n (i + 1) (if found then shift array i len else array)
      (if found then pred len else len) (exist || found)

unfoldable pub remove_key : Keyring → Bytes → Keyring × Option Error
unfolding remove_loop
remove_key r key =
    if bytes_equal key (bytes_of r.primary_key)
    then (r, some removing_primary)
    else let (array, len, exist) = remove_loop key (length r.keys) 0 r.keys (length r.keys) false in
      (record r { keys = take len array }, if exist then none else some missing_key)

-- The keys other than the primary one, in their order.
unfoldable pub others : Bytes → List Bytes → List Bytes
others primary [] = []
others primary (k ∷ ks) = if bytes_equal k primary then others primary ks else k ∷ others primary ks

unfoldable pub get_keys : Keyring → List Bytes
unfolding others
get_keys r = elim r.primary_key [ none ↦ [] | some p ↦ p ∷ others p r.keys ]

unfoldable pub get_primary_key : Keyring → Bytes
get_primary_key r = bytes_of r.primary_key

-- encrypt.go: `EncryptionEnabled`, for a keyring that is not `nil`.
unfoldable pub encryption_enabled : Option Keyring → Bool
unfolding get_keys
encryption_enabled none = false
encryption_enabled (some r) = elim (get_keys r) [ [] ↦ false | _ ∷ _ ↦ true ]

unfoldable pub add_all : Keyring → List Bytes → Option Keyring
unfolding add_key
add_all r [] = some r
add_all r (k ∷ ks) = let (r', e) = add_key r k in elim e [ none ↦ add_all r' ks | some _ ↦ none ]

-- `none` is the error of `AddKey` or `UseKey`.
unfoldable pub new_keyring : List Bytes → Option Bytes → Option Keyring
unfolding add_all add_key use_key
new_keyring keys none = add_all (record { primary_key = none; keys = [] }) keys
new_keyring keys (some primary) =
    let (r, e) = add_key (record { primary_key = none; keys = [] }) primary in
    elim e [
      | some _ ↦ none
      | none ↦
          let (r', e') = use_key r primary in elim e' [ some _ ↦ none | none ↦ add_all r' keys ]
    ]
