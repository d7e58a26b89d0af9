-- ===== src/Addresses/Ports.antt =====
-- net_transport.go: `hasPort`. A text is the list of its bytes; an index of -1 is `none`.
use mlist.Prelude.{
  ℕ, suc, ◌<◌, ◌≡◌, ◌≢◌, refl, List, [], ◌∷◌, ◌++◌, Bool, true, false, Option, none, some, arith,
  ltb, ◌==◌, if◌then◌else◌, Option-cases, inl, inr, ap, append_assoc, ℕ_discrete, count,
  count-append, length, length-append,
}

abbrev pub Text : Type 0
Text = List ℕ

abbrev pub colon : ℕ
colon = b':'

abbrev pub opening : ℕ
opening = b'['

abbrev pub closing : ℕ
closing = b']'

-- `strings.LastIndex` of one byte.
unfoldable pub last_index : Text → ℕ → Option ℕ
last_index [] c = none
last_index (x ∷ xs) c = elim (last_index xs c) [
  | some i ↦ some (suc i)
  | none ↦ if x == c then some 0 else none
]

abbrev pub is_zero : Option ℕ → Bool
is_zero none = false
is_zero (some i) = i == 0

abbrev pub is_after : Option ℕ → Option ℕ → Bool
is_after none j = false
is_after (some i) none = true
is_after (some i) (some j) = ltb j i

unfoldable pub has_port : Text → Bool
unfolding last_index
has_port s =
    if is_zero (last_index s opening)
    then is_after (last_index s colon) (last_index s closing)
    else count ℕ_discrete colon s == 1

-- The byte does not occur.
abbrev pub Lacks : ℕ → Text → Type 0
Lacks c s = count ℕ_discrete c s ≡ 0

last_index-Lacks : (s : Text) (c : ℕ) → Lacks c s → last_index s c ≡ none
unfolding last_index count
last_index-Lacks [] c h = refl
last_index-Lacks (x ∷ xs) c h = ground (arith, last_index-Lacks xs c)

-- After the last occurrence nothing of it follows.
pub last_index-append :
    (s rest : Text) (c : ℕ) → Lacks c rest → last_index (s ++ (c ∷ rest)) c ≡ some (length s)
unfolding last_index
last_index-append [] rest c h = ground (arith, last_index-Lacks rest c h)
last_index-append (x ∷ xs) rest c h = ground (arith, last_index-append xs rest c h)

-- What stands in brackets, and a port, have no bracket in them; a port and a plain host have no colon.
pub record IsPlain (host : Text) : Type 0 where
  pub no_opening : Lacks opening host
  pub no_closing : Lacks closing host

abbrev pub bracketed : Text → Text
bracketed host = opening ∷ (host ++ (closing ∷ []))

abbrev pub with_port : Text → Text → Text
with_port host port = host ++ (colon ∷ port)

has_port-plain : (s : Text) → Lacks opening s → has_port s ≡ (count ℕ_discrete colon s == 1)
unfolding has_port
has_port-plain s h = ground (arith, last_index-Lacks s opening h)

-- A text of two parts has a byte only if one of them has.
Lacks-append : (c : ℕ) (s t : Text) → Lacks c s → Lacks c t → Lacks c (s ++ t)
Lacks-append c s t h k = omega (arith, count-append ℕ_discrete c s t)

Lacks-cons : (c x : ℕ) (s : Text) → c ≢ x → Lacks c s → Lacks c (x ∷ s)
unfolding count
Lacks-cons c x s ne h = ground arith

last_index-lt : (s : Text) (c i : ℕ) → last_index s c ≡ some i → i < length s
unfolding last_index
last_index-lt [] c i h = absurd (ground arith)
last_index-lt (x ∷ xs) c i h = elim (Option-cases (last_index xs c)) [
  | inl absent ↦ ground arith
  | inr (j, found) ↦ let lt = last_index-lt xs c j found in ground arith
]

last_index-append_other :
    (s : Text) (c d : ℕ) → d ≢ c → last_index (s ++ (d ∷ [])) c ≡ last_index s c
unfolding last_index
last_index-append_other [] c d ne = ground arith
last_index-append_other (x ∷ xs) c d ne = ground (arith, last_index-append_other xs c d ne)

-- A text that begins with its only opening bracket.
last_index-opening : (s : Text) → Lacks opening s → last_index (opening ∷ s) opening ≡ some 0
unfolding last_index
last_index-opening s h = ground (arith, last_index-Lacks s opening h)

has_port-bracketed : (host : Text) → IsPlain host → has_port (bracketed host) ≡ false
unfolding has_port count
has_port-bracketed host h =
    let first = last_index-opening (host ++ (closing ∷ [])) (
      Lacks-append opening host (closing ∷ []) h.no_opening
        (Lacks-cons opening closing [] (λ e. ground arith) refl)) in
    let last = last_index-append (opening ∷ host) [] closing refl in
    let colons = last_index-append_other (opening ∷ host) colon closing (λ e. ground arith) in
    elim (Option-cases (last_index (opening ∷ host) colon)) [
      | inl absent ↦ ground arith
      | inr (i, found) ↦ let lt = last_index-lt (opening ∷ host) colon i found in ground arith
    ]

has_port-with_port-bracketed :
    (host port : Text)
    → IsPlain host
    → IsPlain port
    → Lacks colon port
    → has_port (with_port (bracketed host) port) ≡ true
unfolding has_port
has_port-with_port-bracketed host port h p no_colon =
    let shape : with_port (bracketed host) port ≡ opening ∷ (host ++ (closing ∷ colon ∷ port)) =
      ap (◌∷◌ opening) (append_assoc host (closing ∷ []) (colon ∷ port)) in
    let rest = Lacks-cons opening colon port (λ e. ground arith) p.no_opening in
    let first = last_index-opening (host ++ (closing ∷ colon ∷ port)) (
      Lacks-append opening host (closing ∷ colon ∷ port) h.no_opening
        (Lacks-cons opening closing (colon ∷ port) (λ e. ground arith) rest)) in
    let close =
      last_index-append (opening ∷ host) (colon ∷ port) closing
        (Lacks-cons closing colon port (λ e. ground arith) p.no_closing) in
    let last = last_index-append (bracketed host) port colon no_colon in
    let size = length-append host (closing ∷ []) in ground (arith, shape)

-- `hasPort` is right about each way in which an address is written: a plain host, a host in brackets,
-- each alone and with a port, and a bare IPv6 address, which has two colons or more.
pub has_port_lem :
    (host port : Text)
    → IsPlain host
    → IsPlain port
    → Lacks colon port
    → (Lacks colon host → (has_port host ≡ false) × (has_port (with_port host port) ≡ true))
      × (has_port (bracketed host) ≡ false)
      × (has_port (with_port (bracketed host) port) ≡ true)
      × (1 < count ℕ_discrete colon host → has_port host ≡ false)
unfolding has_port count
has_port_lem host port h p no_colon = (
  λ plain. (
    ground (arith, has_port-plain host h.no_opening),
    ground (
      arith,
      has_port-plain (with_port host port) (
          Lacks-append opening host (colon ∷ port) h.no_opening
            (Lacks-cons opening colon port (λ e. ground arith) p.no_opening)),
      count-append ℕ_discrete colon host (colon ∷ port),
    ),
  ),
  has_port-bracketed host h,
  has_port-with_port-bracketed host port h p no_colon,
  λ many. ground (arith, has_port-plain host h.no_opening),
)
