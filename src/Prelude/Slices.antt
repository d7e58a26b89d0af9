-- ===== src/Prelude/Slices.antt =====
-- Exchanges in a Go slice of addresses, and what they keep: the length, and how often each entry
-- occurs.
use mlist.Prelude.{
  ℕ, zero, suc, ◌+◌, ◌≤◌, ◌<◌, ◌≡◌, refl, subst, ap, ◌∙◌, sym, List, [], ◌∷◌, ite, arith,
  ℕ_discrete, length, length-set, get_or, set, take, drop, take-append-drop, count, count-append,
}

-- `xs[i], xs[j] = xs[j], xs[i]`, for indices in range.
unfoldable pub swap : List ℕ → ℕ → ℕ → List ℕ
swap xs i j = set (set xs i (get_or xs j 0)) j (get_or xs i 0)

abbrev hit : ℕ → ℕ → ℕ
hit x y = ite (ℕ_discrete x y) 1 0

count-set :
    (x : ℕ) (xs : List ℕ) (i v : ℕ)
    → i < length xs
    → count ℕ_discrete x (set xs i v) + hit x (get_or xs i 0) ≡ count ℕ_discrete x xs + hit x v
unfolding count
count-set x [] i v h = elim h [ ]
count-set x (y ∷ ys) zero v h = ground arith
count-set x (y ∷ ys) (suc i) v h = ground (arith, count-set x ys i v (omega arith))

get_or-set :
    (xs : List ℕ) (i j : ℕ) → i < length xs → get_or (set xs i (get_or xs j 0)) j 0 ≡ get_or xs j 0
get_or-set [] i j h = elim h [ ]
get_or-set (x ∷ xs) zero zero h = refl
get_or-set (x ∷ xs) zero (suc j) h = refl
get_or-set (x ∷ xs) (suc i) zero h = refl
get_or-set (x ∷ xs) (suc i) (suc j) h = get_or-set xs i j (omega arith)

get_or-set_at :
    (xs : List ℕ) (i q v : ℕ)
    → i < length xs
    → get_or (set xs i v) q 0 ≡ ite (ℕ_discrete q i) v (get_or xs q 0)
get_or-set_at [] i q v h = elim h [ ]
get_or-set_at (x ∷ xs) zero zero v h = ground arith
get_or-set_at (x ∷ xs) zero (suc q) v h = ground arith
get_or-set_at (x ∷ xs) (suc i) zero v h = ground arith
get_or-set_at (x ∷ xs) (suc i) (suc q) v h = ground (arith, get_or-set_at xs i q v (omega arith))

pub count-swap :
    (x : ℕ) (xs : List ℕ) (i j : ℕ)
    → i < length xs
    → j < length xs
    → count ℕ_discrete x (swap xs i j) ≡ count ℕ_discrete x xs
unfolding swap
count-swap x xs i j hi hj =
    let b = get_or xs j 0 in
    let once = count-set x xs i b hi in
    let twice = count-set x (set xs i b) j (get_or xs i 0) (omega (arith, length-set xs i b)) in
    let same : hit x (get_or (set xs i b) j 0) ≡ hit x b = ap (hit x) (get_or-set xs i j hi) in
    omega arith

pub length-swap : (xs : List ℕ) (i j : ℕ) → length (swap xs i j) ≡ length xs
unfolding swap
length-swap xs i j =
    length-set (set xs i (get_or xs j 0)) j (get_or xs i 0) ∙ length-set xs i (get_or xs j 0)

pub get_or-swap :
    (xs : List ℕ) (i j q : ℕ)
    → i < length xs
    → j < length xs
    → get_or (swap xs i j) q 0
      ≡ ite (ℕ_discrete q j) (get_or xs i 0) (ite (ℕ_discrete q i) (get_or xs j 0) (get_or xs q 0))
unfolding swap
get_or-swap xs i j q hi hj = ground (
  arith,
  get_or-set_at (set xs i (get_or xs j 0)) j q (get_or xs i 0),
  get_or-set_at xs i q (get_or xs j 0),
  length-set xs i (get_or xs j 0),
)

-- What holds of the entries before an index holds of the addresses that occur there.
pub take_entries {ℓ} :
    (P : ℕ → Type ℓ) (xs : List ℕ) (k x : ℕ)
    → ((q : ℕ) → q < k → q < length xs → P (get_or xs q 0))
    → 0 < count ℕ_discrete x (take k xs)
    → P x
unfolding count
take_entries P xs zero x all h = elim h [ ]
take_entries P [] (suc k) x all h = elim h [ ]
take_entries P (y ∷ xs) (suc k) x all h = elim (ℕ_discrete x y) [
  | yes e ↦ subst P (sym e) (all 0 (omega arith) (omega arith))
  | no ne ↦
      take_entries P xs k x (λ q lt len. all (suc q) (omega arith) (omega arith)) (ground arith)
]

-- So too of those from an index on.
pub drop_entries {ℓ} :
    (P : ℕ → Type ℓ) (xs : List ℕ) (k x : ℕ)
    → ((q : ℕ) → k ≤ q → q < length xs → P (get_or xs q 0))
    → 0 < count ℕ_discrete x (drop k xs)
    → P x
unfolding count
drop_entries P [] zero x all h = elim h [ ]
drop_entries P [] (suc k) x all h = elim h [ ]
drop_entries P (y ∷ xs) zero x all h = elim (ℕ_discrete x y) [
  | yes e ↦ subst P (sym e) (all 0 (omega arith) (omega arith))
  | no ne ↦
      drop_entries P xs zero x (λ q le len. all (suc q) (omega arith) (omega arith)) (ground arith)
]
drop_entries P (y ∷ xs) (suc k) x all h =
    drop_entries P xs k x (λ q le len. all (suc q) (omega arith) (omega arith)) h

pub count-take-drop :
    (x : ℕ) (k : ℕ) (xs : List ℕ)
    → count ℕ_discrete x (take k xs) + count ℕ_discrete x (drop k xs) ≡ count ℕ_discrete x xs
count-take-drop x k xs =
    sym (count-append ℕ_discrete x (take k xs) (drop k xs))
    ∙ ap (count ℕ_discrete x) (take-append-drop k xs)
