-- ===== src/Awareness.antt =====
-- awareness.go: the local health score, from 0 (healthy) to `max - 1`, which stretches timeouts.
-- `int` and `time.Duration` are unbounded integers: the score stays below `max`.
use mlist.Prelude.{Bool-cases, inl, inr, ℕ, ◌*◌, ◌≤◌, ◌≡◌, ◌⊎◌, refl, arith, if◌then◌else◌}
use mlist.Prelude.Int.{ℤ, pos, ◌+ℤ◌, ◌-ℤ◌, ◌≤ℤ◌, ltb_ℤ, pos_part}

pub record Awareness : Type 0 where
  pub health : ℤ
  pub max : ℤ

unfoldable pub new_awareness : ℤ → Awareness
new_awareness max = record { health = pos 0; max = max }

abbrev clamp : ℤ → ℤ → ℤ
clamp max h = if ltb_ℤ h (pos 0) then pos 0 else if ltb_ℤ (max -ℤ pos 1) h then max -ℤ pos 1 else h

unfoldable pub punish : Awareness → ℤ → Awareness
unfolding ◌+ℤ◌ ◌-ℤ◌
punish a delta = record a { health = clamp a.max (a.health +ℤ delta) }

-- `time.Duration(h+1) * timeout`, for a score that is not negative.
unfoldable pub scale_timeout : Awareness → ℕ → ℕ
scale_timeout a timeout = pos_part (a.health +ℤ pos 1) * timeout

-- The score is between 0 and `max - 1`.
pub record IsHealthy (a : Awareness) : Type 0 where
  pub nonneg : pos 0 ≤ℤ a.health
  pub below_max : a.health +ℤ pos 1 ≤ℤ a.max

-- A new score is in range if `max` is at least 1.
pub new_awareness-IsHealthy : (max : ℤ) → pos 1 ≤ℤ max → IsHealthy (new_awareness max)
unfolding new_awareness ◌+ℤ◌
new_awareness-IsHealthy max h = ground arith

-- From a score in range, a change leaves `max` as it is and the score in range: it is the sum of the
-- score and the change, or the end of the range that the sum has passed.
pub punish-IsHealthy :
    (a : Awareness) (delta : ℤ)
    → IsHealthy a
    → let sum = a.health +ℤ delta in
      let a' = punish a delta in
      IsHealthy a'
      × (a'.max ≡ a.max)
      × (((a'.health ≡ sum) × (pos 0 ≤ℤ sum) × (sum +ℤ pos 1 ≤ℤ a.max))
          ⊎ (((a'.health ≡ pos 0) × (sum +ℤ pos 1 ≤ℤ pos 0))
              ⊎ ((a'.health ≡ a.max -ℤ pos 1) × (a.max ≤ℤ sum))))
unfolding punish ◌+ℤ◌ ◌-ℤ◌
punish-IsHealthy a delta h = elim (Bool-cases (ltb_ℤ (a.health +ℤ delta) (pos 0))) [
  | inl low ↦ (ground arith, refl, inr (inl (ground arith, ground arith)))
  | inr high ↦ elim (Bool-cases (ltb_ℤ (a.max -ℤ pos 1) (a.health +ℤ delta))) [
    | inl above ↦ (ground arith, refl, inr (inr (ground arith, ground arith)))
    | inr inside ↦ (ground arith, refl, inl (ground arith, ground arith, ground arith))
  ]
]

abbrev factor : Awareness → ℕ
factor a = pos_part (a.health +ℤ pos 1)

factor_bounds : (a : Awareness) → IsHealthy a → (1 ≤ factor a) × (factor a ≤ pos_part a.max)
unfolding ◌+ℤ◌
factor_bounds a h = ground arith

-- In range, a timeout is stretched by a factor between 1 and `max`.
scale_timeout_bounds :
    (a : Awareness) (timeout : ℕ)
    → IsHealthy a
    → (timeout ≤ scale_timeout a timeout) × (scale_timeout a timeout ≤ pos_part a.max * timeout)
unfolding scale_timeout
scale_timeout_bounds a timeout h = let b = factor_bounds a h in grind arith
