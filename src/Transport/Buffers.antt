-- ===== src/Transport/Buffers.antt =====
-- net_transport.go: `setUDPSocketBuf`. `accepts` is whether `SetReadBuffer` takes a size.
use mlist.Prelude.{
  ℕ, zero, suc, ◌+◌, ◌*◌, ◌/◌, ◌^◌, ◌≤◌, ◌<◌, ◌≡◌, inl, inr, refl, Bool, true, false, Option, none,
  some, arith, ◌==◌, if◌then◌else◌, dec_lt, Bool-cases,
}

abbrev pub udp_socket_buf_size : ℕ
udp_socket_buf_size = 2 * 1024 * 1024

module _ (accepts : ℕ → Bool) where
  -- The loop, with the size that is set at last, or `none` for the error.
  unfoldable pub halve : ℕ → ℕ → Option ℕ
  halve zero size = none
  halve (suc fuel) size =
      let rest = halve fuel (size / 2) in
      if size == 0 then none else if accepts size then some size else rest

  -- Twenty-two sizes from 2 MB to 1, and one round that finds 0.
  unfoldable pub set_udp_socket_buf : Option ℕ
  unfolding halve
  set_udp_socket_buf = halve 23 udp_socket_buf_size

  abbrev pub IsLargest : ℕ → Option ℕ → Type 0
  IsLargest top none = (j : ℕ) → j ≤ top → accepts (2 ^ j) ≡ false
  IsLargest top (some size) =
      (k : ℕ) × (k ≤ top)
      × (size ≡ 2 ^ k)
      × (accepts size ≡ true)
      × ((j : ℕ) → k < j → j ≤ top → accepts (2 ^ j) ≡ false)

pow_suc : (k : ℕ) → 2 ^ suc k ≡ 2 * 2 ^ k
pow_suc k = omega arith

pow_pos : (k : ℕ) → 0 < 2 ^ k
pow_pos zero = omega arith
pow_pos (suc k) = omega (arith, pow_suc k, pow_pos k)

module _ (accepts : ℕ → Bool) where
  -- One more size above those that were tried.
  IsLargest-suc :
      (k : ℕ) (r : Option ℕ)
      → accepts (2 ^ suc k) ≡ false
      → IsLargest accepts k r
      → IsLargest accepts (suc k) r
  IsLargest-suc k none refused h = λ j le. elim (dec_lt k j) [
    | yes top ↦ let e : j ≡ suc k = omega arith in rw e refused
    | no below ↦ h j (omega arith)
  ]
  IsLargest-suc k (some size) refused (i, le, e, taken, above) = (
    i,
    omega arith,
    e,
    taken,
    λ j lt le'. elim (dec_lt k j) [
      | yes top ↦ let e' : j ≡ suc k = omega arith in rw e' refused
      | no below ↦ above j lt (omega arith)
    ],
  )

  halve-IsLargest : (k fuel : ℕ) → k + 1 < fuel → IsLargest accepts k (halve accepts fuel (2 ^ k))
  unfolding halve
  halve-IsLargest k zero room = absurd (omega arith)
  halve-IsLargest zero (suc zero) room = absurd (omega arith)
  halve-IsLargest zero (suc (suc fuel)) room = elim (Bool-cases (accepts 1)) [
    | inl taken ↦ rw taken (0, omega arith, refl, taken, λ j lt le. absurd (omega arith))
    | inr refused ↦ rw refused (λ j le. let e : j ≡ 0 = omega arith in rw e refused)
  ]
  halve-IsLargest (suc k) (suc fuel) room =
      let half : 2 ^ suc k / 2 ≡ 2 ^ k = omega (arith, pow_suc k) in
      let nonzero : (2 ^ suc k == 0) ≡ false = ground (arith, pow_pos (suc k)) in
      elim (Bool-cases (accepts (2 ^ suc k))) [
        | inl taken ↦
            rw (nonzero, taken, halve)
              (suc k, omega arith, refl, taken, λ j lt le. absurd (omega arith))
        | inr refused ↦
            rw (nonzero, refused, half, halve)
              (IsLargest-suc k (halve accepts fuel (2 ^ k)) refused
                (halve-IsLargest k fuel (omega arith)))
      ]

  -- `setUDPSocketBuf` ends, and sets the largest size that the system takes of 2 MB and its halves down to
  -- one byte; it is an error exactly if the system refuses them all.
  pub set_udp_socket_buf-IsLargest : IsLargest accepts 21 (set_udp_socket_buf accepts)
  unfolding set_udp_socket_buf
  set_udp_socket_buf-IsLargest = halve-IsLargest 21 23 (omega arith)
