-- ===== src/Maintenance/Sweep.antt =====
-- maintenance.go: the in-place partition of `swapExpiredToEnd`, and util.go: the shuffle.
use mlist.Prelude.{
  ℕ, zero, suc, ◌+◌, ◌%◌, ◌≤◌, ◌<◌, ◌≡◌, refl, ◌∙◌, List, Bool, true, false, arith, ℕ_discrete,
  length, get_or, count, Bool-cases, inl, inr,
}
use mlist.Prelude.Slices.{swap, count-swap, length-swap, get_or-swap}
use mlist.Members.Types.{Memberlist}
use mlist.Maintenance.Types.{sweep, shuffle_nodes, swap_expired_to_end, is_expired}

module _ (expired : ℕ → Bool) where
  -- Kept entries stand before `lo`, expired ones from `hi` on.
  pub record IsSplit (nodes : List ℕ) (lo hi : ℕ) : Type 0 where
    pub fits : hi ≤ length nodes
    pub kept : (q : ℕ) → q < lo → q < length nodes → expired (get_or nodes q 0) ≡ false
    pub gone : (q : ℕ) → hi ≤ q → q < length nodes → expired (get_or nodes q 0) ≡ true

  swap-IsSplit :
      (nodes : List ℕ) (i d : ℕ)
      → IsSplit nodes i (i + suc d)
      → expired (get_or nodes i 0) ≡ true
      → IsSplit (swap nodes i (i + d)) i (i + d)
  swap-IsSplit nodes i d s e =
      let fits = s.fits in
      let len = length-swap nodes i (i + d) in
      record {
        fits = omega arith;
        kept = λ q lt h. ground (
          arith,
          get_or-swap nodes i (i + d) q (omega arith) (omega arith),
          s.kept q (omega arith) (omega arith),
        );
        gone = λ q le h.
            ground (arith, get_or-swap nodes i (i + d) q (omega arith) (omega arith), s.gone q);
      }

  step-IsSplit :
      (nodes : List ℕ) (i d : ℕ)
      → IsSplit nodes i (i + suc d)
      → expired (get_or nodes i 0) ≡ false
      → IsSplit nodes (i + 1) (i + 1 + d)
  step-IsSplit nodes i d s e = record {
    fits = let fits = s.fits in omega arith;
    kept = λ q lt h. elim (ℕ_discrete q i) [
      | yes here ↦ ground arith
      | no there ↦ s.kept q (omega arith) h
    ];
    gone = λ q le h. s.gone q (omega arith) h;
  }

  sweep-IsSplit :
      (d : ℕ) (nodes : List ℕ) (i : ℕ)
      → IsSplit nodes i (i + d)
      → IsSplit (sweep expired d nodes i).0 (sweep expired d nodes i).1 (sweep expired d nodes i).1
  unfolding sweep
  sweep-IsSplit zero nodes i s = record {
    fits = let fits = s.fits in omega arith;
    kept = s.kept;
    gone = λ q le h. s.gone q (omega arith) h;
  }
  sweep-IsSplit (suc d) nodes i s = elim (Bool-cases (expired (get_or nodes i 0))) [
    | inl e ↦ rw (e, sweep) (sweep-IsSplit d (swap nodes i (i + d)) i (swap-IsSplit nodes i d s e))
    | inr e ↦ rw (e, sweep) (sweep-IsSplit d nodes (i + 1) (step-IsSplit nodes i d s e))
  ]

  count-sweep :
      (x d : ℕ) (nodes : List ℕ) (i : ℕ)
      → i + d ≤ length nodes
      → count ℕ_discrete x (sweep expired d nodes i).0 ≡ count ℕ_discrete x nodes
  unfolding sweep
  count-sweep x zero nodes i h = refl
  count-sweep x (suc d) nodes i h = elim (Bool-cases (expired (get_or nodes i 0))) [
    | inl e ↦
        rw (e, sweep)
          (count-sweep x d (swap nodes i (i + d)) i (omega (arith, length-swap nodes i (i + d)))
            ∙ count-swap x nodes i (i + d) (omega arith) (omega arith))
    | inr e ↦ rw (e, sweep) (count-sweep x d nodes (i + 1) (omega arith))
  ]

pub count-shuffle_nodes :
    (x : ℕ) (draw : ℕ → ℕ) (n : ℕ) (nodes : List ℕ)
    → n ≤ length nodes
    → count ℕ_discrete x (shuffle_nodes draw n nodes) ≡ count ℕ_discrete x nodes
unfolding shuffle_nodes
count-shuffle_nodes x draw zero nodes h = refl
count-shuffle_nodes x draw (suc i) nodes h =
    let len = length-swap nodes i (draw i % suc i) in
    count-shuffle_nodes x draw i (swap nodes i (draw i % suc i)) (omega arith)
    ∙ count-swap x nodes i (draw i % suc i) (omega arith) (omega arith)

pub length-shuffle_nodes :
    (draw : ℕ → ℕ) (n : ℕ) (nodes : List ℕ) → length (shuffle_nodes draw n nodes) ≡ length nodes
unfolding shuffle_nodes
length-shuffle_nodes draw zero nodes = refl
length-shuffle_nodes draw (suc i) nodes =
    length-shuffle_nodes draw i (swap nodes i (draw i % suc i))
    ∙ length-swap nodes i (draw i % suc i)

-- `swapExpiredToEnd` rearranges the nodes so that none of those before the index that it returns is
-- expired, and all from that index on are.
pub swap_expired_to_end-IsSplit :
    (m : Memberlist) (timeout now : ℕ)
    → IsSplit
        (is_expired m timeout now)
        (swap_expired_to_end m timeout now).0
        (swap_expired_to_end m timeout now).1
        (swap_expired_to_end m timeout now).1
      × ((x : ℕ)
          → count ℕ_discrete x (swap_expired_to_end m timeout now).0 ≡ count ℕ_discrete x m.nodes)
unfolding swap_expired_to_end
swap_expired_to_end-IsSplit m timeout now = (
  sweep-IsSplit (is_expired m timeout now) (length m.nodes) m.nodes 0 (record {
    fits = omega arith;
    kept = λ q lt h. absurd (omega arith);
    gone = λ q le h. absurd (omega arith);
  }),
  λ x. count-sweep (is_expired m timeout now) x (length m.nodes) m.nodes 0 (omega arith),
)
