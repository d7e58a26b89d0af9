-- ===== src/Suspicion/Confirms.antt =====
-- What `Confirm` keeps and changes.
use Prim.Native.String.{String}
use mlist.Prelude.{
  ℕ, ◌≤◌, ◌≡◌, ◌⊎◌, inr, refl, arith, ltb, ◌∷◌, true, false, ◌&&◌, ◌==◌, length, count,
}
use mlist.Prelude.Maps.{str_dec}
use mlist.Suspicion.{Floats, Suspicion, TimeoutFn, new_suspicion, confirm}

-- A confirmation never changes what the timer will do.
pub confirm-timeout_fn :
    {F : Type 0} (fl : Floats F) (s : Suspicion) (from : String) (now : ℕ)
    → (confirm fl s from now).suspicion.timeout_fn ≡ s.timeout_fn
unfolding confirm
confirm-timeout_fn fl s from now = ground arith

-- A confirmation is taken exactly if fewer than the cap have come and its sender is new; it is then
-- added, and otherwise the suspicion is left as it was and no timeout starts.
confirm-fresh :
    {F : Type 0} (fl : Floats F) (s : Suspicion) (from : String) (now : ℕ)
    → let r = confirm fl s from now in
      (r.fresh
        ≡ (ltb (length s.confirm_map) s.confirm_cap && (count str_dec from s.confirm_map == 0)))
      × (((r.fresh ≡ true) × (r.suspicion.confirm_map ≡ from ∷ s.confirm_map))
          ⊎ ((r.fresh ≡ false) × (r.suspicion ≡ s) × (r.timed_out ≡ false)))
unfolding confirm
confirm-fresh fl s from now = (ground arith, ground arith)

-- Each sender is counted once, and there are never more confirmations than the cap, or one.
pub record IsCounted (s : Suspicion) : Type 0 where
  pub once : (from : String) → count str_dec from s.confirm_map ≤ 1
  pub capped : (length s.confirm_map ≤ s.confirm_cap) ⊎ (length s.confirm_map ≡ 1)

new_suspicion-IsCounted :
    (now min_timeout max_timeout confirm_cap : ℕ) (from : String) (fn : TimeoutFn)
    → IsCounted (new_suspicion now min_timeout max_timeout confirm_cap from fn)
unfolding new_suspicion count
new_suspicion-IsCounted now min_timeout max_timeout confirm_cap from fn = record {
  once = λ j. ground arith;
  capped = inr refl;
}

-- A confirmation keeps the count: each sender once, and never more than the cap, or one.
confirm-IsCounted :
    {F : Type 0} (fl : Floats F) (s : Suspicion) (from : String) (now : ℕ)
    → IsCounted s
    → IsCounted (confirm fl s from now).suspicion
unfolding confirm count
confirm-IsCounted fl s from now h = record {
  once = λ j. ground (arith, h.once j, h.once from);
  capped = ground (arith, h.capped);
}
