-- ===== src/Members/Refute.antt =====
-- state.go: the loop of `refute`, which draws life numbers until one is above the one refuted.
use mlist.Prelude.{
  ℕ, zero, suc, ◌+◌, ◌≤◌, ◌<◌, ◌≡◌, refl, ap, ◌∙◌, Bool, none, some, arith, leb, Option-cases,
  Bool-cases, inl, inr,
}
use mlist.Suspicion.{Floats}
use mlist.Members.Types.{Suspect, Dead, Config, Memberlist, state_alive}
use mlist.Members.Handlers.{
  next_live_no, refute_loop, refute, refuted, suspect_known, suspect_node, dead_known, dead_node,
  uint32_max,
}

next_live_no-le : (l : ℕ) → next_live_no l ≤ uint32_max
unfolding next_live_no
next_live_no-le l = omega arith

refute_loop_total :
    (fuel lives l : ℕ)
    → lives < uint32_max
    → l ≤ uint32_max
    → lives < l + fuel
    → (r : ℕ) × (refute_loop fuel lives l ≡ some r) × (lives < r) × (r ≤ uint32_max)
unfolding refute_loop
refute_loop_total zero lives l h u f = (l, ground arith, omega arith, u)
refute_loop_total (suc fuel) lives l h u f = elim (Bool-cases (leb l lives)) [
  | inl low ↦
      let next : next_live_no l ≡ l + 1 = unfold next_live_no in ground arith in
      let (r, run, above, fits) =
        refute_loop_total fuel lives (next_live_no l) h (next_live_no-le l) (ground arith) in
      (r, rw low run, above, fits)
  | inr high ↦ (l, rw high refl, ground arith, u)
]

-- For a life number below the largest `uint32`, the loop of `refute` ends within the model's fuel,
-- whatever the counter was, with a `uint32` above that life number.
refute_loop-terminates :
    (lives counter : ℕ)
    → lives < uint32_max
    → (r : ℕ) × (refute_loop (suc lives) lives (next_live_no counter) ≡ some r)
      × (lives < r)
      × (r ≤ uint32_max)
refute_loop-terminates lives counter h =
    refute_loop_total (suc lives) lives (next_live_no counter) h (next_live_no-le counter)
      (omega arith)

-- Against the largest `uint32` the loop of `refute` never ends: no number of rounds is enough.
pub refute_loop-diverges :
    (fuel counter : ℕ) → refute_loop fuel uint32_max (next_live_no counter) ≡ none
unfolding refute_loop
refute_loop-diverges zero counter = ground (arith, next_live_no-le counter)
refute_loop-diverges (suc fuel) counter =
    ground (arith, next_live_no-le counter, refute_loop-diverges fuel (next_live_no counter))

refute_total :
    (p lives : ℕ) (m : Memberlist)
    → lives < uint32_max
    → (l : ℕ) × (refute p lives m ≡ some (refuted l p m)) × (lives < l)
unfolding refute
refute_total p lives m h =
    let (l, run, above, _) = refute_loop-terminates lives m.lives h in (l, ground arith, above)

-- `suspectNode` returns for every message whose life number is below the largest `uint32`.
pub suspect_node-terminates :
    {F : Type 0} (fl : Floats F) (c : Config) (s : Suspect) (now : ℕ) (m : Memberlist)
    → s.lives < uint32_max
    → (m' : Memberlist) × (suspect_node fl c s now m ≡ some m')
unfolding suspect_node suspect_known
suspect_node-terminates fl c s now m h = elim (Option-cases (suspect_node fl c s now m)) [
  | inr r ↦ r
  | inl stuck ↦ absurd (elim (Option-cases (m.node_map s.id)) [
    | inl absent ↦ ground arith
    | inr (p, here) ↦ let (l, run, _) = refute_total p s.lives m h in ground arith
  ])
]

-- `deadNode` returns for every message whose life number is below the largest `uint32`.
pub dead_node-terminates :
    (c : Config) (d : Dead) (notify : Bool) (now : ℕ) (m : Memberlist)
    → d.lives < uint32_max
    → (m' : Memberlist) × (dead_node c d notify now m ≡ some m')
unfolding dead_node dead_known
dead_node-terminates c d notify now m h = elim (Option-cases (dead_node c d notify now m)) [
  | inr r ↦ r
  | inl stuck ↦ absurd (elim (Option-cases (m.node_map d.id)) [
    | inl absent ↦ ground arith
    | inr (p, here) ↦ let (l, run, _) = refute_total p d.lives m h in ground arith
  ])
]

refute_stuck : (p lives : ℕ) (m : Memberlist) → lives ≡ uint32_max → refute p lives m ≡ none
unfolding refute
refute_stuck p lives m e =
    let stuck : refute_loop (suc lives) lives (next_live_no m.lives) ≡ none =
      ap (λ k. refute_loop (suc lives) k (next_live_no m.lives)) e
      ∙ refute_loop-diverges (suc lives) m.lives in
    ground arith

-- A suspect message with the largest `uint32` as its life number, about this node while it is alive
-- and unsuspected, makes `suspectNode` loop for ever.
pub suspect_node-diverges :
    {F : Type 0} (fl : Floats F) (c : Config) (s : Suspect) (now : ℕ) (m : Memberlist) (p : ℕ)
    → m.node_map c.local_id ≡ some p
    → (m.store p).state ≡ state_alive
    → (m.store p).lives ≤ uint32_max
    → m.suspicions c.local_id ≡ none
    → s.id ≡ c.local_id
    → s.lives ≡ uint32_max
    → suspect_node fl c s now m ≡ none
unfolding suspect_node suspect_known
suspect_node-diverges fl c s now m p here alive fits calm same_id max =
    ground (arith, refute_stuck p s.lives m max)
