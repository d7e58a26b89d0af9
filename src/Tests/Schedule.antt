-- ===== src/Tests/Schedule.antt =====
-- Calls on a schedule.
use mlist.Prelude.{ℕ, ◌+◌, ◌≡◌, refl, List, [], ◌∷◌, arith}
use mlist.Maintenance.Schedule.{
  AllShort, multiples, schedule_func, on_ticks, schedule_func-multiples,
}

abbrev durations : List ℕ
durations = 3 ∷ 0 ∷ 9 ∷ 4 ∷ []

durations-AllShort : AllShort 10 durations
durations-AllShort = (omega arith, (omega arith, (omega arith, (omega arith, tt))))

schedule_func-multiples_example :
    schedule_func 100 10 57 durations ≡ multiples (100 + 10) 10 durations
schedule_func-multiples_example =
    schedule_func-multiples 100 10 57 durations (omega arith) durations-AllShort

-- A call that takes 25 leaves one tick waiting; the other one is dropped.
ticks_dropped : schedule_func 100 10 57 (25 ∷ 1 ∷ 1 ∷ []) ≡ 110 ∷ 135 ∷ 140 ∷ []
unfolding schedule_func on_ticks
ticks_dropped = refl
