-- ===== src/Suspicion/Timing.antt =====
-- suspicion.go: when the timer of a suspicion fires.
use Prim.Native.String.{String}
use mlist.Prelude.{ℕ, ◌+◌, ◌≤◌, ◌≡◌, arith, ltb, true, false, not, if◌then◌else◌, length, count}
use mlist.Prelude.Maps.{str_dec}
use mlist.Prelude.Int.{◌-ℤ◌}
use mlist.Suspicion.{Floats, Suspicion, armed, idle, remaining_time, confirm}

-- A confirmation that reaches the cap, while the timer runs, is taken; it sets the timer to the shortest
-- timeout after the start, or, if that time has come, stops the timer and runs the timeout function.
pub confirm-min_timeout :
    {F : Type 0} (fl : Floats F) (s : Suspicion) (from : String) (now due : ℕ)
    → s.timer ≡ armed due
    → s.start ≤ now
    → length s.confirm_map + 1 ≡ s.confirm_cap
    → count str_dec from s.confirm_map ≡ 0
    → let r = confirm fl s from now in
      let early = ltb now (s.start + s.min_timeout) in
      (r.fresh ≡ true)
      × (r.suspicion.timer ≡ (if early then armed (s.start + s.min_timeout) else idle))
      × (r.timed_out ≡ not early)
unfolding confirm remaining_time ◌-ℤ◌
confirm-min_timeout fl s from now due t le last new = ground arith

-- Once the timer has fired or was stopped, no confirmation starts it or the timeout function again.
confirm-idle :
    {F : Type 0} (fl : Floats F) (s : Suspicion) (from : String) (now : ℕ)
    → s.timer ≡ idle
    → let r = confirm fl s from now in (r.suspicion.timer ≡ idle) × (r.timed_out ≡ false)
unfolding confirm
confirm-idle fl s from now t = ground arith
