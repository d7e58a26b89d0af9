-- ===== src/Suspicion.antt =====
-- suspicion.go: the timer that turns a suspected node into a dead one, and its confirmations.
-- A time is a number of nanoseconds. `confirmMap` is the list of its keys, which is never empty.
-- `confirmCap` is `SuspicionMult - 1` or 1; a cap of 0 or less acts as 0, since a suspicion starts
-- with one confirmation. The arithmetic of `float64` is the parameter `Floats`.
pub mod Timing
pub mod Confirms
use Prim.Native.String.{String}
use mlist.Prelude.{
  ℕ, zero, suc, ◌+◌, ◌*◌, List, [], ◌∷◌, Bool, true, false, ltb, leb, if◌then◌else◌, length, count,
}
use mlist.Prelude.Maps.{str_dec}
use mlist.Prelude.Int.{ℤ, pos, pos_part, negsuc, ◌-ℤ◌, ltb_ℤ}

-- What `remainingTime` uses of `float64`; `floor_ms x` is `int64(math.Floor(1000.0 * x))`.
pub record Floats (F : Type 0) : Type 0 where
  pub log : ℕ → F
  pub quotient : F → F → F
  pub product : F → F → F
  pub difference : F → F → F
  pub seconds : ℕ → F
  pub floor_ms : F → ℤ

-- A `*time.Timer`: it will fire at a time, or it has fired or was stopped.
pub data Timer : Type 0 where
  armed : ℕ → Timer
  idle : Timer

-- The variables that the closure given to `newSuspicion` keeps.
pub record TimeoutFn : Type 0 where
  pub id : String
  pub lives : ℕ

pub record Suspicion : Type 0 where
  pub min_timeout : ℕ
  pub max_timeout : ℕ
  pub confirm_cap : ℕ
  pub confirm_map : List String
  pub start : ℕ
  pub timer : Timer
  pub timeout_fn : TimeoutFn

unfoldable pub new_suspicion : ℕ → ℕ → ℕ → ℕ → String → TimeoutFn → Suspicion
new_suspicion now min_timeout max_timeout confirm_cap from fn =
    let timeout = if leb confirm_cap 1 then min_timeout else max_timeout in
    record {
      min_timeout = min_timeout;
      max_timeout = max_timeout;
      confirm_cap = confirm_cap;
      confirm_map = from ∷ [];
      start = now;
      timer = armed (now + timeout);
      timeout_fn = fn;
    }

-- `time.Millisecond` is a million nanoseconds.
abbrev of_ms : ℤ → ℤ
of_ms (pos n) = pos (n * 1000000)
of_ms (negsuc n) = pos 0 -ℤ pos (suc n * 1000000)

-- The result of `Confirm`: the suspicion, its return value, and whether `go s.timeoutFn()` ran.
pub record Confirmed : Type 0 where
  pub suspicion : Suspicion
  pub fresh : Bool
  pub timed_out : Bool

-- `s.timer.Stop()`, and what follows it.
abbrev rearm : Suspicion → ℕ → ℤ → Timer → Confirmed
rearm s now remaining idle = record { suspicion = s; fresh = true; timed_out = false }
rearm s now remaining (armed _) =
    if ltb_ℤ (pos 0) remaining
    then record {
      suspicion = record s { timer = armed (now + pos_part remaining) };
      fresh = true;
      timed_out = false;
    }
    else record { suspicion = record s { timer = idle }; fresh = true; timed_out = true }

module _ {F : Type 0} (fl : Floats F) where
  open fl use {log, quotient, product, difference, seconds, floor_ms}

  -- What `remainingTime` computes with logarithms, in nanoseconds.
  unfoldable pub scaled_timeout : Suspicion → ℤ
  scaled_timeout s =
      let f = quotient (log (length s.confirm_map)) (log s.confirm_cap) in
      let max_min_diff = difference (seconds s.max_timeout) (seconds s.min_timeout) in
      of_ms (floor_ms (difference (seconds s.max_timeout) (product f max_min_diff)))

  -- `time.Since` is monotonic, so `now` is not before `s.start`.
  unfoldable pub remaining_time : Suspicion → ℕ → ℤ
  remaining_time s now =
      let elapsed = pos now -ℤ pos s.start in
      if leb s.confirm_cap (length s.confirm_map)
      then pos s.min_timeout -ℤ elapsed
      else scaled_timeout s -ℤ elapsed

  unfoldable pub confirm : Suspicion → String → ℕ → Confirmed
  confirm s from now =
      if leb s.confirm_cap (length s.confirm_map)
      then record { suspicion = s; fresh = false; timed_out = false }
      else if ltb 0 (count str_dec from s.confirm_map)
      then record { suspicion = s; fresh = false; timed_out = false }
      else let t = record s { confirm_map = from ∷ s.confirm_map } in
        rearm t now (remaining_time t now) t.timer
