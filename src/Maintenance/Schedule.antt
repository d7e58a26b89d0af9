-- ===== src/Maintenance/Schedule.antt =====
-- maintenance.go: `scheduleFunc` and `scheduleFuncWithScale`, and `pushPullScale` of pushpull.go. A time is
-- nanoseconds; `rnd` is `rand.Int63()`, and a list has how long each call of the function takes.
use mlist.Prelude.{
  ℕ, ◌+◌, ◌*◌, ◌-◌, ◌%◌, ◌/◌, ◌≤◌, ◌<◌, ◌≡◌, refl, ap, List, [], ◌∷◌, arith, leb, max,
  if◌then◌else◌,
}

-- The random fraction of the interval.
abbrev pub jitter : ℕ → ℕ → ℕ
jitter rnd interval = rnd % interval

-- The tick after the one that is taken at a time. The channel holds one tick, and those that find it full
-- are dropped.
abbrev pub next_tick : ℕ → ℕ → ℕ → ℕ
next_tick interval tick at = tick + ((at - tick) / interval + 1) * interval

-- The loop, from a time at which it is ready on, with the time of the next tick: the times of the calls.
unfoldable pub on_ticks : ℕ → ℕ → ℕ → List ℕ → List ℕ
on_ticks interval ready tick [] = []
on_ticks interval ready tick (took ∷ more) =
    let at = max ready tick in at ∷ on_ticks interval (at + took) (next_tick interval tick at) more

-- The ticker starts before the random wait.
unfoldable pub schedule_func : ℕ → ℕ → ℕ → List ℕ → List ℕ
unfolding on_ticks
schedule_func start interval rnd took =
    on_ticks interval (start + jitter rnd interval) (start + interval) took

-- The loop on `time.After`, with the number of nodes of each round and how long its call takes.
unfoldable pub after_each : (ℕ → ℕ → ℕ) → ℕ → ℕ → List (ℕ × ℕ) → List ℕ
after_each scale interval ready [] = []
after_each scale interval ready ((nodes, took) ∷ more) =
    let at = ready + scale interval nodes in at ∷ after_each scale interval (at + took) more

unfoldable pub schedule_func_with_scale : (ℕ → ℕ → ℕ) → ℕ → ℕ → ℕ → List (ℕ × ℕ) → List ℕ
unfolding after_each
schedule_func_with_scale scale start interval rnd rounds =
    after_each scale interval (start + jitter rnd interval) rounds

abbrev pub push_pull_scale_threshold : ℕ
push_pull_scale_threshold = 32

-- `steps n` is `math.Ceil(math.Log2(float64(n)) - math.Log2(32))`.
unfoldable pub push_pull_scale : (ℕ → ℕ) → ℕ → ℕ → ℕ
push_pull_scale steps interval n =
    if leb n push_pull_scale_threshold then interval else (steps n + 1) * interval

-- The calls at each multiple of the interval after the start.
abbrev pub multiples : ℕ → ℕ → List ℕ → List ℕ
multiples tick interval [] = []
multiples tick interval (took ∷ more) = tick ∷ multiples (tick + interval) interval more

-- Each call takes less than the interval, so that no tick is missed.
abbrev pub AllShort : ℕ → List ℕ → Type 0
AllShort interval [] = Unit
AllShort interval (took ∷ more) = (took < interval) × AllShort interval more

on_ticks-eq :
    (interval ready tick : ℕ) (took : List ℕ)
    → ready ≤ tick
    → AllShort interval took
    → on_ticks interval ready tick took ≡ multiples tick interval took
unfolding on_ticks
on_ticks-eq interval ready tick [] le short = refl
on_ticks-eq interval ready tick (d ∷ ds) le short =
    let at : max ready tick ≡ tick = omega arith in
    let next : next_tick interval tick tick ≡ tick + interval = omega arith in
    rw (at, next)
      (ap (◌∷◌ tick) (on_ticks-eq interval (tick + d) (tick + interval) ds (omega arith) short.1))

-- The random wait of `scheduleFunc` has no effect: whatever is drawn, the function is called at each
-- multiple of the interval after the start, if each call takes less than the interval.
pub schedule_func-multiples :
    (start interval rnd : ℕ) (took : List ℕ)
    → 0 < interval
    → AllShort interval took
    → schedule_func start interval rnd took ≡ multiples (start + interval) interval took
unfolding schedule_func
schedule_func-multiples start interval rnd took positive short =
    on_ticks-eq interval (start + jitter rnd interval) (start + interval) took (grind arith) short

-- The calls of `scheduleFuncWithScale` after a time, each at least the interval after the end of the one
-- before it.
abbrev pub Apart : ℕ → ℕ → List (ℕ × ℕ) → List ℕ → Type 0
Apart interval ready [] calls = calls ≡ []
Apart interval ready ((nodes, took) ∷ more) calls =
    (at : ℕ) × (rest : List ℕ) × (calls ≡ at ∷ rest)
    × (ready + interval ≤ at)
    × Apart interval (at + took) more rest

push_pull_scale-ge : (steps : ℕ → ℕ) (interval n : ℕ) → interval ≤ push_pull_scale steps interval n
unfolding push_pull_scale
push_pull_scale-ge steps interval n = ground arith

after_each-Apart :
    (steps : ℕ → ℕ) (interval ready : ℕ) (rounds : List (ℕ × ℕ))
    → Apart interval ready rounds (after_each (push_pull_scale steps) interval ready rounds)
unfolding after_each
after_each-Apart steps interval ready [] = refl
after_each-Apart steps interval ready ((nodes, took) ∷ more) =
    let at = ready + push_pull_scale steps interval nodes in
    (
      at,
      after_each (push_pull_scale steps) interval (at + took) more,
      refl,
      omega (arith, push_pull_scale-ge steps interval nodes),
      after_each-Apart steps interval (at + took) more,
    )
