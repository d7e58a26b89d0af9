-- ===== src/PushPull/Limit.antt =====
-- net_handlers.go: the counter `numPushPull` of `handlePushPull`. A step is one atomic addition, in any
-- order among the handlers; `accepted` and `refused` count the handlers that are between theirs.
use mlist.Prelude.{ℕ, ◌+◌, ◌-◌, ◌%◌, ◌≤◌, ◌<◌, ◌≡◌, refl, arith}

pub record Pending : Type 0 where
  pub num_push_pull : ℕ
  pub accepted : ℕ
  pub refused : ℕ

-- `atomic.AddUint32(&m.numPushPull, 1)`
unfoldable pub add_pending : ℕ → ℕ
add_pending n = (n + 1) % 4294967296

-- `atomic.AddUint32(&m.numPushPull, ^uint32(0))`
unfoldable pub sub_pending : ℕ → ℕ
sub_pending n = (n + 4294967295) % 4294967296

abbrev pub accept : Pending → Pending
accept s = record s { num_push_pull = add_pending s.num_push_pull; accepted = s.accepted + 1 }

abbrev pub refuse : Pending → Pending
refuse s = record s { num_push_pull = add_pending s.num_push_pull; refused = s.refused + 1 }

abbrev pub end_accepted : Pending → Pending
end_accepted s = record s { num_push_pull = sub_pending s.num_push_pull; accepted = s.accepted - 1 }

abbrev pub end_refused : Pending → Pending
end_refused s = record s { num_push_pull = sub_pending s.num_push_pull; refused = s.refused - 1 }

-- There are fewer handlers than a `uint32` counts.
abbrev pub HasRoom : Pending → Type 0
HasRoom s = s.accepted + s.refused + 1 < 4294967296

-- `nPP >= uint32(m.config.MaxPushPulls)` refuses.
pub data Step : ℕ → Pending → Pending → Type 0 where
  accepts :
      {max : ℕ} (s : Pending)
      → HasRoom s
      → add_pending s.num_push_pull < max
      → Step max s (accept s)
  refuses :
      {max : ℕ} (s : Pending)
      → HasRoom s
      → max ≤ add_pending s.num_push_pull
      → Step max s (refuse s)
  ends_accepted : {max : ℕ} (s : Pending) → 0 < s.accepted → Step max s (end_accepted s)
  ends_refused : {max : ℕ} (s : Pending) → 0 < s.refused → Step max s (end_refused s)

abbrev pub none_pending : Pending
none_pending = record { num_push_pull = 0; accepted = 0; refused = 0 }

pub data Reachable : ℕ → Pending → Type 0 where
  start : {max : ℕ} → Reachable max none_pending
  after : {max : ℕ} {s s' : Pending} → Reachable max s → Step max s s' → Reachable max s'

-- The counter counts the handlers, and the limit exceeds those that were accepted.
pub record IsLimited (max : ℕ) (s : Pending) : Type 0 where
  pub counts : s.num_push_pull ≡ s.accepted + s.refused
  pub small : s.accepted + s.refused < 4294967296
  pub limited : s.accepted ≤ max - 1

Step-IsLimited : {max : ℕ} {s s' : Pending} → Step max s s' → IsLimited max s → IsLimited max s'
unfolding add_pending sub_pending
Step-IsLimited (accepts s room low) h = record {
  counts = omega (arith, h.counts);
  small = omega arith;
  limited = omega (arith, h.counts);
}
Step-IsLimited (refuses s room high) h = record {
  counts = omega (arith, h.counts);
  small = omega arith;
  limited = h.limited;
}
Step-IsLimited (ends_accepted s some_left) h = record {
  counts = omega (arith, h.counts, h.small);
  small = omega (arith, h.small);
  limited = omega (arith, h.limited);
}
Step-IsLimited (ends_refused s some_left) h = record {
  counts = omega (arith, h.counts, h.small);
  small = omega (arith, h.small);
  limited = h.limited;
}

-- However the handlers of push/pulls come and go, fewer than 2 ^ 32 at a time: the counter is the
-- number of those that run, refused ones included, so that it is 0 again when all have ended, and
-- always fewer than `MaxPushPulls` have been accepted (none, if it is 0).
pub Reachable-IsLimited : {max : ℕ} {s : Pending} → Reachable max s → IsLimited max s
Reachable-IsLimited start = record { counts = refl; small = omega arith; limited = omega arith }
Reachable-IsLimited (after r st) = Step-IsLimited st (Reachable-IsLimited r)
