-- ===== src/Maintenance/ProbeLaws.antt =====
-- maintenance.go: what comes of a probe.
use mlist.Prelude.{ℕ, ◌≡◌, refl, List, [], ◌∷◌, ◌++◌, true, false, some, arith}
use mlist.Prelude.Int.{pos, negsuc, ◌-ℤ◌}
use mlist.Suspicion.{Floats}
use mlist.Members.Types.{NodeState, Config, Memberlist}
use mlist.Members.Handlers.{suspect_node}
use mlist.Maintenance.Probe.{
  IndirectPingResult, Arrival, indirect_result, tcp_result, wait_timeout, wait_loop, no_result,
  healthier, probe_failed, probe_node,
}

-- What arrives before the timeout without success.
abbrev pub AllFailed : List Arrival → Type 0
AllFailed [] = Unit
AllFailed (indirect_result r ∷ later) = (r.success ≡ false) × AllFailed later
AllFailed (tcp_result b ∷ later) = (b ≡ false) × AllFailed later
AllFailed (wait_timeout ∷ later) = ⊥

-- The result of the last indirect ping among them.
abbrev pub last_result : List Arrival → IndirectPingResult → IndirectPingResult
last_result [] res = res
last_result (indirect_result r ∷ later) res = last_result later r
last_result (tcp_result b ∷ later) res = last_result later res
last_result (wait_timeout ∷ later) res = last_result later res

-- A successful reply.
abbrev pub IsSuccess : Arrival → Type 0
IsSuccess (indirect_result r) = r.success ≡ true
IsSuccess (tcp_result b) = b ≡ true
IsSuccess wait_timeout = ⊥

wait_loop-succeeds :
    (before after : List Arrival) (a : Arrival) (res : IndirectPingResult)
    → AllFailed before
    → IsSuccess a
    → (wait_loop (before ++ (a ∷ after)) res).0 ≡ true
unfolding wait_loop
wait_loop-succeeds [] after (indirect_result r) res h s = ground arith
wait_loop-succeeds [] after (tcp_result true) res h s = refl
wait_loop-succeeds [] after (tcp_result false) res h s = absurd (ground arith)
wait_loop-succeeds [] after wait_timeout res h s = elim s [ ]
wait_loop-succeeds (indirect_result r ∷ before) after a res h s =
    ground (arith, wait_loop-succeeds before after a r h.1 s)
wait_loop-succeeds (tcp_result false ∷ before) after a res h s =
    wait_loop-succeeds before after a res h.1 s
wait_loop-succeeds (tcp_result true ∷ before) after a res h s = absurd (ground (arith, h.0))
wait_loop-succeeds (wait_timeout ∷ before) after a res h s = elim h [ ]

wait_loop-fails :
    (before after : List Arrival) (res : IndirectPingResult)
    → AllFailed before
    → wait_loop (before ++ (wait_timeout ∷ after)) res ≡ (false, last_result before res)
unfolding wait_loop
wait_loop-fails [] after res h = refl
wait_loop-fails (indirect_result r ∷ before) after res h =
    ground (arith, wait_loop-fails before after r h.1)
wait_loop-fails (tcp_result false ∷ before) after res h = wait_loop-fails before after res h.1
wait_loop-fails (tcp_result true ∷ before) after res h = absurd (ground (arith, h.0))
wait_loop-fails (wait_timeout ∷ before) after res h = elim h [ ]

module _ {F : Type 0} (fl : Floats F) (c : Config) where
  -- A probe whose `Ping` fails, after replies without success: if a successful reply comes next, the
  -- probe only improves the health score by one and suspects nobody; if the timeout comes next, the score
  -- changes by the nacks that are missing from the last indirect ping, and the node is suspected in
  -- the life in which it was probed.
  pub probe_node_lem :
      (node : NodeState) (before after : List Arrival) (a : Arrival) (now : ℕ) (m : Memberlist)
      → AllFailed before
      → IsSuccess a
      → (probe_node fl c node false (before ++ (a ∷ after)) now m ≡ some (healthier m (negsuc 0)))
        × (let res = last_result before no_result in
            probe_node fl c node false (before ++ (wait_timeout ∷ after)) now m
            ≡ suspect_node fl c
                (record { lives = node.lives; id = node.node.id; from = c.local_id })
                now
                (healthier m (pos res.num_node -ℤ pos res.n_nacks)))
  unfolding probe_node probe_failed
  probe_node_lem node before after a now m h s = (
    rw (wait_loop-succeeds before after a no_result h s, probe_node) refl,
    rw (wait_loop-fails before after no_result h, probe_node) refl,
  )
