-- ===== src/Maintenance/Probe.antt =====
-- maintenance.go: `probeNode`. What its pings return is an argument: whether `Ping` succeeds, and what
-- arrives on the channels of `IndirectPing` and `TcpPing`, in order, until `waitTimeout`.
use mlist.Prelude.{ℕ, List, [], ◌∷◌, Bool, true, false, Option, some, if◌then◌else◌}
use mlist.Prelude.Int.{ℤ, pos, negsuc, ◌-ℤ◌}
use mlist.Awareness.{punish}
use mlist.Suspicion.{Floats}
use mlist.Members.Types.{NodeState, Suspect, Config, Memberlist}
use mlist.Members.Handlers.{suspect_node}

pub record IndirectPingResult : Type 0 where
  pub success : Bool
  pub n_nacks : ℕ
  pub num_node : ℕ

pub data Arrival : Type 0 where
  indirect_result : IndirectPingResult → Arrival
  tcp_result : Bool → Arrival
  wait_timeout : Arrival

-- The loop `WAIT`, with the last result of the indirect ping so far. A channel on which nothing more
-- comes leaves the timeout.
unfoldable pub wait_loop : List Arrival → IndirectPingResult → Bool × IndirectPingResult
wait_loop [] res = (false, res)
wait_loop (indirect_result r ∷ later) res =
    let rest = wait_loop later r in elim r.success [ true ↦ (true, r) | false ↦ rest ]
wait_loop (tcp_result true ∷ later) res = (true, res)
wait_loop (tcp_result false ∷ later) res = wait_loop later res
wait_loop (wait_timeout ∷ later) res = (false, res)

abbrev pub no_result : IndirectPingResult
no_result = record { success = false; n_nacks = 0; num_node = 0 }

abbrev pub healthier : Memberlist → ℤ → Memberlist
healthier m delta = record m { awr = punish m.awr delta }

module _ {F : Type 0} (fl : Floats F) (c : Config) where
  -- No reply came: the nacks that are missing count against this node, and the node is suspected.
  unfoldable pub probe_failed : NodeState → IndirectPingResult → ℕ → Memberlist → Option Memberlist
  unfolding ◌-ℤ◌
  probe_failed node res now m =
      let s : Suspect = record { lives = node.lives; id = node.node.id; from = c.local_id } in
      suspect_node fl c s now (healthier m (pos res.num_node -ℤ pos res.n_nacks))

  unfoldable pub probe_node : NodeState → Bool → List Arrival → ℕ → Memberlist → Option Memberlist
  unfolding wait_loop probe_failed
  probe_node node ping_success arrivals now m =
      if ping_success
      then some (healthier m (negsuc 0))
      else let (success, res) = wait_loop arrivals no_result in
        if success then some (healthier m (negsuc 0)) else probe_failed node res now m
