-- ===== src/Members/Handlers.antt =====
-- state.go: `aliveNode`, `suspectNode`, `refute`, `deadNode` and the closure `timeoutFn`.
-- Each is one call with nothing in between. `suspectNode` and `deadNode` hold `nodeL` throughout;
-- `aliveNode` does not, and has its parts in Announce. `none` means that the loop of `refute` does not
-- end. `now` is the clock's reading and `rnd` the draw of `rand.Uint32`.
use mlist.Prelude.{
  ℕ, zero, suc, ◌+◌, ◌-◌, ◌*◌, ◌/◌, ◌%◌, List, [], ◌∷◌, ◌++◌, Bool, true, false, not, ◌&&◌, ◌||◌,
  Option, none, some, ltb, leb, ◌==◌, if◌then◌else◌, ite, ℕ_discrete, length,
}
use mlist.Prelude.Maps.{str_dec, same, insert, delete}
use mlist.Prelude.Slices.{swap}
use mlist.Prelude.Int.{pos}
use mlist.Awareness.{punish}
use mlist.Suspicion.{Suspicion, Floats, TimeoutFn, Confirmed, new_suspicion, confirm}
use mlist.Members.Types.{
  state_alive, state_suspect, state_dead, state_left, Bytes, Node, NodeState, dead_or_left,
  is_alive, is_suspect, Alive, Suspect, Dead, alive_msg, suspect_msg, dead_msg, Effect, broadcast,
  notify_join, notify_leave, notify_update, timed_out, Config, Memberlist,
}

-- net_transport.go: `IPAllowed`.
unfoldable pub contains_any : List (Bytes → Bool) → Bytes → Bool
contains_any [] ip = false
contains_any (n ∷ ns) ip = n ip || contains_any ns ip

unfoldable pub ip_allowed : Config → Bytes → Bool
ip_allowed c ip = elim c.cidrs_allowed [ [] ↦ true | n ∷ ns ↦ contains_any (n ∷ ns) ip ]

-- util.go: `randIntN`.
unfoldable pub rand_int_n : ℕ → ℕ → ℕ
rand_int_n n rnd = if n == 0 then 0 else rnd % n

-- util.go: `minSuspicionTimeout`.
unfoldable pub min_suspicion_timeout : Config → ℕ → ℕ
min_suspicion_timeout c n = c.suspicion_mult * c.probe_interval * c.node_scale n / 1000

-- `*p = n`.
abbrev pub write : Memberlist → ℕ → NodeState → Memberlist
write m p n = record m { store = λ q. ite (ℕ_discrete p q) n (m.store q) }

abbrev pub emit : Memberlist → Effect → Memberlist
emit m e = record m { effects = e ∷ m.effects }

abbrev emit_if : Bool → Memberlist → Effect → Memberlist
emit_if b m e = record m { effects = if b then e ∷ m.effects else m.effects }

unfoldable pub bytes_dec : Discrete Bytes
bytes_dec = hlevel ℕ_discrete

-- `bytes.Equal`
abbrev pub bytes_equal : Bytes → Bytes → Bool
bytes_equal a b = elim (bytes_dec a b) [ yes _ ↦ true | no _ ↦ false ]

abbrev pub uint32_max : ℕ
uint32_max = 4294967295

-- `atomic.AddUint32(&m.lives, 1)`: the counter is also the result.
unfoldable pub next_live_no : ℕ → ℕ
next_live_no lives = (lives + 1) % 4294967296

-- The node that `aliveNode` makes for a new ID.
abbrev pub node_of : Alive → ℕ → NodeState
node_of a now = record {
  node = record { id = a.id; ip = a.ip; port = a.port; tags = a.tags };
  lives = a.lives;
  state = state_alive;
  state_change = now;
}

unfoldable pub add_node : Alive → Bool → ℕ → ℕ → Memberlist → Memberlist
add_node a notify now rnd m =
    let nodes = m.nodes ++ (m.next ∷ []) in
    let n = length nodes - 1 in
    let idx = rand_int_n n rnd in
    let m = record (write m m.next (node_of a now)) {
      next = m.next + 1;
      nodes = swap nodes idx n;
      node_map = insert str_dec a.id m.next m.node_map;
      num_nodes = m.num_nodes + 1;
    } in
    emit (emit m (broadcast a.id (alive_msg a) notify)) (notify_join (node_of a now).node)

abbrev retag : Alive → Node → Node
retag a d = if bytes_equal d.tags a.tags then d else record d { tags = a.tags }

-- The fields that a known node takes from a newer alive message.
unfoldable pub renew : Alive → ℕ → NodeState → NodeState
renew a now n =
    let n = record n { lives = a.lives; node = retag a n.node } in
    if is_alive n.state then n else record n { state = state_alive; state_change = now }

unfoldable pub renew_node : Alive → Bool → ℕ → ℕ → Memberlist → Memberlist
unfolding renew
renew_node a notify now p m =
    let n = m.store p in
    let new_node = (renew a now n).node in
    let m = record (write m p (renew a now n)) { suspicions = delete str_dec a.id m.suspicions } in
    let m = emit m (broadcast new_node.id (alive_msg a) notify) in
    let m = emit_if (dead_or_left n) m (notify_join new_node) in
    emit_if (not (bytes_equal n.node.tags a.tags)) m (notify_update new_node)

unfoldable pub alive_node : Config → Alive → Bool → ℕ → ℕ → Memberlist → Memberlist
unfolding add_node renew_node
alive_node c a notify now rnd m =
    if m.left && same a.id c.local_id
    then m
    else if not (ip_allowed c a.ip)
    then m
    else elim (m.node_map a.id) [
      | none ↦ add_node a notify now rnd m
      | some p ↦ if leb a.lives (m.store p).lives then m else renew_node a notify now p m
    ]

-- `for l <= lives { l = m.nextLiveNo() }`, with fuel for the rounds.
unfoldable pub refute_loop : ℕ → ℕ → ℕ → Option ℕ
refute_loop zero lives l = if leb l lives then none else some l
refute_loop (suc fuel) lives l =
    let rest = refute_loop fuel lives (next_live_no l) in if leb l lives then rest else some l

-- The alive message by which a node contradicts a suspicion of itself.
abbrev refutation : Node → ℕ → Alive
refutation d l = record { lives = l; id = d.id; ip = d.ip; port = d.port; tags = d.tags }

abbrev pub refuted : ℕ → ℕ → Memberlist → Memberlist
refuted l p m =
    let n = m.store p in
    let m = record (write m p (record n { lives = l })) { lives = l; awr = punish m.awr (pos 1) } in
    emit m (broadcast n.node.id (alive_msg (refutation n.node l)) false)

-- From a counter value that is not above `lives`, `lives + 1` rounds pass it.
unfoldable pub refute : ℕ → ℕ → Memberlist → Option Memberlist
refute p lives m = elim (refute_loop (suc lives) lives (next_live_no m.lives)) [
  | none ↦ none
  | some l ↦ some (refuted l p m)
]

abbrev pub confirmed : Suspect → Confirmed → Memberlist → Memberlist
confirmed s r m =
    let m = record m { suspicions = insert str_dec s.id r.suspicion m.suspicions } in
    emit_if r.fresh (emit_if r.timed_out m (timed_out s.id)) (broadcast s.id (suspect_msg s) false)

-- `n-1 < confirmCap` is written `n < confirmCap + 1`.
unfoldable pub confirm_cap_of : Config → ℕ → ℕ
confirm_cap_of c n =
    let confirm_cap = c.suspicion_mult - 1 in if ltb n (confirm_cap + 1) then 1 else confirm_cap

-- The suspicion that `suspectNode` starts, in a cluster of `n` nodes.
unfoldable pub start_suspicion : Config → Suspect → ℕ → ℕ → Suspicion
unfolding new_suspicion confirm_cap_of min_suspicion_timeout
start_suspicion c s now n =
    let min_timeout = min_suspicion_timeout c n in
    let fn : TimeoutFn = record { id = s.id; lives = s.lives } in
    new_suspicion now min_timeout (c.suspicion_max_timeout_mult * min_timeout) (confirm_cap_of c n)
      s.from fn

-- The end of `suspectNode`: an alive node is suspected for the first time.
unfoldable pub first_suspect : Config → Suspect → ℕ → ℕ → Memberlist → Memberlist
first_suspect c s now p m =
    let m = emit m (broadcast s.id (suspect_msg s) false) in
    let n = m.store p in
    let m = write m p (record n { lives = s.lives; state = state_suspect; state_change = now }) in
    let sc = start_suspicion c s now m.num_nodes in
    record m { suspicions = insert str_dec s.id sc m.suspicions }

module _ {F : Type 0} (fl : Floats F) where
  unfoldable pub suspect_known : Config → Suspect → ℕ → ℕ → Memberlist → Option Memberlist
  unfolding first_suspect refute
  suspect_known c s now p m = elim (m.suspicions s.id) [
    | some sc ↦ some (confirmed s (confirm fl sc s.from now) m)
    | none ↦
        if not (is_alive (m.store p).state)
        then some m
        else if same s.id c.local_id
        then refute p s.lives m
        else some (first_suspect c s now p m)
  ]

  unfoldable pub suspect_node : Config → Suspect → ℕ → Memberlist → Option Memberlist
  unfolding suspect_known
  suspect_node c s now m = elim (m.node_map s.id) [
    | none ↦ some m
    | some p ↦ if ltb s.lives (m.store p).lives then some m else suspect_known c s now p m
  ]

unfoldable pub bury : Dead → Bool → ℕ → ℕ → Memberlist → Memberlist
bury d notify now p m =
    let m = record m { suspicions = delete str_dec d.id m.suspicions } in
    let m = emit m (broadcast d.id (dead_msg d) notify) in
    let n = m.store p in
    let state = if d.left then state_left else state_dead in
    let m = write m p (record n { lives = d.lives; state = state; state_change = now }) in
    emit m (notify_leave n.node)

unfoldable pub dead_known : Config → Dead → Bool → ℕ → ℕ → Memberlist → Option Memberlist
unfolding bury refute
dead_known c d notify now p m =
    if same d.id c.local_id && not m.left then refute p d.lives m else some (bury d notify now p m)

unfoldable pub dead_node : Config → Dead → Bool → ℕ → Memberlist → Option Memberlist
unfolding dead_known
dead_node c d notify now m = elim (m.node_map d.id) [
  | none ↦ some m
  | some p ↦
      if ltb d.lives (m.store p).lives || dead_or_left (m.store p)
      then some m
      else dead_known c d notify now p m
]

-- The first half of `timeoutFn`, under the read lock: the dead message, if the node is still
-- suspected in the life for which the timer was set.
unfoldable pub timeout_check : TimeoutFn → Memberlist → Option Dead
timeout_check f m = elim (m.node_map f.id) [
  | none ↦ none
  | some p ↦
      let n = m.store p in
      if is_suspect n.state && (n.lives == f.lives)
      then some (record { lives = n.lives; id = n.node.id; left = false })
      else none
]

-- `timeoutFn`, where nothing comes between its two halves.
unfoldable pub timeout_fn : Config → TimeoutFn → ℕ → Memberlist → Option Memberlist
unfolding timeout_check dead_node
timeout_fn c f now m = elim (timeout_check f m) [
  | none ↦ some m
  | some d ↦ dead_node c d false now m
]
