-- ===== src/Members/Types.antt =====
-- The data of state.go and memberlist.go. A `*nodeState` is an address in a store, so that `nodes`
-- and `nodeMap` can share one; `uint32` lives wrap by `next_live_no`; a time is nanoseconds.
use Prim.Native.String.{String}
use mlist.Prelude.{ℕ, List, [], Bool, true, false, Option, none}
use mlist.Prelude.Int.{ℤ}
use mlist.Awareness.{Awareness, new_awareness}
use mlist.Suspicion.{Suspicion}

pub data StateType : Type 0 where
  state_alive state_suspect state_dead state_left : StateType

abbrev pub Bytes : Type 0
Bytes = List ℕ

pub record Node : Type 0 where
  pub id : String
  pub ip : Bytes
  pub port : ℕ
  pub tags : Bytes

pub record NodeState : Type 0 where
  pub node : Node
  pub lives : ℕ
  pub state : StateType
  pub state_change : ℕ

abbrev pub dead_or_left : NodeState → Bool
dead_or_left n = elim n.state [ state_dead ↦ true | state_left ↦ true | _ ↦ false ]

abbrev pub is_alive : StateType → Bool
is_alive state_alive = true
is_alive _ = false

abbrev pub is_suspect : StateType → Bool
is_suspect state_suspect = true
is_suspect _ = false

-- The three messages.
pub record Alive : Type 0 where
  pub lives : ℕ
  pub id : String
  pub ip : Bytes
  pub port : ℕ
  pub tags : Bytes

pub record Suspect : Type 0 where
  pub lives : ℕ
  pub id : String
  pub from : String

pub record Dead : Type 0 where
  pub lives : ℕ
  pub id : String
  pub left : Bool

pub data Message : Type 0 where
  alive_msg : Alive → Message
  suspect_msg : Suspect → Message
  dead_msg : Dead → Message

-- What the handlers hand on: `m.broadcast(name, t, msg, notify)`, with whether `notify` is a
-- channel, the three calls of the event manager, and a started timeout function.
pub data Effect : Type 0 where
  broadcast : String → Message → Bool → Effect
  notify_join notify_leave notify_update : Node → Effect
  timed_out : String → Effect

-- What the handlers read and do not change. An `*net.IPNet` is its method `Contains`;
-- `node_scale n` is `time.Duration(nodeScale*1000)` of `minSuspicionTimeout`, a `float64` logarithm.
pub record Config : Type 0 where
  pub local_id : String
  pub cidrs_allowed : List (Bytes → Bool)
  pub suspicion_mult : ℕ
  pub suspicion_max_timeout_mult : ℕ
  pub probe_interval : ℕ
  pub node_scale : ℕ → ℕ

-- `effects` lists the calls made so far, the last one first.
pub record Memberlist : Type 0 where
  pub store : ℕ → NodeState
  pub next : ℕ
  pub nodes : List ℕ
  pub node_map : String → Option ℕ
  pub num_nodes : ℕ
  pub suspicions : String → Option Suspicion
  pub lives : ℕ
  pub awr : Awareness
  pub left : Bool
  pub effects : List Effect

abbrev blank : NodeState
blank = record {
  node = record { id = ""; ip = []; port = 0; tags = [] };
  lives = 0;
  state = state_alive;
  state_change = 0;
}

-- What `Build` makes before `start`.
unfoldable pub new_memberlist : ℤ → Memberlist
new_memberlist max_awareness_health = record {
  store = λ _. blank;
  next = 0;
  nodes = [];
  node_map = λ _. none;
  num_nodes = 0;
  suspicions = λ _. none;
  lives = 0;
  awr = new_awareness max_awareness_health;
  left = false;
  effects = [];
}
