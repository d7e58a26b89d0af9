-- ===== src/Events/Sending.antt =====
-- node_events.go: `EventManager`. What the reader of the channel does is an argument for each event: after
-- how long it takes it, if it does, and whether the channel is chosen when it is ready just as the time
-- runs out.
use Prim.Native.String.{String}
use mlist.Prelude.{
  ℕ, ◌+◌, ◌*◌, ◌≤◌, ◌≡◌, refl, arith, length, Bool-cases, Option-cases, inl, inr, List, [], ◌∷◌,
  ◌++◌, Bool, true, ◌&&◌, ◌||◌, Option, none, some, ltb, ◌==◌, if◌then◌else◌,
}
use mlist.Members.Types.{
  Node, Effect, broadcast, notify_join, notify_leave, notify_update, timed_out,
}

pub data NodeEventType : Type 0 where
  node_join node_leave node_update : NodeEventType

unfoldable pub type_string : NodeEventType → String
type_string node_join = "join"
type_string node_leave = "leave"
type_string node_update = "update"

pub record NodeEvent : Type 0 where
  pub event_type : NodeEventType
  pub node : Node

pub record EventManager : Type 0 where
  pub has_ch : Bool
  pub timeout : ℕ

pub record Reader : Type 0 where
  pub ready_after : Option ℕ
  pub chosen : Bool

-- What the channel got, in order, and how long the sender was held up.
pub record Sent : Type 0 where
  pub events : List NodeEvent
  pub held : ℕ

abbrev pub default_timeout : ℕ
default_timeout = 5 * 1000000000

abbrev pub timeout_of : EventManager → ℕ
timeout_of mng = if mng.timeout == 0 then default_timeout else mng.timeout

-- Whether the channel takes the event before the time is over, and after how long.
abbrev pub in_time : ℕ → Reader → Option ℕ
in_time timeout r = elim r.ready_after [
  | none ↦ none
  | some d ↦ if ltb d timeout || (d == timeout && r.chosen) then some d else none
]

unfoldable pub send : EventManager → NodeEvent → Reader → Sent
send mng e r =
    if mng.has_ch
    then elim (in_time (timeout_of mng) r) [
      | some d ↦ record { events = e ∷ []; held = d }
      | none ↦ record { events = []; held = timeout_of mng }
    ]
    else record { events = []; held = 0 }

-- The calls of `NotifyJoin`, `NotifyLeave` and `NotifyUpdate` among the effects, the last effect first.
unfoldable pub events_of : List Effect → List NodeEvent
events_of [] = []
events_of (notify_join n ∷ es) = events_of es ++ (record { event_type = node_join; node = n } ∷ [])
events_of (notify_leave n ∷ es) =
    events_of es ++ (record { event_type = node_leave; node = n } ∷ [])
events_of (notify_update n ∷ es) =
    events_of es ++ (record { event_type = node_update; node = n } ∷ [])
events_of (broadcast _ _ _ ∷ es) = events_of es
events_of (timed_out _ ∷ es) = events_of es

abbrev pub after_send : Sent → Sent → Sent
after_send s t = record { events = s.events ++ t.events; held = s.held + t.held }

-- One event after another, with the reader of each.
unfoldable pub send_all_events : EventManager → List NodeEvent → (ℕ → Reader) → ℕ → Sent
unfolding send
send_all_events mng [] readers i = record { events = []; held = 0 }
send_all_events mng (e ∷ es) readers i =
    after_send (send mng e (readers i)) (send_all_events mng es readers (i + 1))

in_time-le : (timeout d : ℕ) (r : Reader) → in_time timeout r ≡ some d → d ≤ timeout
in_time-le timeout d r e = elim (Option-cases r.ready_after) [
  | inl never ↦ absurd (ground arith)
  | inr (k, ready) ↦ ground arith
]

held_of-send :
    (mng : EventManager) (e : NodeEvent) (r : Reader) → (send mng e r).held ≤ timeout_of mng
unfolding send
held_of-send mng e r = elim (Bool-cases mng.has_ch) [
  | inr none_there ↦ rw (none_there, send) (omega arith)
  | inl there ↦ elim (Option-cases (in_time (timeout_of mng) r)) [
    | inl late ↦ rw (there, late, send) (omega arith)
    | inr (d, taken) ↦ rw (there, taken, send) (in_time-le (timeout_of mng) d r taken)
  ]
]

-- With a channel, each event holds its sender up for the timeout at most, so that a handler of the
-- table keeps its lock that long for each of its events; with a reader that takes each event in time,
-- all of them arrive, in their order.
send_all_events_lem :
    (mng : EventManager) (es : List NodeEvent) (readers : ℕ → Reader) (i : ℕ)
    → (d : ℕ → ℕ)
    → ((send_all_events mng es readers i).held ≤ timeout_of mng * length es)
      × (mng.has_ch ≡ true
          → ((j : ℕ) → in_time (timeout_of mng) (readers j) ≡ some (d j))
          → (send_all_events mng es readers i).events ≡ es)
unfolding send_all_events
send_all_events_lem mng [] readers i d = (omega arith, λ ch all. refl)
send_all_events_lem mng (e ∷ es) readers i d =
    let (held, arrive) = send_all_events_lem mng es readers (i + 1) d in
    (
      omega (arith, held, held_of-send mng e (readers i)),
      λ ch all. ground (arith, arrive ch all, all i),
    )
