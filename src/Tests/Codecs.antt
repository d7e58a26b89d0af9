-- ===== src/Tests/Codecs.antt =====
-- A codec for the messages that knows the names `b` and `c`, and addresses of one byte.
use Prim.Native.String.{String}
use mlist.Prelude.{
  ℕ, ◌≡◌, refl, [], ◌∷◌, ◌++◌, Option, true, false, none, some, arith, length, ◌==◌, if◌then◌else◌,
  Option-cases, inl, inr, leb, ◌&&◌, Bool,
}
use mlist.Prelude.Maps.{same, str_dec}
use mlist.Prelude.Int.{ℤ, pos, negsuc}
use mlist.Members.Types.{
  StateType, state_alive, state_suspect, state_dead, state_left, Bytes, Alive, Suspect, Dead,
}
use mlist.PushPull.Merge.{StateToMerge}
use mlist.PushPull.Encoding.{PushPullHeader, StateCodec}
use mlist.PushPull.EncodingLaws.{IsStateCodec}
use mlist.Ping.Manager.{Ack}
use mlist.Inbox.Replies.{Ping, MsgCodec}
use mlist.Inbox.StreamsLaws.{IsMsgCodec}

abbrev name_code : String → Option ℕ
name_code s = if same s "b" then some 1 else if same s "c" then some 2 else none

abbrev name_of : ℕ → String
name_of k = if k == 1 then "b" else "c"

same-≡ : (s t : String) → same s t ≡ true → s ≡ t
same-≡ s t e = elim (str_dec s t) [ yes p ↦ p | no p ↦ absurd (ground arith) ]

name_of-name_code : (s : String) (k : ℕ) → name_code s ≡ some k → name_of k ≡ s
name_of-name_code s k e = ground (arith, same-≡ s "b", same-≡ s "c")

abbrev one_byte : Bytes → Option ℕ
one_byte (x ∷ []) = some x
one_byte _ = none

one_byte-≡ : (b : Bytes) (x : ℕ) → one_byte b ≡ some x → b ≡ x ∷ []
one_byte-≡ [] x e = absurd (ground arith)
one_byte-≡ (y ∷ []) x e = ground arith
one_byte-≡ (y ∷ z ∷ b) x e = absurd (ground arith)

abbrev state_code : StateType → ℕ
state_code state_alive = 0
state_code state_suspect = 1
state_code state_dead = 2
state_code state_left = 3

abbrev state_of : ℕ → StateType
state_of n =
    if n == 0
    then state_alive
    else if n == 1
    then state_suspect
    else if n == 2
    then state_dead
    else state_left

state_of-state_code : (t : StateType) → state_of (state_code t) ≡ t
state_of-state_code state_alive = refl
state_of-state_code state_suspect = refl
state_of-state_code state_dead = refl
state_of-state_code state_left = refl

abbrev put_fields : Option ℕ → Option ℕ → StateToMerge → Option Bytes
put_fields (some k) (some x) r =
    if length r.tags == 0 then some (k ∷ r.lives ∷ r.port ∷ state_code r.state ∷ x ∷ []) else none
put_fields (some k) none r = none
put_fields none x r = none

abbrev get_fields : Bytes → Option (StateToMerge × Bytes)
get_fields (k ∷ l ∷ p ∷ t ∷ x ∷ rest) = some (
  record { lives = l; id = name_of k; ip = x ∷ []; port = p; tags = []; state = state_of t },
  rest,
)
get_fields _ = none

-- A number behind 0, and a negative one behind 1.
abbrev put_int : ℤ → Bytes
put_int (pos n) = 0 ∷ n ∷ []
put_int (negsuc n) = 1 ∷ n ∷ []

abbrev int_of : ℕ → ℕ → ℤ
int_of k n = if k == 0 then pos n else negsuc n

abbrev get_two : Bytes → Option (PushPullHeader × Bytes)
get_two (k ∷ n ∷ k' ∷ n' ∷ rest) =
    some (record { nodes = int_of k n; user_state_len = int_of k' n' }, rest)
get_two _ = none

-- No slice holds more than 100 entries.
abbrev is_small : ℤ → Bool
is_small (pos n) = leb n 100
is_small (negsuc n) = true

abbrev put_two : PushPullHeader → Option Bytes
put_two h =
    if is_small h.nodes && is_small h.user_state_len
    then some (put_int h.nodes ++ put_int h.user_state_len)
    else none

abbrev pub small_states : StateCodec
small_states = record {
  max_states = 100;
  max_user = 100;
  put_header = put_two;
  get_header = get_two;
  put_state = λ r. put_fields (name_code r.id) (one_byte r.ip) r;
  get_state = get_fields;
}

get_two-put_int :
    (a b : ℤ) (rest : Bytes)
    → get_two ((put_int a ++ put_int b) ++ rest)
      ≡ some (record { nodes = a; user_state_len = b }, rest)
get_two-put_int (pos a) (pos b) rest = refl
get_two-put_int (pos a) (negsuc b) rest = refl
get_two-put_int (negsuc a) (pos b) rest = refl
get_two-put_int (negsuc a) (negsuc b) rest = refl

get_fields-put_fields :
    (r : StateToMerge) (b rest : Bytes)
    → put_fields (name_code r.id) (one_byte r.ip) r ≡ some b
    → get_fields (b ++ rest) ≡ some (r, rest)
get_fields-put_fields r b rest e = elim (Option-cases (name_code r.id)) [
  | inl bad ↦ absurd (ground arith)
  | inr (k, named) ↦ elim (Option-cases (one_byte r.ip)) [
    | inl bad ↦ absurd (ground arith)
    | inr (x, at_ip) ↦
        let by_name = name_of-name_code r.id k named in
        let by_ip = one_byte-≡ r.ip x at_ip in
        let by_state = state_of-state_code r.state in ground (arith, no_tags r.tags)
  ]
]
  where
    no_tags : (t : Bytes) → length t ≡ 0 → t ≡ []
    no_tags [] e = refl
    no_tags (y ∷ t) e = absurd (omega arith)

pub small_states-IsStateCodec : IsStateCodec small_states
small_states-IsStateCodec = record {
  get-put_header = λ h b rest e. ground (arith, get_two-put_int h.nodes h.user_state_len rest);
  held = λ rs user b e. ground arith;
  get-put_state = λ r b rest e. get_fields-put_fields r b rest e;
}

abbrev put_ping_fields : Option ℕ → Option ℕ → Ping → Option Bytes
put_ping_fields (some k) (some x) p = some (k ∷ p.seq_no ∷ p.source_port ∷ x ∷ [])
put_ping_fields (some k) none p = none
put_ping_fields none x p = none

abbrev get_ping_fields : Bytes → Option Ping
get_ping_fields (k ∷ n ∷ port ∷ x ∷ _) =
    some (record { seq_no = n; id = name_of k; source_ip = x ∷ []; source_port = port })
get_ping_fields _ = none

abbrev get_ack_fields : Bytes → Option Ack
get_ack_fields (n ∷ payload) = some (record { seq_no = n; payload = payload })
get_ack_fields _ = none

abbrev get_alive_fields : Bytes → Option Alive
get_alive_fields (k ∷ l ∷ x ∷ port ∷ _) =
    some (record { lives = l; id = name_of k; ip = x ∷ []; port = port; tags = [] })
get_alive_fields _ = none

abbrev get_suspect_fields : Bytes → Option Suspect
get_suspect_fields (k ∷ l ∷ _) = some (record { lives = l; id = name_of k; from = "c" })
get_suspect_fields _ = none

abbrev get_dead_fields : Bytes → Option Dead
get_dead_fields (k ∷ l ∷ _) = some (record { lives = l; id = name_of k; left = false })
get_dead_fields _ = none

abbrev put_name : Option ℕ → ℕ → Option Bytes
put_name none l = none
put_name (some k) l = some (k ∷ l ∷ [])

abbrev pub small_msgs : MsgCodec
small_msgs = record {
  get_ping = get_ping_fields;
  get_ack = get_ack_fields;
  get_indirect_ping = λ _. none;
  get_indirect_ack = λ _. none;
  get_alive = get_alive_fields;
  get_suspect = get_suspect_fields;
  get_dead = get_dead_fields;
  put_ping = λ p. put_ping_fields (name_code p.id) (one_byte p.source_ip) p;
  put_indirect_ping = λ _. none;
  put_suspect = λ s. put_name (name_code s.id) s.lives;
  put_ack = λ a. some (a.seq_no ∷ a.payload);
  put_indirect_ack = λ _. none;
}

get_ping-put_ping :
    (p : Ping) (b : Bytes)
    → put_ping_fields (name_code p.id) (one_byte p.source_ip) p ≡ some b
    → get_ping_fields b ≡ some p
get_ping-put_ping p b e = elim (Option-cases (name_code p.id)) [
  | inl bad ↦ absurd (ground arith)
  | inr (k, named) ↦ elim (Option-cases (one_byte p.source_ip)) [
    | inl bad ↦ absurd (ground arith)
    | inr (x, at_ip) ↦
        let by_name = name_of-name_code p.id k named in
        let by_ip = one_byte-≡ p.source_ip x at_ip in ground arith
  ]
]

pub small_msgs-IsMsgCodec : IsMsgCodec small_msgs
small_msgs-IsMsgCodec = record {
  get-put_ping = λ p b e. get_ping-put_ping p b e;
  get-put_ack = λ a b e. ground arith;
}
