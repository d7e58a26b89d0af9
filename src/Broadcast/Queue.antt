-- ===== src/Broadcast/Queue.antt =====
-- broadcast.go: `TransmitCapQueue`. The heap of github.com/mbver/heap is the parameter `HeapOps`,
-- ordered by `less`. `finished` lists the items whose `Finish` was called, the last one first.
use Prim.Native.String.{String}
use mlist.Prelude.{
  ℕ, zero, suc, ◌+◌, ◌*◌, ◌%◌, List, [], ◌∷◌, ◌++◌, Bool, Option, none, some, ltb, leb, ◌==◌, ◌||◌,
  if◌then◌else◌, length,
}
use mlist.Prelude.Maps.{str_dec, same, insert, delete}
use mlist.Members.Types.{Bytes}

pub record TransmitCapItem : Type 0 where
  pub name : String
  pub id : ℕ
  pub transmits : ℕ
  pub msg : Bytes

-- Fewest transmissions first, then the longest message, then the newest.
unfoldable pub less : TransmitCapItem → TransmitCapItem → Bool
less i i1 =
    if i.transmits == i1.transmits
    then if length i.msg == length i1.msg
      then ltb i1.id i.id
      else ltb (length i1.msg) (length i.msg)
    else ltb i.transmits i1.transmits

pub record HeapOps (H : Type 0) : Type 0 where
  pub empty : H
  pub push : H → TransmitCapItem → H
  pub pop : H → Option (TransmitCapItem × H)
  pub remove : H → ℕ → H
  pub size : H → ℕ

pub record TransmitCapQueue (H : Type 0) : Type 0 where
  pub transmit_scale : ℕ
  pub queue : H
  pub exists : String → Option TransmitCapItem
  pub id_seq : ℕ
  pub finished : List TransmitCapItem

-- What the loop of `GetMessages` carries; the lists have the last item first.
pub record Pick (H : Type 0) : Type 0 where
  pub rest : TransmitCapQueue H
  pub bytes_used : ℕ
  pub picked : List TransmitCapItem
  pub not_picked : List TransmitCapItem

abbrev pub bump : TransmitCapItem → TransmitCapItem
bump i = record i { transmits = i.transmits + 1 }

-- `ceil_log10 n` is `int(math.Ceil(math.Log10(float64(n))))`.
unfoldable pub transmit_limit : (ℕ → ℕ) → ℕ → ℕ → ℕ
transmit_limit ceil_log10 scale n = scale * ceil_log10 (n + 1)

module _ {H : Type 0} (ops : HeapOps H) where
  unfoldable pub new_broadcast_queue : ℕ → TransmitCapQueue H
  new_broadcast_queue transmit_scale = record {
    transmit_scale = transmit_scale;
    queue = ops.empty;
    exists = λ _. none;
    id_seq = 0;
    finished = [];
  }

  abbrev pub finish : TransmitCapQueue H → TransmitCapItem → TransmitCapQueue H
  finish q i = record q { finished = i ∷ q.finished }

  abbrev pub len : TransmitCapQueue H → ℕ
  len q = ops.size q.queue

  -- The older message of the same name is finished and taken out.
  unfoldable pub invalidate : TransmitCapItem → TransmitCapQueue H → TransmitCapQueue H
  invalidate item q = elim (q.exists item.name) [
    | none ↦ q
    | some old ↦ finish (record q { queue = ops.remove q.queue old.id }) old
  ]

  unfoldable pub push : TransmitCapQueue H → TransmitCapItem → TransmitCapQueue H
  unfolding invalidate
  push q item =
      let q =
        if same item.name ""
        then q
        else record (invalidate item q) { exists = insert str_dec item.name item q.exists } in
      record q { queue = ops.push q.queue item }

  unfoldable pub pop : TransmitCapQueue H → Option (TransmitCapItem × TransmitCapQueue H)
  pop q = elim (ops.pop q.queue) [
    | none ↦ none
    | some (item, h) ↦
        some (item, record q { queue = h; exists = delete str_dec item.name q.exists })
  ]

  -- `encoded` is the result of `encode(t, msg)`.
  unfoldable pub queue_msg : String → Option Bytes → TransmitCapQueue H → TransmitCapQueue H
  unfolding push
  queue_msg name none q = q
  queue_msg name (some encoded) q =
      let item : TransmitCapItem = record {
        name = name;
        id = q.id_seq;
        transmits = 0;
        msg = encoded;
      } in
      push (record q { id_seq = (q.id_seq + 1) % 18446744073709551616 }) item

  abbrev pub start_pick : TransmitCapQueue H → Pick H
  start_pick q = record { rest = q; bytes_used = 0; picked = []; not_picked = [] }

  -- The loop of `GetMessages`. Each round but the last takes an item out, so the number of items is
  -- fuel enough.
  unfoldable pub pick : ℕ → ℕ → ℕ → Pick H → Pick H
  unfolding pop
  pick zero overhead size p = p
  pick (suc fuel) overhead size p =
      let next : Pick H = elim (pop p.rest) [
        | none ↦ p
        | some (item, rest) ↦ pick fuel overhead size (
            if ltb size (p.bytes_used + length item.msg + overhead)
            then record p { rest = rest; not_picked = item ∷ p.not_picked }
            else record p {
              rest = rest;
              picked = item ∷ p.picked;
              bytes_used = p.bytes_used + (length item.msg + overhead);
            })
      ] in
      if ltb size (p.bytes_used + 20 + overhead) then p else next

  unfoldable pub push_all : List TransmitCapItem → TransmitCapQueue H → TransmitCapQueue H
  unfolding push
  push_all [] q = q
  push_all (i ∷ is) q = push (push_all is q) i

  -- The loop over the picked items, the first picked being the last of the list.
  unfoldable pub send_all :
      ℕ → List TransmitCapItem → TransmitCapQueue H → TransmitCapQueue H × List Bytes
  unfolding push
  send_all limit [] q = (q, [])
  send_all limit (i ∷ is) q =
      let (q, msgs) = send_all limit is q in
      (
        if leb limit (bump i).transmits then finish q (bump i) else push q (bump i),
        msgs ++ (i.msg ∷ []),
      )

  abbrev pub reset : TransmitCapQueue H → TransmitCapQueue H
  reset q = record q { id_seq = if len q == 0 then 0 else q.id_seq }

  -- `num_nodes` is the result of `q.NumNodes()`.
  unfoldable pub get_messages :
      (ℕ → ℕ) → ℕ → ℕ → ℕ → TransmitCapQueue H → TransmitCapQueue H × List Bytes
  unfolding pick push_all send_all transmit_limit
  get_messages ceil_log10 num_nodes overhead size q =
      if leb size overhead || len q == 0
      then (q, [])
      else let p = pick (len q) overhead size (start_pick q) in
        let q = push_all p.not_picked p.rest in
        let limit = transmit_limit ceil_log10 q.transmit_scale num_nodes in
        let (q, msgs) = send_all limit p.picked q in (reset q, msgs)

  -- The loop of `Resize`, with the number of items as fuel.
  unfoldable pub shrink_to : ℕ → ℕ → TransmitCapQueue H → TransmitCapQueue H
  unfolding pop
  shrink_to zero size q = q
  shrink_to (suc fuel) size q =
      let next : TransmitCapQueue H = elim (pop q) [
        | none ↦ q
        | some (item, rest) ↦ shrink_to fuel size (finish rest item)
      ] in
      if ltb size (len q) then next else q

  unfoldable pub resize : ℕ → TransmitCapQueue H → TransmitCapQueue H
  unfolding shrink_to
  resize size q = shrink_to (len q) size q
