-- ===== src/Process/Invariant.antt =====
-- The invariant that all parts of a node keep together.
use mlist.Prelude.{
  ℕ, ◌≡◌, sym, subst, List, [], ◌∷◌, Bool, true, Option, some, arith, Option-cases, inl, inr,
}
use mlist.Prelude.Int.{ℤ, pos, ◌≤ℤ◌}
use mlist.Suspicion.{Floats}
use mlist.Members.Types.{Bytes, Config, Memberlist}
use mlist.Maintenance.Run.{Input, lives, is_suspected, dies, times_out, reaps, leaves, run, step}
use mlist.Broadcast.Queue.{HeapOps, TransmitCapQueue}
use mlist.Wire.Encrypt.{Aead}
use mlist.Wire.Packet.{Codec, Settings}
use mlist.PushPull.Merge.{merge_state}
use mlist.PushPull.Encoding.{StateCodec, Remote, remote_state, remote_bad, remote_panics}
use mlist.PushPull.Exchange.{merged, merge_remote}
use mlist.Inbox.LongRun.{LongRunMsg, new_long_run_msg_manager}
use mlist.Inbox.LongRunLaws.{IsBounded}
use mlist.Inbox.Replies.{MsgCodec, Local}
use mlist.Inbox.Drain.{Served, handle_long_run}
use mlist.Inbox.DrainLaws.{timed, input_of, handle_long_run-served}
use mlist.Process.{
  Process, ProcessStep, IsReachable, takes, locks, announces, local_of, receives, relays, serves,
  merges, acts, counts, scores, probes, goes_alive, departs, retags, pings, gossips, start, after,
}
use mlist.Process.Inboxes.{get_next_msg-IsBounded, relay_done_keeps, handle_packet-IsBounded}
use mlist.Process.Tables.{
  IsGood, alive_locked-IsGood, emit-IsGood, new_memberlist-IsGood, next_lives-IsGood,
  healthier-IsGood, alive_node-IsGood, dead_node-IsGood, timeout_fn-IsGood, reap-IsGood,
  set_alive-IsGood, update_tags-IsGood, leave-IsGood, off-IsGood, suspect_node-IsGood,
  merge_state-IsGood, probe_node-IsGood,
}

-- The table is sound, the health score is in range, and neither queue of waiting messages is longer than
-- its depth.
pub record IsKept {H : Type 0} (c : Config) (p : Process H) : Type 0 where
  pub table : IsGood c p.served.table
  pub queues : IsBounded p.inbox.long_run_mng

module _ {F : Type 0} (fl : Floats F) (c : Config) where
  step-IsGood :
      (now : ℕ) (i : Input) (m : Memberlist) {m' : Memberlist}
      → IsGood c m
      → step fl c now i m ≡ some m'
      → IsGood c m'
  unfolding step
  step-IsGood now (lives a notify rnd) m h e =
      subst (IsGood c) (ground arith) (alive_node-IsGood c a notify now rnd m h)
  step-IsGood now (is_suspected s) m h e = suspect_node-IsGood fl c s now m h e
  step-IsGood now (dies d notify) m h e = dead_node-IsGood c d notify now m h e
  step-IsGood now (times_out f) m h e = timeout_fn-IsGood c f now m h e
  step-IsGood now (reaps timeout draw) m h e =
      subst (IsGood c) (ground arith) (reap-IsGood c timeout now draw m h)
  step-IsGood now leaves m h e =
      subst (IsGood c) {x = record m { left = true }} (ground arith) (off-IsGood c m h)

  run-IsGood :
      (is : List (ℕ × Input)) (m m' : Memberlist)
      → IsGood c m
      → run fl c is m ≡ some m'
      → IsGood c m'
  unfolding run
  run-IsGood [] m m' h e = subst (IsGood c) (ground arith) h
  run-IsGood ((now, i) ∷ is) m m' h e = elim (Option-cases (step fl c now i m)) [
    | inl stuck ↦ absurd (ground arith)
    | inr (next, done) ↦ run-IsGood is next m' (step-IsGood now i m h done) (ground arith)
  ]

  handle_long_run-IsGood :
      (msgs : MsgCodec) (has_ch : Option (List Bytes → Bool)) (m : LongRunMsg) (now rnd : ℕ)
      (sv : Served) {sv' : Served}
      → IsGood c sv.table
      → handle_long_run fl c msgs has_ch m.m_type m now rnd sv ≡ some sv'
      → IsGood c sv'.table
  handle_long_run-IsGood msgs has_ch m now rnd sv {sv' = sv'} h e =
      let is = timed fl c msgs has_ch now (input_of fl c msgs has_ch m.m_type m rnd) in
      let shape = handle_long_run-served fl c msgs has_ch m.m_type m now rnd sv in
      elim (Option-cases (run fl c is sv.table)) [
        | inl stuck ↦ absurd (ground (arith, shape))
        | inr (m', done) ↦
            subst (IsGood c) {x = m'} (ground (arith, shape)) (run-IsGood is sv.table m' h done)
      ]

  merge_remote-IsGood :
      (codec : Codec) (aead : Aead) (states : StateCodec) (s : Settings) (usr : Option Bytes)
      (remote : Remote) (now : ℕ) (rnd : ℕ → ℕ) (m : Memberlist) {m' : Memberlist}
      {kept : Option Bytes}
      → IsGood c m
      → merge_remote codec aead states s fl c usr remote now rnd m ≡ merged m' kept
      → IsGood c m'
  unfolding merge_remote
  merge_remote-IsGood codec aead states s usr remote_bad now rnd m h e = absurd (ground arith)
  merge_remote-IsGood codec aead states s usr remote_panics now rnd m h e = absurd (ground arith)
  merge_remote-IsGood codec aead states s usr (remote_state rs user) now rnd m {m' = m'} h e =
      elim (Option-cases (merge_state fl c rs now rnd m)) [
        | inl stuck ↦ absurd (ground arith)
        | inr (m1, done) ↦
            subst (IsGood c) {x = m1} (ground arith)
              (merge_state-IsGood fl c rs now rnd m m1 h done)
      ]

module _ {F H : Type 0} (fl : Floats F) (ops : HeapOps H) (ceil_log10 : ℕ → ℕ)
    (ub : Option (ℕ → ℕ → List Bytes)) (codec : Codec) (aead : Aead) (states : StateCodec)
    (s : Settings) (msgs : MsgCodec) (l : Local) (c : Config)
    (has_ch : Option (List Bytes → Bool)) where
  ProcessStep-IsKept :
      {p p' : Process H}
      → ProcessStep fl ops ceil_log10 ub codec aead states s msgs l c has_ch p p'
      → IsKept c p
      → IsKept c p'
  ProcessStep-IsKept (receives p nonces from packet e) h = record {
    table = h.table;
    queues =
        handle_packet-IsBounded ops ceil_log10 ub codec aead s msgs (local_of l p.served.table)
          nonces from packet p.inbox h.queues e;
  }
  ProcessStep-IsKept (relays p nonce r ok) h = record {
    table = h.table;
    queues =
        subst IsBounded
          (sym (
            relay_done_keeps ops ceil_log10 ub codec aead s msgs (local_of l p.served.table) nonce r
              ok p.inbox))
          h.queues;
  }
  ProcessStep-IsKept (serves p now rnd next e) h = record {
    table = handle_long_run-IsGood fl c msgs has_ch _ now rnd p.served h.table e;
    queues = get_next_msg-IsBounded p.inbox.long_run_mng h.queues next;
  }
  ProcessStep-IsKept (takes p next) h = record {
    table = h.table;
    queues = get_next_msg-IsBounded p.inbox.long_run_mng h.queues next;
  }
  ProcessStep-IsKept (locks p a notify now rnd allowed) h = record {
    table = alive_locked-IsGood c a notify now rnd p.served.table h.table;
    queues = h.queues;
  }
  ProcessStep-IsKept (announces p earlier later e es waits) h = record {
    table = emit-IsGood c e p.served.table h.table;
    queues = h.queues;
  }
  ProcessStep-IsKept (merges p usr remote now rnd e) h = record {
    table =
        merge_remote-IsGood fl c codec aead states s usr remote now rnd p.served.table h.table e;
    queues = h.queues;
  }
  ProcessStep-IsKept (acts p now i e) h = record {
    table = step-IsGood fl c now i p.served.table h.table e;
    queues = h.queues;
  }
  ProcessStep-IsKept (counts p) h = record {
    table = next_lives-IsGood c p.served.table h.table;
    queues = h.queues;
  }
  ProcessStep-IsKept (scores p delta) h = record {
    table = healthier-IsGood c delta p.served.table h.table;
    queues = h.queues;
  }
  ProcessStep-IsKept (probes p node ok arrivals now e) h = record {
    table = probe_node-IsGood fl c node ok arrivals now p.served.table h.table e;
    queues = h.queues;
  }
  ProcessStep-IsKept (goes_alive p ip port tags now rnd) h = record {
    table = set_alive-IsGood c ip port tags now rnd p.served.table h.table;
    queues = h.queues;
  }
  ProcessStep-IsKept (departs p shutdown timeout notified now e) h = record {
    table = leave-IsGood c shutdown timeout notified now p.served.table h.table e;
    queues = h.queues;
  }
  ProcessStep-IsKept (retags p tags timeout notified now rnd) h = record {
    table = update_tags-IsGood c tags timeout notified now rnd p.served.table h.table;
    queues = h.queues;
  }
  ProcessStep-IsKept (pings p mng) h = record { table = h.table; queues = h.queues }
  ProcessStep-IsKept (gossips p q sent) h = record { table = h.table; queues = h.queues }

  -- However the handlers, timers and schedules of a node and the calls of its user interleave, with
  -- `aliveNode`, `timeoutFn` and the calls that do not hold `nodeL` throughout split into their parts,
  -- whatever arrives from the network, and whatever the clock, the draws and the float64 arithmetic
  -- give: if `MaxAwarenessHealth` is at least 1, the table stays sound, that is, `nodes` and `nodeMap`
  -- hold the same nodes, each once, `numNodes` counts them, exactly the suspected nodes have a
  -- suspicion, set for their current life, and this node is never suspected, and is alive until it
  -- leaves; the health score stays in its range; and no more messages wait than the depth of their
  -- queue. Nothing is said of the order of the events.
  pub IsReachable-IsKept :
      {max : ℤ} {depth : ℕ} {q : TransmitCapQueue H} {p : Process H}
      → pos 1 ≤ℤ max
      → IsReachable fl ops ceil_log10 ub codec aead states s msgs l c has_ch max depth q p
      → IsKept c p
  IsReachable-IsKept {max = max} {depth = depth} h start = record {
    table = new_memberlist-IsGood c max h;
    queues = unfold new_long_run_msg_manager in record { high = omega arith; low = omega arith };
  }
  IsReachable-IsKept h (after r st) = ProcessStep-IsKept st (IsReachable-IsKept h r)
