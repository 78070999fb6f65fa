-- ===== src/Raft/Apply/Order.antt =====
-- The state machine receives the committed entries in order, each once.
use consensus_lab.Base.{
  ℕ, zero, suc, ◌+◌, ◌-◌, ◌≤◌, ◌<◌, min, ◌≡◌, inl, inr, refl, ap, ◌∙◌, some, List, [], ◌∷◌, length,
  get_elem?, leb, leb→le, leb→gt, Bool-cases, arith,
}
use consensus_lab.Raft.Types.{LogEntry, ApplyMsg, command_msg}
use consensus_lab.Raft.Node.{Node, last_log_index, entry_at}
use consensus_lab.Raft.Node.Index.{entry_at-some}
use consensus_lab.Raft.Action.{Replica, Outcome, ok, continue, pure}
use consensus_lab.Raft.Apply.{entry_sent, apply_entries}

-- how many entries wait
abbrev pub waiting : Node → ℕ
waiting n = min n.commit_index (last_log_index n) - n.last_applied

module _ {S : Type 0} (now : ℕ) where
  -- the replica after its next entry was taken and sent
  sent : Replica S → Replica S
  unfolding entry_sent
  sent s =
      (entry_sent now
        (record s { node = record s.node { last_applied = s.node.last_applied + 1 } })).1

  sent_fields :
      (s : Replica S)
      → let n = (sent s).node in
        (n.log ≡ s.node.log)
        × (n.snapshot_index ≡ s.node.snapshot_index)
        × (n.commit_index ≡ s.node.commit_index)
        × (n.last_applied ≡ s.node.last_applied + 1)
  unfolding sent
  sent_fields s = (refl, refl, refl, refl)

  last_log_index-sent : (s : Replica S) → last_log_index (sent s).node ≡ last_log_index s.node
  unfolding sent last_log_index
  last_log_index-sent s = refl

  entry_at-sent : (s : Replica S) (i : ℕ) → entry_at (sent s).node i ≡ entry_at s.node i
  unfolding sent entry_at
  entry_at-sent s i = refl

  apply_entries-zero : (s : Replica S) → apply_entries 0 now s ≡ (ok [], s)
  unfolding apply_entries
  apply_entries-zero s = refl

  apply_entries-done :
      (fuel : ℕ) (s : Replica S) → waiting s.node ≡ 0 → apply_entries fuel now s ≡ (ok [], s)
  unfolding apply_entries
  apply_entries-done zero s idle = refl
  apply_entries-done (suc fuel) s idle = ground arith

  apply_entries-next :
      (fuel : ℕ) (s : Replica S) (e : LogEntry)
      → 0 < waiting s.node
      → entry_at s.node (s.node.last_applied + 1) ≡ some e
      → apply_entries (suc fuel) now s
        ≡ continue
            (apply_entries fuel now (sent s)).0
            (λ msgs. pure (command_msg e.command (s.node.last_applied + 1) ∷ msgs))
            (apply_entries fuel now (sent s)).1
  unfolding apply_entries sent
  apply_entries-next fuel s e busy read = ground arith

  -- What a run of the loop has sent.
  record Sends (fuel : ℕ) (s : Replica S) (r : Outcome (List ApplyMsg) × Replica S) : Type 0 where
    msgs : List ApplyMsg
    returned : r.0 ≡ ok msgs
    count : length msgs ≡ min fuel (waiting s.node)
    applied : r.1.node.last_applied ≡ s.node.last_applied + length msgs
    in_order :
        (k : ℕ) (e : LogEntry)
        → k < length msgs
        → entry_at s.node (s.node.last_applied + 1 + k) ≡ some e
        → get_elem? msgs k ≡ some (command_msg e.command (s.node.last_applied + 1 + k))

  Sends-nothing :
      (fuel : ℕ) (s : Replica S) → min fuel (waiting s.node) ≡ 0 → Sends fuel s (ok [], s)
  Sends-nothing fuel s idle = record {
    msgs = [];
    returned = refl;
    count = omega arith;
    applied = omega arith;
    in_order = λ k e h. absurd (omega arith);
  }

  in_order-next :
      (fuel : ℕ) (s : Replica S) (e : LogEntry) (r : Outcome (List ApplyMsg) × Replica S)
      (rest : Sends fuel (sent s) r) (k : ℕ) (x : LogEntry)
      → entry_at s.node (s.node.last_applied + 1) ≡ some e
      → k < suc (length rest.msgs)
      → entry_at s.node (s.node.last_applied + 1 + k) ≡ some x
      → get_elem? (command_msg e.command (s.node.last_applied + 1) ∷ rest.msgs) k
        ≡ some (command_msg x.command (s.node.last_applied + 1 + k))
  in_order-next fuel s e r rest zero x read below at =
      let here : s.node.last_applied + 1 + 0 ≡ s.node.last_applied + 1 = omega arith in
      ground (arith, ap (entry_at s.node) here, here)
  in_order-next fuel s e r rest (suc k) x read below at =
      let i = s.node.last_applied + 1 + suc k in
      let shift : (sent s).node.last_applied + 1 + k ≡ i = omega (arith, (sent_fields s).3) in
      rw shift at (rest.in_order k x (omega arith) (rw shift (entry_at-sent s i ∙ at)))

  Sends-next :
      (fuel : ℕ) (s : Replica S) (e : LogEntry) (r : Outcome (List ApplyMsg) × Replica S)
      → 0 < waiting s.node
      → entry_at s.node (s.node.last_applied + 1) ≡ some e
      → Sends fuel (sent s) r
      → Sends
          (suc fuel)
          s
          (continue r.0 (λ msgs. pure (command_msg e.command (s.node.last_applied + 1) ∷ msgs)) r.1)
  Sends-next fuel s e r busy read rest = record {
    msgs = command_msg e.command (s.node.last_applied + 1) ∷ rest.msgs;
    returned = rw rest.returned;
    count = omega (arith, rest.count, (sent_fields s).2, (sent_fields s).3, last_log_index-sent s);
    applied = rw rest.returned (omega (arith, rest.applied, (sent_fields s).3));
    in_order = λ k x below at. in_order-next fuel s e r rest k x read below at;
  }

  apply_entries_lem :
      (fuel : ℕ) (s : Replica S)
      → s.node.snapshot_index ≤ s.node.last_applied
      → Sends fuel s (apply_entries fuel now s)
  apply_entries_lem zero s base = rw (apply_entries-zero s) (Sends-nothing zero s (omega arith))
  apply_entries_lem (suc fuel) s base = elim (Bool-cases (leb (waiting s.node) 0)) [
    | inl idle ↦
        rw (apply_entries-done (suc fuel) s (omega (arith, leb→le _ _ idle)))
          (Sends-nothing (suc fuel) s (omega (arith, leb→le _ _ idle)))
    | inr busy ↦
        let (e, read) =
          entry_at-some s.node (s.node.last_applied + 1) (omega arith)
            (omega (arith, leb→gt _ _ busy)) in
        rw (apply_entries-next fuel s e (leb→gt _ _ busy) read) (
          Sends-next fuel s e (apply_entries fuel now (sent s)) (leb→gt _ _ busy) read
            (apply_entries_lem fuel (sent s) (omega (arith, (sent_fields s).1, (sent_fields s).3))))
  ]

module _ {S : Type 0} (now fuel : ℕ) (s : Replica S) where
  -- An uninterrupted run of the apply loop, over a log that reaches back to the applied entries,
  -- does not panic and sends one message for each waiting entry, as far as the fuel goes; the last
  -- applied index moves by their number.
  pub apply_entries-count :
      s.node.snapshot_index ≤ s.node.last_applied
      → (msgs : List ApplyMsg) × ((apply_entries fuel now s).0 ≡ ok msgs)
        × (length msgs ≡ min fuel (waiting s.node))
        × ((apply_entries fuel now s).1.node.last_applied ≡ s.node.last_applied + length msgs)
  apply_entries-count base =
      let sends = apply_entries_lem now fuel s base in
      (sends.msgs, sends.returned, sends.count, sends.applied)

  -- The messages of an uninterrupted run of the apply loop, over a log that reaches back to the
  -- applied entries, carry the commands of the entries after the last applied one, in the order of
  -- their indices and with these indices.
  pub apply_entries_in_order :
      (msgs : List ApplyMsg) (k : ℕ) (e : LogEntry)
      → s.node.snapshot_index ≤ s.node.last_applied
      → (apply_entries fuel now s).0 ≡ ok msgs
      → k < length msgs
      → entry_at s.node (s.node.last_applied + 1 + k) ≡ some e
      → get_elem? msgs k ≡ some (command_msg e.command (s.node.last_applied + 1 + k))
  apply_entries_in_order msgs k e base returned below at =
      let sends = apply_entries_lem now fuel s base in
      let same : sends.msgs ≡ msgs = cc (sends.returned) in
      rw same at (sends.in_order k e (rw same below) at)
