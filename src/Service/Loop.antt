-- ===== src/Service/Loop.antt =====
-- The apply loop of the service over many messages, and over what a replica's apply loop sends.
use consensus_lab.Base.{
  ℕ, ◌+◌, ◌^◌, ◌≤◌, ◌<◌, ◌≡◌, refl, ap, sym, ◌∙◌, List, [], ◌∷◌, length, map, inr, arith,
}
use consensus_lab.Raft.Types.{Bytes, ApplyMsg, command_msg, snapshot_msg, LogEntry}
use consensus_lab.Raft.Action.{Replica, ok}
use consensus_lab.Raft.Apply.{apply_entries}
use consensus_lab.Raft.Apply.Order.{apply_entries-count}
use consensus_lab.Raft.Apply.Messages.{
  messages_from, to_send, length-messages_from, apply_entries-messages_from,
}
use consensus_lab.Consensus.{Consensus}
use consensus_lab.Kv.{Command, Json, apply, apply_all}
use consensus_lab.Service.{
  Server, Handled, done, failed, crashed, applied, handle_apply, and_then, run_apply_loop,
}
use consensus_lab.Service.Applying.{handled_command, handled_command_count, handled_snapshot}

-- the messages, each with the time at which it is handled
abbrev pub Timed : Type 0
Timed = List (ℕ × ApplyMsg)

abbrev pub untimed : Timed → List ApplyMsg
untimed = map (λ t. t.1)

abbrev pub commands : List LogEntry → List Bytes
commands = map (λ e. e.command)

module _ {E C : Type 0} (json : Json E) (engine : Consensus C) where
  and_then_done :
      (r : Handled E (Unit {0}) × Server C) (next : Server C → Handled E (Unit {0}) × Server C)
      → (and_then json engine r next).0 ≡ done tt
      → (r.0 ≡ done tt) × (and_then json engine r next ≡ next r.1)
  unfolding and_then
  and_then_done (done u, v) next h = (refl, refl)
  and_then_done (failed e, v) next h = cc
  and_then_done (crashed, v) next h = cc

  and_then_next :
      (r : Handled E (Unit {0}) × Server C) (next : Server C → Handled E (Unit {0}) × Server C)
      → r.0 ≡ done tt
      → (and_then json engine r next).0 ≡ (next r.1).0
  unfolding and_then
  and_then_next (done u, v) next h = refl
  and_then_next (failed e, v) next h = cc
  and_then_next (crashed, v) next h = cc

  -- As long as no message fails, the number of commands since the last snapshot stays below the
  -- configured one, if snapshots are configured, their interval is below 2^64, and the number was
  -- below it before.
  pub run_apply_loop_bounds :
      (msgs : Timed) (v : Server C)
      → 0 < v.service.snapshot_every
      → v.service.snapshot_every < 2 ^ 64
      → v.service.applied_since_snap < v.service.snapshot_every
      → (run_apply_loop json engine msgs v).0 ≡ done tt
      → (run_apply_loop json engine msgs v).1.service.applied_since_snap < v.service.snapshot_every
  unfolding run_apply_loop
  run_apply_loop_bounds [] v pos bound below h = below
  run_apply_loop_bounds ((now, snapshot_msg bytes index) ∷ msgs) v pos bound below h =
      let r = handle_apply json engine now (snapshot_msg bytes index) v in
      let split = and_then_done r (run_apply_loop json engine msgs) h in
      let after = handled_snapshot json engine now index bytes v split.0 in
      let ih =
        run_apply_loop_bounds msgs r.1 (rw (after.0) pos) (rw (after.0) bound)
          (omega (arith, after.0, after.1)) (rw (split.1) at h) in
      rw (split.1) (omega (arith, ih, after.0))
  run_apply_loop_bounds ((now, command_msg bytes index) ∷ msgs) v pos bound below h =
      let r = handle_apply json engine now (command_msg bytes index) v in
      let split = and_then_done r (run_apply_loop json engine msgs) h in
      let after = handled_command json engine now index bytes v split.0 in
      let counted = handled_command_count json engine now index bytes v pos bound below split.0 in
      let ih =
        run_apply_loop_bounds msgs r.1 (rw (after.3) pos) (rw (after.3) bound)
          (omega (arith, after.3, counted)) (rw (split.1) at h) in
      rw (split.1) (omega (arith, ih, after.3))

  -- the entries' messages, handled without a failure
  run_apply_loop-messages_from :
      (es : List LogEntry) (first : ℕ) (msgs : Timed) (v : Server C)
      → untimed msgs ≡ messages_from first es
      → first ≡ v.service.last_applied_index + 1
      → (run_apply_loop json engine msgs v).0 ≡ done tt
      → let after = (run_apply_loop json engine msgs v).1.service in
        (after.store ≡ apply_all json (commands es) v.service.store)
        × (after.last_applied_index ≡ v.service.last_applied_index + length es)
  unfolding run_apply_loop messages_from apply_all
  run_apply_loop-messages_from [] first [] v same next h = (refl, omega arith)
  run_apply_loop-messages_from [] first (m ∷ msgs) v same next h = cc
  run_apply_loop-messages_from (e ∷ es) first [] v same next h = cc
  run_apply_loop-messages_from (e ∷ es) first ((now, snapshot_msg bytes index) ∷ msgs) v same next
        h =
      cc
  run_apply_loop-messages_from (e ∷ es) first ((now, command_msg bytes index) ∷ msgs) v same next
        h =
      let r = handle_apply json engine now (command_msg bytes index) v in
      let split = and_then_done r (run_apply_loop json engine msgs) h in
      let after = handled_command json engine now index bytes v split.0 in
      let here : (bytes ≡ e.command) × (index ≡ first) = (cc, cc) in
      let ih =
        run_apply_loop-messages_from es (first + 1) msgs r.1 (cc) (omega (arith, after.2, here.1))
          (rw (split.1) at h) in
      rw (split.1) (
        ih.0
            ∙ ap (apply_all json (commands es))
                (after.1 ∙ ap (λ b. (apply json b v.service.store).1) here.0),
        omega (arith, ih.1, after.2, here.1),
      )

module _ {S E C : Type 0} (json : Json E) (engine : Consensus C) where
  -- A service that handles what an uninterrupted run of a replica's apply loop sends, without a
  -- failure, and that had applied as much as the replica before, has applied the commands of the
  -- committed entries of the log, one after the other, and is as far as the replica again.
  pub run_apply_loop-apply_entries :
      (now fuel : ℕ) (s : Replica S) (sent : List ApplyMsg) (msgs : Timed) (v : Server C)
      → s.node.snapshot_index ≤ s.node.last_applied
      → v.service.last_applied_index ≡ s.node.last_applied
      → (apply_entries fuel now s).0 ≡ ok sent
      → untimed msgs ≡ sent
      → (run_apply_loop json engine msgs v).0 ≡ done tt
      → let after = (run_apply_loop json engine msgs v).1.service in
        (after.store ≡ apply_all json (commands (to_send fuel s.node)) v.service.store)
        × (after.last_applied_index ≡ (apply_entries fuel now s).1.node.last_applied)
  run_apply_loop-apply_entries now fuel s sent msgs v base level returned timed h =
      let own = apply_entries-messages_from now fuel s base in
      let same : sent ≡ messages_from (s.node.last_applied + 1) (to_send fuel s.node) =
        cc (returned, own) in
      let (counted_msgs, returned', count, moved) = apply_entries-count now fuel s base in
      let size : length (to_send fuel s.node) ≡ length counted_msgs =
        sym (length-messages_from (s.node.last_applied + 1) (to_send fuel s.node))
        ∙ ap length (cc (own, returned')) in
      let facts =
        run_apply_loop-messages_from json engine (to_send fuel s.node) (s.node.last_applied + 1)
          msgs v (timed ∙ same) (omega (arith, level)) h in
      (facts.0, omega (arith, facts.1, moved, size, level))

-- every command of the entries decodes
unfoldable pub AllDecode : {E : Type 0} → Json E → List LogEntry → Type 0
AllDecode json [] = Unit
AllDecode json (e ∷ es) =
    ((cmd : Command) × (json.unmarshal_command e.command ≡ inr cmd)) × AllDecode json es

module _ {E C : Type 0} (json : Json E) (engine : Consensus C) where
  handle_apply_done :
      (now index : ℕ) (bytes : Bytes) (v : Server C) (cmd : Command)
      → v.service.snapshot_every ≡ 0
      → json.unmarshal_command bytes ≡ inr cmd
      → (handle_apply json engine now (command_msg bytes index) v).0 ≡ done tt
  unfolding handle_apply applied apply
  handle_apply_done now index bytes v cmd off decoded = ground arith

  run_apply_loop_done :
      (es : List LogEntry) (first : ℕ) (msgs : Timed) (v : Server C)
      → untimed msgs ≡ messages_from first es
      → v.service.snapshot_every ≡ 0
      → AllDecode json es
      → (run_apply_loop json engine msgs v).0 ≡ done tt
  unfolding run_apply_loop messages_from AllDecode and_then
  run_apply_loop_done [] first [] v same off decode = refl
  run_apply_loop_done [] first (m ∷ msgs) v same off decode = cc
  run_apply_loop_done (e ∷ es) first [] v same off decode = cc
  run_apply_loop_done (e ∷ es) first ((now, snapshot_msg bytes index) ∷ msgs) v same off decode = cc
  run_apply_loop_done (e ∷ es) first ((now, command_msg bytes index) ∷ msgs) v same off decode =
      let r = handle_apply json engine now (command_msg bytes index) v in
      let own : bytes ≡ e.command = cc in
      let here =
        handle_apply_done now index bytes v decode.0.0 off
          (ap json.unmarshal_command own ∙ decode.0.1) in
      let after = handled_command json engine now index bytes v here in
      and_then_next json engine r (run_apply_loop json engine msgs) here
      ∙ run_apply_loop_done es (first + 1) msgs r.1 (cc) (after.3 ∙ off) decode.1

  -- A service without snapshots handles what an uninterrupted run of a replica's apply loop sends,
  -- where every command of the entries decodes and the log reaches back to the applied entries,
  -- without a failure: if it had applied as much as the replica before, then it has applied the
  -- commands of the committed entries of the log, one after the other, and is as far as the replica
  -- again.
  pub run_apply_loop-apply_entries_total :
      {S : Type 0} (now fuel : ℕ) (s : Replica S) (sent : List ApplyMsg) (msgs : Timed)
      (v : Server C)
      → s.node.snapshot_index ≤ s.node.last_applied
      → v.service.last_applied_index ≡ s.node.last_applied
      → v.service.snapshot_every ≡ 0
      → AllDecode json (to_send fuel s.node)
      → (apply_entries fuel now s).0 ≡ ok sent
      → untimed msgs ≡ sent
      → let r = run_apply_loop json engine msgs v in
        (r.0 ≡ done tt)
        × (r.1.service.store ≡ apply_all json (commands (to_send fuel s.node)) v.service.store)
        × (r.1.service.last_applied_index ≡ (apply_entries fuel now s).1.node.last_applied)
  run_apply_loop-apply_entries_total now fuel s sent msgs v base level off decode returned timed =
      let first = s.node.last_applied + 1 in
      let own = apply_entries-messages_from now fuel s base in
      let same : sent ≡ messages_from first (to_send fuel s.node) = cc (returned, own) in
      let all_done =
        run_apply_loop_done (to_send fuel s.node) first msgs v (timed ∙ same) off decode in
      let facts =
        run_apply_loop-apply_entries json engine now fuel s sent msgs v base level returned timed
          all_done in
      (all_done, facts.0, facts.1)
