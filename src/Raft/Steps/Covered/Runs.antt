-- ===== src/Raft/Steps/Covered/Runs.antt =====
-- The snapshot stays within the committed entries in every run that compacts only those.
use consensus_lab.Base.{ℕ, ◌≤◌, ◌≢◌, ◌++◌, List, [], ◌∷◌, arith}
use consensus_lab.Raft.Types.{Bytes}
use consensus_lab.Raft.Storage.{Storage}
use consensus_lab.Raft.Node.{Node}
use consensus_lab.Raft.Action.{Replica, panic, continue-ne-panic, persist_append_log}
use consensus_lab.Raft.Command.{start_command, command_appended, command_entry}
use consensus_lab.Raft.Commit.{advance_commit_index}
use consensus_lab.Raft.Commit.Rule.{advance_commit_index-IsCommittable}
use consensus_lab.Raft.Election.{election_timeout}
use consensus_lab.Raft.Apply.{take_pending, snapshot_sent, entry_sent}
use consensus_lab.Raft.Steps.{
  Event, request_vote, append_entries, install_snapshot, command, compaction, timeout, start,
  vote_answered, append_for, install_for, append_answered, install_answered, pending_taken,
  entry_taken, pending_sent, command_sent, after, run,
}
use consensus_lab.Raft.Steps.Covered.{
  IsCovered, SameIndices, vote, installed, compacted, election, vote_answer, requested,
  snapshot_requested, install_answer, entry, new_command, append_answer, append,
}

-- only committed entries are compacted
pub CompactsCommitted : {S : Type 0} → Event → Replica S → Type 0
CompactsCommitted (compaction index bytes) s = index ≤ s.node.commit_index
CompactsCommitted _ s = Unit

module _ {S : Type 0} (st : Storage S) where
  unfoldable pub AllCompactCommitted : List Event → Replica S → Type 0
  unfolding CompactsCommitted
  AllCompactCommitted [] s = Unit
  AllCompactCommitted (e ∷ es) s = CompactsCommitted e s × AllCompactCommitted es (after st e s)

  of_same : (a b : Node) → SameIndices a b → IsCovered a → IsCovered b
  of_same a b same base = omega (arith, same.0, same.1)

  after-IsCovered :
      (e : Event) (s : Replica S)
      → CompactsCommitted e s
      → IsCovered s.node
      → IsCovered (after st e s).node
  unfolding after election_timeout take_pending snapshot_sent entry_sent CompactsCommitted
  after-IsCovered (request_vote req) s _ base =
      of_same s.node (after st (request_vote req) s).node (vote st s req) base
  after-IsCovered (append_entries now req) s _ base = append st now req s base
  after-IsCovered (install_snapshot req) s _ base = installed st s req base
  after-IsCovered (command now cmd) s _ base = new_command st now cmd s base
  after-IsCovered (compaction index bytes) s within base = compacted st s index bytes base within
  after-IsCovered timeout s _ base = base
  after-IsCovered start s _ base = of_same s.node (after st start s).node (election st s) base
  after-IsCovered (vote_answered votes majority resp) s _ base =
      of_same s.node (after st (vote_answered votes majority resp) s).node
        (vote_answer st s votes majority resp) base
  after-IsCovered (append_for peer) s _ base =
      of_same s.node (after st (append_for peer) s).node (requested st s peer) base
  after-IsCovered (install_for peer) s _ base =
      of_same s.node (after st (install_for peer) s).node (snapshot_requested st s peer) base
  after-IsCovered (append_answered now peer req answer) s _ base =
      append_answer st now peer req answer s base
  after-IsCovered (install_answered peer req answer) s _ base =
      of_same s.node (after st (install_answered peer req answer) s).node
        (install_answer st s peer req answer) base
  after-IsCovered pending_taken s _ base = base
  after-IsCovered entry_taken s _ base =
      of_same s.node (after st entry_taken s).node (entry st s) base
  after-IsCovered (pending_sent now snap) s _ base = base
  after-IsCovered (command_sent now) s _ base = base

  -- Over any sequence of events in which only committed entries are compacted, the snapshot stays
  -- within the committed entries if it was there before.
  pub run-IsCovered :
      (es : List Event) (s : Replica S)
      → AllCompactCommitted es s
      → s.node.snapshot_index ≤ s.node.commit_index
      → (run st es s).node.snapshot_index ≤ (run st es s).node.commit_index
  unfolding run AllCompactCommitted
  run-IsCovered [] s _ base = base
  run-IsCovered (e ∷ es) s within base =
      run-IsCovered es (after st e s) within.1 (after-IsCovered e s within.0 base)

  appended-ne-panic :
      (now : ℕ) (s : Replica S) → IsCovered s.node → (command_appended st now s).0 ≢ panic
  unfolding command_appended
  appended-ne-panic now s base =
      continue-ne-panic (advance_commit_index st now _).0 _ (advance_commit_index st now _).1
        (advance_commit_index-IsCommittable st now _ base).0 (λ advanced. ground arith)

  -- After any sequence of events in which only committed entries are compacted, from a replica
  -- whose snapshot is within the committed entries, no command of a client makes StartCommand
  -- panic.
  pub run-start_command-ne-panic :
      (es : List Event) (s : Replica S) (now : ℕ) (cmd : Bytes)
      → AllCompactCommitted es s
      → s.node.snapshot_index ≤ s.node.commit_index
      → (start_command st now cmd (run st es s)).0 ≢ panic
  unfolding start_command
  run-start_command-ne-panic es s now cmd within base =
      let t = run st es s in
      let entries = command_entry t.node cmd ∷ [] in
      let grown : Replica S = record t { node = record t.node { log = t.node.log ++ entries } } in
      let saved = persist_append_log st entries grown in
      ground (arith, run-IsCovered es s within base, appended-ne-panic now saved.1)
