-- ===== src/Tests/Commands.antt =====
-- Commands of clients on a concrete leader.
use consensus_lab.Base.{◌≤◌, ◌≡◌, ◌≢◌, refl, true, false, List, [], ◌∷◌, ◌++◌, arith}
use consensus_lab.Raft.Types.{leader}
use consensus_lab.Raft.Storage.Memory.Durable.{memory-IsDurable, memory-IsAtomic}
use consensus_lab.Raft.Storage.Memory.{InMemoryStorage, memory, load_state}
use consensus_lab.Raft.Node.{last_log_index, entry_at, quorum_size}
use consensus_lab.Raft.Action.{Replica, ok, panic}
use consensus_lab.Raft.Commit.{find_commit, votes_for, advance_commit_index}
use consensus_lab.Raft.Command.{start_command, command_entry}
use consensus_lab.Raft.Command.Accepted.{start_command_stored}
use consensus_lab.Raft.Steps.{Event, command, compaction, after, run}
use consensus_lab.Raft.Steps.Covered.Runs.{
  AllCompactCommitted, run-IsCovered, run-start_command-ne-panic,
}
use consensus_lab.Tests.Cluster.{behind, node_b, replica, entry}

-- a leader of term 2; both peers hold the first two of its entries
abbrev leading : Replica InMemoryStorage
leading = replica (node_b leader 2 "b" (entry 1 7 ∷ entry 2 8 ∷ []) 0 0)

accepted : (start_command memory 5 (9 ∷ []) leading).0 ≡ ok (3, true)
unfolding start_command advance_commit_index find_commit votes_for quorum_size entry_at
    last_log_index memory
accepted = refl

accepted_and_stored :
    (load_state (start_command memory 5 (9 ∷ []) leading).1.disk).log
    ≡ (load_state leading.disk).log ++ command_entry leading.node (9 ∷ []) ∷ []
accepted_and_stored =
    start_command_stored memory load_state 5 (9 ∷ []) leading 3 memory-IsDurable memory-IsAtomic
      accepted

refused : (start_command memory 5 (9 ∷ []) behind).0 ≡ ok (0, false)
unfolding start_command
refused = refl

-- the command commits entry 2, which is then compacted
abbrev events : List Event
events = command 5 (9 ∷ []) ∷ compaction 2 (1 ∷ []) ∷ []

allowed : AllCompactCommitted memory events leading
unfolding AllCompactCommitted after start_command advance_commit_index find_commit votes_for
    quorum_size entry_at last_log_index memory
allowed = (tt, (omega arith, tt))

run-IsCovered_example :
    (run memory events leading).node.snapshot_index ≤ (run memory events leading).node.commit_index
run-IsCovered_example = run-IsCovered memory events leading allowed (omega arith)

run-start_command-ne-panic_example :
    (start_command memory 6 (3 ∷ []) (run memory events leading)).0 ≢ panic
run-start_command-ne-panic_example =
    run-start_command-ne-panic memory events leading 6 (3 ∷ []) allowed (omega arith)
