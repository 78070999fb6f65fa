-- ===== src/Tests/Runs.antt =====
-- The leader's side, the apply loop and snapshots on concrete replicas.
use consensus_lab.Base.{
  ◌+◌, ◌≤◌, ◌<◌, ◌≡◌, ◌≢◌, ◌⊎◌, min, refl, true, some, List, [], ◌∷◌, length, get_elem?, eq_iff,
  arith,
}
use consensus_lab.Raft.Types.{follower, leader, InstallSnapshotRequest, ApplyMsg, command_msg}
use consensus_lab.Raft.Storage.Memory.{InMemoryStorage, memory}
use consensus_lab.Raft.Node.{entry_at, last_log_index, quorum_size}
use consensus_lab.Raft.Action.{Replica, ok, panic}
use consensus_lab.Raft.Append.{reject}
use consensus_lab.Raft.Commit.{votes_for, find_commit, advance_commit_index}
use consensus_lab.Raft.Commit.Rule.{
  IsCommittable, advance_commit_index-IsCommittable, advance_commit_index_greatest,
}
use consensus_lab.Raft.Replicate.{handle_append_entries_response, append_entries_request_for_peer}
use consensus_lab.Raft.Replicate.Progress.{refused-next_index}
use consensus_lab.Raft.Command.{take_snapshot}
use consensus_lab.Raft.Command.Compaction.{
  take_snapshot_kept, take_snapshot-append_entries_request-panic,
}
use consensus_lab.Raft.Install.{handle_install_snapshot}
use consensus_lab.Raft.Apply.{take_entry, apply_entries}
use consensus_lab.Raft.Apply.Order.{waiting, apply_entries-count, apply_entries_in_order}
use consensus_lab.Raft.Apply.Race.{install-take_entry-panic}
use consensus_lab.Tests.Cluster.{node_b, replica, entry, overwrite, trio}

-- a leader of term 2; both peers hold the first two of its three entries
abbrev leading : Replica InMemoryStorage
leading = replica (node_b leader 2 "b" (entry 1 7 ∷ entry 2 8 ∷ entry 2 9 ∷ []) 0 0)

advance_commit_index-IsCommittable_example :
    let r = advance_commit_index memory 5 leading in
    (r.0 ≢ panic)
    × ((r.1.node.commit_index ≡ 0)
        ⊎ ((0 < r.1.node.commit_index)
            × (r.1.node.commit_index ≤ last_log_index leading.node)
            × IsCommittable leading.node r.1.node.commit_index))
advance_commit_index-IsCommittable_example =
    advance_commit_index-IsCommittable memory 5 leading (omega arith)

committed : (advance_commit_index memory 5 leading).1.node.commit_index ≡ 2
unfolding advance_commit_index find_commit votes_for quorum_size entry_at last_log_index memory
committed = refl

second-IsCommittable : IsCommittable leading.node 2
unfolding votes_for quorum_size entry_at
second-IsCommittable = (entry 2 8, refl, refl, omega arith)

advance_commit_index_greatest_example :
    2 ≤ (advance_commit_index memory 5 leading).1.node.commit_index
advance_commit_index_greatest_example =
    advance_commit_index_greatest memory 5 leading 2 (omega arith) (omega arith) in_log
      second-IsCommittable
  where
    in_log : 2 ≤ last_log_index leading.node
    in_log = unfold last_log_index in omega arith

refused-next_index_example :
    let after =
      (handle_append_entries_response memory 0 "a" overwrite (reject 2 0 9) leading).1.node in
    (1 ≤ after.next_index "a")
    × (after.next_index "a" < 2)
    × (after.next_index "c" ≡ 2)
    × (after.match_index ≡ leading.node.match_index)
    × (after.commit_index ≡ 0)
    × (after.replicate_notify ≡ true)
refused-next_index_example =
    refused-next_index memory 0 "a" overwrite (reject 2 0 9) leading "c" refl refl (omega arith)
      refl (omega arith) (λ e. cc ((eq_iff "c" "a").1 e))

snapshot_taken : (take_snapshot memory 2 [] leading).0 ≡ ok tt
unfolding take_snapshot entry_at last_log_index memory
snapshot_taken = refl

take_snapshot_kept_example :
    let after = (take_snapshot memory 2 [] leading).1.node in
    (entry_at after 3 ≡ entry_at leading.node 3)
    × (last_log_index after ≡ last_log_index leading.node)
    × (after.snapshot_index ≡ 2)
    × (after.commit_index ≡ 0)
take_snapshot_kept_example =
    take_snapshot_kept memory 2 [] leading 3 snapshot_taken (omega arith) (omega arith)

take_snapshot-append_entries_request-panic_example :
    (append_entries_request_for_peer "a" (take_snapshot memory 2 [] leading).1).0 ≡ panic
take_snapshot-append_entries_request-panic_example =
    take_snapshot-append_entries_request-panic memory 2 [] "a" leading snapshot_taken refl refl
      (omega arith) (omega arith)

-- a follower that has applied nothing of its two committed entries
abbrev applying : Replica InMemoryStorage
applying =
    replica (record (node_b follower 1 "" (entry 1 7 ∷ entry 1 8 ∷ []) 0 2) { last_applied = 0 })

apply_entries-count_example :
    (msgs : List ApplyMsg) × ((apply_entries 5 0 applying).0 ≡ ok msgs)
    × (length msgs ≡ min 5 (waiting applying.node))
    × ((apply_entries 5 0 applying).1.node.last_applied ≡ 0 + length msgs)
apply_entries-count_example = apply_entries-count 0 5 applying (omega arith)

abbrev both_sent : List ApplyMsg
both_sent = command_msg (7 ∷ []) 1 ∷ command_msg (8 ∷ []) 2 ∷ []

applied : (apply_entries 5 0 applying).0 ≡ ok both_sent
unfolding apply_entries entry_at last_log_index
applied = refl

apply_entries_in_order_example : get_elem? both_sent 1 ≡ some (command_msg (8 ∷ []) 2)
apply_entries_in_order_example =
    apply_entries_in_order 0 5 applying both_sent 1 (entry 1 8) (omega arith) applied (omega arith)
      (unfold entry_at in refl)

-- a leader's snapshot up to index 10 arrives while the loop is between two entries
abbrev newer_snapshot : InstallSnapshotRequest
newer_snapshot = record {
  term = 2;
  leader_id = "a";
  last_included_index = 10;
  last_included_term = 2;
  config = trio;
  bytes = [];
}

installed : (handle_install_snapshot memory newer_snapshot applying).0 ≡ ok (record { term = 2 })
unfolding handle_install_snapshot memory last_log_index
installed = refl

install-take_entry-panic_example :
    (take_entry (handle_install_snapshot memory newer_snapshot applying).1).0 ≡ panic
install-take_entry-panic_example =
    install-take_entry-panic memory newer_snapshot applying (record { term = 2 }) installed
      (omega arith) (omega arith) (omega arith)
