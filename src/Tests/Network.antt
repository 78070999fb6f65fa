-- ===== src/Tests/Network.antt =====
-- Three replicas with requests between them: a run in which a command reaches a second log.
use consensus_lab.Base.{
  ◌≡◌, inl, refl, String, some, List, [], ◌∷◌, if◌then◌else◌, str_eq, eq_iff, arith,
}
use consensus_lab.Raft.Types.{leader, follower, AppendEntriesRequest}
use consensus_lab.Raft.Storage.Memory.{InMemoryStorage, memory}
use consensus_lab.Raft.Node.{entry_at, last_log_index, last_log_term, quorum_size}
use consensus_lab.Raft.Action.{Replica}
use consensus_lab.Raft.Command.{start_command, is_leader}
use consensus_lab.Raft.Commit.{advance_commit_index, find_commit, votes_for}
use consensus_lab.Raft.Replicate.{append_entries_request_for_peer, build_append_entries}
use consensus_lab.Raft.Append.{
  handle_append_entries, append_term_update, append_current, after_check, check_prev, merge_entries,
  append_suffix, replace_suffix, commit_update,
}
use consensus_lab.Raft.Steps.{Event, command, append_for, append_entries, after}
use consensus_lab.Raft.Cluster.Network.{
  Network, WasSent, sent_after, deliver, deliver_all, IsPossible, ArePossible,
}
use consensus_lab.Raft.Cluster.Network.Runs.{log_matching}
use consensus_lab.Tests.Cluster.{node_b, replica, entry}

abbrev others : String → List String
others m =
    if str_eq m "b" then "a" ∷ "c" ∷ [] else if str_eq m "a" then "b" ∷ "c" ∷ [] else "a" ∷ "b" ∷ []

-- "b" leads term 1, the others follow; no log has an entry
abbrev members : String → Replica InMemoryStorage
members m = replica (record (node_b (if str_eq m "b" then leader else follower) 1 "b" [] 0 0) {
  id = m;
  peers = others m;
  snapshot_term = 0;
  next_index = λ _. 1;
  match_index = λ _. 0;
})

abbrev quiet_network : Network InMemoryStorage
quiet_network = record { replica = members; sent = [] }

abbrev first_request : AppendEntriesRequest
first_request = record {
  term = 1;
  leader_id = "b";
  prev_log_index = 0;
  prev_log_term = 0;
  entries = entry 1 7 ∷ [];
  leader_commit = 0;
}

abbrev run : List (String × Event)
run = ("b", command 0 (7 ∷ [])) ∷ ("b", append_for "c") ∷ ("c", append_entries 0 first_request) ∷ []

run-ArePossible : ArePossible memory (λ _. "b") run quiet_network
unfolding ArePossible IsPossible deliver WasSent sent_after after start_command advance_commit_index
    find_commit votes_for quorum_size is_leader entry_at last_log_index last_log_term
    append_entries_request_for_peer build_append_entries memory
run-ArePossible = (
  λ _. refl,
  tt,
  (
    λ _. refl,
    tt,
    (
      λ lead. absurd (cc lead),
      (("b", λ e. cc ((eq_iff "b" "c").1 e), inl refl), λ early. omega arith),
      tt,
    ),
  ),
)

read_b : entry_at ((deliver_all memory run quiet_network).replica "b").node 1 ≡ some (entry 1 7)
unfolding deliver_all deliver sent_after after start_command advance_commit_index find_commit
    votes_for quorum_size is_leader entry_at last_log_index last_log_term
    append_entries_request_for_peer build_append_entries memory
read_b = refl

read_c : entry_at ((deliver_all memory run quiet_network).replica "c").node 1 ≡ some (entry 1 7)
unfolding deliver_all deliver sent_after after start_command advance_commit_index find_commit
    votes_for quorum_size is_leader entry_at last_log_index last_log_term
    append_entries_request_for_peer build_append_entries memory handle_append_entries
    append_term_update append_current after_check check_prev merge_entries append_suffix
    replace_suffix commit_update
read_c = refl

log_matching_example : entry 1 7 ≡ entry 1 7
log_matching_example =
    log_matching memory (λ _. "b") run quiet_network "b" "c" 1 1 (entry 1 7) (entry 1 7) (entry 1 7)
      (entry 1 7) (λ _. refl) refl run-ArePossible read_b read_c refl (omega arith) read_b read_c
