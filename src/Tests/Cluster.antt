-- ===== src/Tests/Cluster.antt =====
-- A three-node cluster for the tests.
use consensus_lab.Base.{ℕ, String, false, none, List, [], ◌∷◌}
use consensus_lab.Raft.Types.{
  Role, follower, ClusterConfig, LogEntry, RequestVoteRequest, AppendEntriesRequest,
}
use consensus_lab.Raft.Node.{Node}
use consensus_lab.Raft.Storage.Memory.{InMemoryStorage, new_in_memory_storage}
use consensus_lab.Raft.Action.{Replica}

abbrev pub trio : ClusterConfig
trio = record { members = "a" ∷ "b" ∷ "c" ∷ [] }

abbrev pub entry : ℕ → ℕ → LogEntry
entry term byte = record { term = term; entry_type = 0; command = byte ∷ [] }

-- node "b" in the given role, term and vote, with the given log after the given snapshot index
abbrev pub node_b : Role → ℕ → String → List LogEntry → ℕ → ℕ → Node
node_b role term vote log base commit = record {
  id = "b";
  peers = "a" ∷ "c" ∷ [];
  role = role;
  current_term = term;
  voted_for = vote;
  degraded = false;
  log = log;
  snapshot_index = base;
  snapshot_term = 1;
  snapshot = none;
  pending_snapshot = none;
  commit_index = commit;
  last_applied = commit;
  last_applied_at = 0;
  start_seen_at = [];
  commit_seen_at = [];
  config = trio;
  next_index = λ _. 2;
  match_index = λ _. 2;
  replicate_in_flight = λ _. false;
  replicate_pending = λ _. false;
  election_timeout_reset = false;
  apply_notify = false;
  replicate_notify = false;
}

abbrev pub replica : Node → Replica InMemoryStorage
replica n = record { node = n; disk = new_in_memory_storage }

-- a follower in term 1 with entries 1 and 2, the second of which a newer leader replaces
abbrev pub behind : Replica InMemoryStorage
behind = replica (node_b follower 1 "" (entry 1 7 ∷ entry 1 8 ∷ []) 0 0)

abbrev pub ask_vote : String → ℕ → RequestVoteRequest
ask_vote id term = record { term = term; candidate_id = id; last_log_index = 2; last_log_term = 1 }

-- a leader of term 2 replaces entry 2 and adds entry 3
abbrev pub overwrite : AppendEntriesRequest
overwrite = record {
  term = 2;
  leader_id = "a";
  prev_log_index = 1;
  prev_log_term = 1;
  entries = entry 2 9 ∷ entry 2 10 ∷ [];
  leader_commit = 2;
}
