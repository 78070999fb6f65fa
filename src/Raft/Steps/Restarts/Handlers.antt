-- ===== src/Raft/Steps/Restarts/Handlers.antt =====
-- Each handler keeps the stored vote.
use consensus_lab.Base.{ℕ, String, Option, eq_iff, arith}
use consensus_lab.Raft.Types.{
  Bytes, PersistentState, RequestVoteRequest, RequestVoteResponse, AppendEntriesRequest,
  InstallSnapshotRequest, InstallSnapshotResponse,
}
use consensus_lab.Raft.Storage.{Storage, IsDurable, IsAtomic}
use consensus_lab.Raft.Node.{hard_state}
use consensus_lab.Raft.Action.{Replica}
use consensus_lab.Raft.Vote.{handle_request_vote}
use consensus_lab.Raft.Append.{append_term_update, commit_update}
use consensus_lab.Raft.Command.{take_snapshot}
use consensus_lab.Raft.Commit.{advance_commit_index}
use consensus_lab.Raft.Install.{install_term_update, install}
use consensus_lab.Raft.Replicate.{send_install_snapshot}
use consensus_lab.Raft.Election.{start_election, handle_vote_response}
use consensus_lab.Raft.Steps.Restarts.{
  Vouched, Durably, save_hard_state_cases, set_log-hard, save_snapshot-hard,
}

module _ {S : Type 0} (st : Storage S) (stored : S → PersistentState) (s : Replica S) where
  pub election :
      IsDurable st stored
      → IsAtomic st stored
      → Vouched stored s
      → Durably stored s (start_election st s).1
  unfolding start_election hard_state
  election durable atomic base = grind (arith, save_hard_state_cases)

  pub vote :
      (req : RequestVoteRequest)
      → IsDurable st stored
      → IsAtomic st stored
      → Vouched stored s
      → Durably stored s (handle_request_vote st req s).1
  unfolding handle_request_vote hard_state
  vote req durable atomic base = grind (arith, save_hard_state_cases, eq_iff)

  pub advance :
      (now : ℕ)
      → IsDurable st stored
      → IsAtomic st stored
      → Vouched stored s
      → Durably stored s (advance_commit_index st now s).1
  unfolding advance_commit_index hard_state
  advance now durable atomic base = grind (arith, save_hard_state_cases)

  pub compacted :
      (index : ℕ) (bytes : Bytes)
      → IsDurable st stored
      → IsAtomic st stored
      → Vouched stored s
      → Durably stored s (take_snapshot st index bytes s).1
  unfolding take_snapshot
  compacted index bytes durable atomic base = grind (arith, save_snapshot-hard, set_log-hard)

  pub vote_answer :
      (votes majority : ℕ) (resp : RequestVoteResponse)
      → IsDurable st stored
      → IsAtomic st stored
      → Vouched stored s
      → Durably stored s (handle_vote_response st votes majority resp s).1
  unfolding handle_vote_response hard_state
  vote_answer votes majority resp durable atomic base = grind (arith, save_hard_state_cases)

  pub install_answer :
      (peer : String) (req : InstallSnapshotRequest) (answer : Option InstallSnapshotResponse)
      → IsDurable st stored
      → IsAtomic st stored
      → Vouched stored s
      → Durably stored s (send_install_snapshot st peer req answer s).1
  unfolding send_install_snapshot hard_state
  install_answer peer req answer durable atomic base = grind (arith, save_hard_state_cases)

  pub install_start :
      (req : InstallSnapshotRequest)
      → IsDurable st stored
      → IsAtomic st stored
      → Vouched stored s
      → Durably stored s (install_term_update st req s).1
  unfolding install_term_update hard_state
  install_start req durable atomic base = grind (arith, save_hard_state_cases)

  pub installed :
      (req : InstallSnapshotRequest)
      → IsDurable st stored
      → IsAtomic st stored
      → Vouched stored s
      → Durably stored s (install st req s).1
  unfolding install hard_state
  installed req durable atomic base =
      grind (arith, save_hard_state_cases, save_snapshot-hard, set_log-hard)

  pub append_start :
      (req : AppendEntriesRequest)
      → IsDurable st stored
      → IsAtomic st stored
      → Vouched stored s
      → Durably stored s (append_term_update st req s).1
  unfolding append_term_update hard_state
  append_start req durable atomic base = grind (arith, save_hard_state_cases)

  pub committed :
      (now : ℕ) (req : AppendEntriesRequest)
      → IsDurable st stored
      → IsAtomic st stored
      → Vouched stored s
      → Durably stored s (commit_update st now req s).1
  unfolding commit_update hard_state
  committed now req durable atomic base = grind (arith, save_hard_state_cases)
