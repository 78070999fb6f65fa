-- ===== src/Transport/Messages.antt =====
-- The messages of api/proto/raft/v1/raft.proto, as pkg/proto/raftv1/raft.pb.go declares them. An
-- int64 is a number, as it is in the requests of the replica.
use consensus_lab.Base.{ℕ, String, Bool, Option, List}
use consensus_lab.Raft.Types.{Bytes}

pub record PbRequestVoteRequest : Type 0 where
  pub term : ℕ
  pub candidate_id : String
  pub last_log_index : ℕ
  pub last_log_term : ℕ

pub record PbRequestVoteResponse : Type 0 where
  pub term : ℕ
  pub vote_granted : Bool

pub record PbLogEntry : Type 0 where
  pub term : ℕ
  pub command : Bytes

pub record PbAppendEntriesRequest : Type 0 where
  pub term : ℕ
  pub leader_id : String
  pub prev_log_index : ℕ
  pub prev_log_term : ℕ
  pub entries : List PbLogEntry
  pub leader_commit : ℕ

pub record PbAppendEntriesResponse : Type 0 where
  pub term : ℕ
  pub success : Bool
  pub conflict_index : ℕ
  pub conflict_term : ℕ

pub record PbClusterConfig : Type 0 where
  pub members : List String

-- the configuration is a pointer, which may be nil
pub record PbInstallSnapshotRequest : Type 0 where
  pub term : ℕ
  pub leader_id : String
  pub last_included_index : ℕ
  pub last_included_term : ℕ
  pub config : Option PbClusterConfig
  pub bytes : Bytes

pub record PbInstallSnapshotResponse : Type 0 where
  pub term : ℕ
