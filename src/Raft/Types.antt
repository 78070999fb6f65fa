-- ===== src/Raft/Types.antt =====
-- The data of internal/consensus/raft/types.go, storage.go and of consensus.ApplyMsg.
-- An int64 term or index is a number: no operation of the program makes one negative. Bytes are
-- lists of numbers; nil and empty slices are one list, since the code tests only their length.
use consensus_lab.Base.{ℕ, String, Bool, Option, List}

abbrev pub Bytes : Type 0
Bytes = List ℕ

pub data Role : Type 0 where
  follower candidate leader : Role

pub data NodeStatus : Type 0 where
  healthy degraded : NodeStatus

pub data Error : Type 0 where
  node_degraded : Error
  nil_storage nil_logger : Error
  -- what a `Storage` returns
  storage_error : String → Error
  -- `Snapshot` with an index beyond the log
  beyond_last_index : ℕ → ℕ → Error

pub record ClusterConfig : Type 0 where
  pub members : List String

-- `EntryCommand`, the only entry type
abbrev pub entry_command : ℕ
entry_command = 0

pub record LogEntry : Type 0 where
  pub term : ℕ
  pub entry_type : ℕ
  pub command : Bytes

pub record AppendEntriesRequest : Type 0 where
  pub term : ℕ
  pub leader_id : String
  pub prev_log_index : ℕ
  pub prev_log_term : ℕ
  pub entries : List LogEntry
  pub leader_commit : ℕ

pub record AppendEntriesResponse : Type 0 where
  pub term : ℕ
  pub success : Bool
  pub conflict_term : ℕ
  pub conflict_index : ℕ

pub record HardState : Type 0 where
  pub current_term : ℕ
  pub voted_for : String
  pub commit_index : ℕ
  pub config : ClusterConfig

pub record RequestVoteRequest : Type 0 where
  pub term : ℕ
  pub candidate_id : String
  pub last_log_index : ℕ
  pub last_log_term : ℕ

pub record RequestVoteResponse : Type 0 where
  pub term : ℕ
  pub vote_granted : Bool

pub record Snapshot : Type 0 where
  pub last_included_index : ℕ
  pub last_included_term : ℕ
  pub config : ClusterConfig
  pub bytes : Bytes

pub record InstallSnapshotRequest : Type 0 where
  pub term : ℕ
  pub leader_id : String
  pub last_included_index : ℕ
  pub last_included_term : ℕ
  pub config : ClusterConfig
  pub bytes : Bytes

pub record InstallSnapshotResponse : Type 0 where
  pub term : ℕ

pub record PersistentState : Type 0 where
  pub hard : HardState
  pub log_base : ℕ
  pub snapshot : Option Snapshot
  pub log : List LogEntry

-- `CommandValid` and `SnapshotValid` select the constructor; the program sends no other message.
pub data ApplyMsg : Type 0 where
  command_msg : Bytes → ℕ → ApplyMsg
  snapshot_msg : Bytes → ℕ → ApplyMsg
