-- ===== src/Raft/Report.antt =====
-- `AdminState` of internal/consensus/raft/admin.go: what a node reports. `sort.Strings` is the
-- argument `sort`; the zero time is 0.
use consensus_lab.Base.{ℕ, ltb, String, Option, none, some, List, [], length, map, if◌then◌else◌}
use consensus_lab.Raft.Types.{Role, NodeStatus, healthy, degraded, Snapshot}
use consensus_lab.Raft.Node.{Node, quorum_size, last_log_index, last_log_term}
use consensus_lab.Raft.Command.{is_leader_role}

pub record AdminPeerState : Type 0 where
  pub node_id : String
  pub match_index : ℕ
  pub next_index : ℕ

pub record AdminState : Type 0 where
  pub node_id : String
  pub leader_id : String
  pub role : Role
  pub status : NodeStatus
  pub term : ℕ
  pub commit_index : ℕ
  pub last_applied : ℕ
  pub last_applied_at : ℕ
  pub last_log_index : ℕ
  pub last_log_term : ℕ
  pub snapshot_last_index : ℕ
  pub snapshot_last_term : ℕ
  pub snapshot_size_bytes : ℕ
  pub cluster_members : List String
  pub quorum_size : ℕ
  pub peers : List AdminPeerState

abbrev pub snapshot_size : Option Snapshot → ℕ
snapshot_size none = 0
snapshot_size (some snap) = length snap.bytes

abbrev pub peer_state : Node → String → AdminPeerState
peer_state n peer = record {
  node_id = peer;
  match_index = n.match_index peer;
  next_index = n.next_index peer;
}

unfoldable pub admin_state : (List String → List String) → Node → AdminState
admin_state sort n = record {
  node_id = n.id;
  leader_id = if is_leader_role n.role then n.id else "";
  role = n.role;
  status = if n.degraded then degraded else healthy;
  term = n.current_term;
  commit_index = n.commit_index;
  last_applied = n.last_applied;
  last_applied_at = n.last_applied_at;
  last_log_index = last_log_index n;
  last_log_term = last_log_term n;
  snapshot_last_index = n.snapshot_index;
  snapshot_last_term = n.snapshot_term;
  snapshot_size_bytes = snapshot_size n.snapshot;
  cluster_members = if ltb 0 (length n.config.members) then sort n.config.members else [];
  quorum_size = quorum_size n;
  peers = map (peer_state n) (sort n.peers);
}
