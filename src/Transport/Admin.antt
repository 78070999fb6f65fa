-- ===== src/Transport/Admin.antt =====
-- The administrative RPC: internal/transport/grpc/admin/server.go, with the messages of
-- pkg/proto/adminv1. `sort.Strings` is the argument `sort`.
pub mod Figures
use consensus_lab.Base.{
  ℕ, ◌-◌, ltb, ◌==◌, String, str_eq, Option, none, some, List, [], ◌∷◌, length, map, if◌then◌else◌,
}
use consensus_lab.Raft.Types.{Role, follower, candidate, leader, NodeStatus, healthy, degraded}
use consensus_lab.Raft.Node.{Node}
use consensus_lab.Raft.Report.{AdminPeerState, AdminState}

pub data PbConsensusType : Type 0 where
  consensus_type_unspecified consensus_type_raft : PbConsensusType

pub data PbNodeRole : Type 0 where
  node_role_unspecified node_role_leader node_role_follower node_role_candidate node_role_learner :
      PbNodeRole

pub data PbNodeStatus : Type 0 where
  node_status_unspecified node_status_starting node_status_healthy node_status_degraded :
      PbNodeStatus
  node_status_unavailable node_status_stopping node_status_stopped : PbNodeStatus

pub record PbPeerInfo : Type 0 where
  pub node_id : String
  pub address : String

pub record PbRaftPeerInfo : Type 0 where
  pub node_id : String
  pub status : PbNodeStatus
  pub match_index : ℕ
  pub next_index : ℕ
  pub lag : ℕ

pub record PbRaftNodeInfo : Type 0 where
  pub term : ℕ
  pub leader_id : String
  pub commit_index : ℕ
  pub last_applied : ℕ
  pub last_log_index : ℕ
  pub last_log_term : ℕ
  pub snapshot_last_index : ℕ
  pub snapshot_last_term : ℕ
  pub snapshot_size_bytes : ℕ
  pub cluster_members : List String
  pub quorum_size : ℕ
  pub peers : List PbRaftPeerInfo
  -- none for the zero time
  pub last_applied_at : Option ℕ

pub record PbNodeInfo : Type 0 where
  pub node_id : String
  pub consensus_type : PbConsensusType
  pub role : PbNodeRole
  pub status : PbNodeStatus
  pub peers : List PbPeerInfo
  pub consensus_details : Option PbRaftNodeInfo

-- `raft` is the inspected node's report, none for a nil inspector
pub record AdminServer : Type 0 where
  pub node_id : String
  pub consensus_type : String
  pub peer_addrs : List (String × String)
  pub raft : Option AdminState

abbrev pub keys : List (String × String) → List String
keys = map (λ p. p.0)

unfoldable pub address_of : String → List (String × String) → String
address_of id [] = ""
address_of id ((k, v) ∷ m) = let rest = address_of id m in if str_eq id k then v else rest

unfoldable pub peer_infos_from_map :
    (List String → List String) → List (String × String) → List PbPeerInfo
unfolding address_of
peer_infos_from_map sort [] = []
peer_infos_from_map sort (p ∷ ps) =
    map (λ id. record { node_id = id; address = address_of id (p ∷ ps) }) (sort (keys (p ∷ ps)))

unfoldable pub map_consensus_type : String → PbConsensusType
map_consensus_type v = if str_eq v "raft" then consensus_type_raft else consensus_type_unspecified

unfoldable pub map_raft_role : Role → PbNodeRole
map_raft_role leader = node_role_leader
map_raft_role follower = node_role_follower
map_raft_role candidate = node_role_candidate

unfoldable pub map_raft_status : NodeStatus → PbNodeStatus
map_raft_status healthy = node_status_healthy
map_raft_status degraded = node_status_degraded

abbrev pub max_int32 : ℕ
max_int32 = 2147483647

-- An argument that is negative does not occur: the figure is a quorum.
unfoldable pub safe_int32 : ℕ → ℕ
safe_int32 v = if ltb max_int32 v then max_int32 else v

-- A difference that would be negative is zero.
unfoldable pub raft_peer_info : ℕ → AdminPeerState → PbRaftPeerInfo
raft_peer_info last p = record {
  node_id = p.node_id;
  status = node_status_unspecified;
  match_index = p.match_index;
  next_index = p.next_index;
  lag = if ltb last p.match_index then 0 else last - p.match_index;
}

unfoldable pub raft_node_info : AdminState → PbRaftNodeInfo
unfolding safe_int32 raft_peer_info
raft_node_info rs = record {
  term = rs.term;
  leader_id = rs.leader_id;
  commit_index = rs.commit_index;
  last_applied = rs.last_applied;
  last_log_index = rs.last_log_index;
  last_log_term = rs.last_log_term;
  snapshot_last_index = rs.snapshot_last_index;
  snapshot_last_term = rs.snapshot_last_term;
  snapshot_size_bytes = rs.snapshot_size_bytes;
  cluster_members = rs.cluster_members;
  quorum_size = safe_int32 rs.quorum_size;
  peers = map (raft_peer_info rs.last_log_index) rs.peers;
  last_applied_at = if rs.last_applied_at == 0 then none else some rs.last_applied_at;
}

unfoldable pub get_node_info : (List String → List String) → AdminServer → PbNodeInfo
unfolding peer_infos_from_map map_consensus_type raft_node_info map_raft_role map_raft_status
get_node_info sort s =
    let node : PbNodeInfo = record {
      node_id = s.node_id;
      consensus_type = map_consensus_type s.consensus_type;
      role = node_role_unspecified;
      status = node_status_healthy;
      peers = peer_infos_from_map sort s.peer_addrs;
      consensus_details = none;
    } in
    elim s.raft [
      | none ↦ node
      | some rs ↦ record node {
        role = map_raft_role rs.role;
        status = map_raft_status rs.status;
        consensus_details = some (raft_node_info rs);
      }
    ]
