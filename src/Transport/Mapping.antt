-- ===== src/Transport/Mapping.antt =====
-- internal/transport/grpc/raft/mapping.go: between the requests of a replica and the messages.
use consensus_lab.Base.{Option, none, some, List, [], ◌∷◌}
use consensus_lab.Raft.Types.{
  entry_command, LogEntry, ClusterConfig, RequestVoteRequest, RequestVoteResponse,
  AppendEntriesRequest, AppendEntriesResponse, InstallSnapshotRequest, InstallSnapshotResponse,
}
use consensus_lab.Transport.Messages.{
  PbRequestVoteRequest, PbRequestVoteResponse, PbLogEntry, PbAppendEntriesRequest,
  PbAppendEntriesResponse, PbClusterConfig, PbInstallSnapshotRequest, PbInstallSnapshotResponse,
}

-- The entry type has no field in the message: it is zero, the type of a command.
unfoldable pub entries_from_pb : List PbLogEntry → List LogEntry
entries_from_pb [] = []
entries_from_pb (e ∷ es) =
    record { term = e.term; entry_type = entry_command; command = e.command } ∷ entries_from_pb es

unfoldable pub entries_to_pb : List LogEntry → List PbLogEntry
entries_to_pb [] = []
entries_to_pb (e ∷ es) = record { term = e.term; command = e.command } ∷ entries_to_pb es

unfoldable pub cluster_config_from_pb : Option PbClusterConfig → ClusterConfig
cluster_config_from_pb none = record { members = [] }
cluster_config_from_pb (some pb) = record { members = pb.members }

unfoldable pub cluster_config_to_pb : ClusterConfig → Option PbClusterConfig
cluster_config_to_pb config = some (record { members = config.members })

unfoldable pub request_vote_request_from_pb : PbRequestVoteRequest → RequestVoteRequest
request_vote_request_from_pb pb = record {
  term = pb.term;
  candidate_id = pb.candidate_id;
  last_log_index = pb.last_log_index;
  last_log_term = pb.last_log_term;
}

unfoldable pub request_vote_request_to_pb : RequestVoteRequest → PbRequestVoteRequest
request_vote_request_to_pb r = record {
  term = r.term;
  candidate_id = r.candidate_id;
  last_log_index = r.last_log_index;
  last_log_term = r.last_log_term;
}

unfoldable pub request_vote_response_from_pb : PbRequestVoteResponse → RequestVoteResponse
request_vote_response_from_pb pb = record { term = pb.term; vote_granted = pb.vote_granted }

unfoldable pub request_vote_response_to_pb : RequestVoteResponse → PbRequestVoteResponse
request_vote_response_to_pb r = record { term = r.term; vote_granted = r.vote_granted }

unfoldable pub append_entries_request_from_pb : PbAppendEntriesRequest → AppendEntriesRequest
unfolding entries_from_pb
append_entries_request_from_pb pb = record {
  term = pb.term;
  leader_id = pb.leader_id;
  prev_log_index = pb.prev_log_index;
  prev_log_term = pb.prev_log_term;
  entries = entries_from_pb pb.entries;
  leader_commit = pb.leader_commit;
}

unfoldable pub append_entries_request_to_pb : AppendEntriesRequest → PbAppendEntriesRequest
unfolding entries_to_pb
append_entries_request_to_pb r = record {
  term = r.term;
  leader_id = r.leader_id;
  prev_log_index = r.prev_log_index;
  prev_log_term = r.prev_log_term;
  entries = entries_to_pb r.entries;
  leader_commit = r.leader_commit;
}

unfoldable pub append_entries_response_from_pb : PbAppendEntriesResponse → AppendEntriesResponse
append_entries_response_from_pb pb = record {
  term = pb.term;
  success = pb.success;
  conflict_term = pb.conflict_term;
  conflict_index = pb.conflict_index;
}

unfoldable pub append_entries_response_to_pb : AppendEntriesResponse → PbAppendEntriesResponse
append_entries_response_to_pb r = record {
  term = r.term;
  success = r.success;
  conflict_term = r.conflict_term;
  conflict_index = r.conflict_index;
}

unfoldable pub install_snapshot_request_from_pb : PbInstallSnapshotRequest → InstallSnapshotRequest
unfolding cluster_config_from_pb
install_snapshot_request_from_pb pb = record {
  term = pb.term;
  leader_id = pb.leader_id;
  last_included_index = pb.last_included_index;
  last_included_term = pb.last_included_term;
  config = cluster_config_from_pb pb.config;
  bytes = pb.bytes;
}

unfoldable pub install_snapshot_request_to_pb : InstallSnapshotRequest → PbInstallSnapshotRequest
unfolding cluster_config_to_pb
install_snapshot_request_to_pb r = record {
  term = r.term;
  leader_id = r.leader_id;
  last_included_index = r.last_included_index;
  last_included_term = r.last_included_term;
  config = cluster_config_to_pb r.config;
  bytes = r.bytes;
}

unfoldable pub install_snapshot_response_from_pb :
    PbInstallSnapshotResponse → InstallSnapshotResponse
install_snapshot_response_from_pb pb = record { term = pb.term }

unfoldable pub install_snapshot_response_to_pb : InstallSnapshotResponse → PbInstallSnapshotResponse
install_snapshot_response_to_pb r = record { term = r.term }
