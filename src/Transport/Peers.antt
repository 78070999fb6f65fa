-- ===== src/Transport/Peers.antt =====
-- internal/transport/grpc/raft/server.go and client.go: a peer's handlers behind RPCs. gRPC itself
-- is the argument `stub` of the client's methods: what the called replica answers to a message.
pub mod Calls
use consensus_lab.Base.{ℕ}
use consensus_lab.Raft.Types.{
  Error, node_degraded, RequestVoteRequest, RequestVoteResponse, AppendEntriesRequest,
  AppendEntriesResponse, InstallSnapshotRequest, InstallSnapshotResponse,
}
use consensus_lab.Raft.Storage.{Storage}
use consensus_lab.Raft.Action.{Replica, Outcome, ok, err, panic}
use consensus_lab.Raft.Vote.{handle_request_vote}
use consensus_lab.Raft.Append.{handle_append_entries}
use consensus_lab.Raft.Install.{handle_install_snapshot}
use consensus_lab.Transport.Messages.{
  PbRequestVoteRequest, PbRequestVoteResponse, PbAppendEntriesRequest, PbAppendEntriesResponse,
  PbInstallSnapshotRequest, PbInstallSnapshotResponse,
}
use consensus_lab.Transport.Mapping.{
  request_vote_request_from_pb, request_vote_request_to_pb, request_vote_response_from_pb,
  request_vote_response_to_pb, append_entries_request_from_pb, append_entries_request_to_pb,
  append_entries_response_from_pb, append_entries_response_to_pb, install_snapshot_request_from_pb,
  install_snapshot_request_to_pb, install_snapshot_response_from_pb,
  install_snapshot_response_to_pb,
}

-- `other` is a code that gRPC itself gives.
pub data Code : Type 0 where
  failed_precondition unavailable internal : Code
  other : ℕ → Code

-- An RPC answers, fails with a status, or ends with a panic of the called process.
pub data Reply (A : Type 0) : Type 0 where
  answer : A → Reply A
  status : Code → Reply A
  crashed : Reply A

-- the code of `toGRPCStatus`; the message of the status is left out
unfoldable pub to_grpc_status : Error → Code
to_grpc_status node_degraded = unavailable
to_grpc_status _ = internal

abbrev pub Rpc : Type 0 → Type 0 → Type 0 → Type 0
Rpc S A B = A → Replica S → Reply B × Replica S

module _ {A B : Type 0} where
  -- an outcome of a handler as the server returns it
  unfoldable pub reply_of : (A → B) → Outcome A → Reply B
  unfolding to_grpc_status
  reply_of to_pb (ok resp) = answer (to_pb resp)
  reply_of to_pb (err e) = status (to_grpc_status e)
  reply_of to_pb panic = crashed

  -- what the client makes of a reply
  unfoldable pub received : (A → B) → Reply A → Reply B
  received from_pb (answer pb) = answer (from_pb pb)
  received from_pb (status code) = status code
  received from_pb crashed = crashed

module _ {S : Type 0} (st : Storage S) where
  unfoldable pub serve_request_vote : Rpc S PbRequestVoteRequest PbRequestVoteResponse
  unfolding request_vote_request_from_pb request_vote_response_to_pb
  serve_request_vote pb s =
      let r = handle_request_vote st (request_vote_request_from_pb pb) s in
      (reply_of request_vote_response_to_pb r.0, r.1)

  unfoldable pub serve_append_entries : ℕ → Rpc S PbAppendEntriesRequest PbAppendEntriesResponse
  unfolding append_entries_request_from_pb append_entries_response_to_pb
  serve_append_entries now pb s =
      let r = handle_append_entries st now (append_entries_request_from_pb pb) s in
      (reply_of append_entries_response_to_pb r.0, r.1)

  unfoldable pub serve_install_snapshot : Rpc S PbInstallSnapshotRequest PbInstallSnapshotResponse
  unfolding install_snapshot_request_from_pb install_snapshot_response_to_pb
  serve_install_snapshot pb s =
      let r = handle_install_snapshot st (install_snapshot_request_from_pb pb) s in
      (reply_of install_snapshot_response_to_pb r.0, r.1)

module _ {S : Type 0} where
  unfoldable pub call_request_vote :
      Rpc S PbRequestVoteRequest PbRequestVoteResponse
      → Rpc S RequestVoteRequest RequestVoteResponse
  call_request_vote stub req s =
      let r = stub (request_vote_request_to_pb req) s in
      (received request_vote_response_from_pb r.0, r.1)

  unfoldable pub call_append_entries :
      Rpc S PbAppendEntriesRequest PbAppendEntriesResponse
      → Rpc S AppendEntriesRequest AppendEntriesResponse
  call_append_entries stub req s =
      let r = stub (append_entries_request_to_pb req) s in
      (received append_entries_response_from_pb r.0, r.1)

  unfoldable pub call_install_snapshot :
      Rpc S PbInstallSnapshotRequest PbInstallSnapshotResponse
      → Rpc S InstallSnapshotRequest InstallSnapshotResponse
  call_install_snapshot stub req s =
      let r = stub (install_snapshot_request_to_pb req) s in
      (received install_snapshot_response_from_pb r.0, r.1)
