-- ===== src/Raft/Steps.antt =====
-- A replica as a state machine: every action of its goroutines and of its callers is an event, and
-- the mutex makes a run of the replica a sequence of them. The environment (clients, peers, timers
-- and the scheduler) chooses the events and their arguments.
pub mod Covered
pub mod Terms
pub mod Restarts
use consensus_lab.Base.{ℕ, String, Option, List, [], ◌∷◌}
use consensus_lab.Raft.Types.{
  Bytes, Snapshot, RequestVoteRequest, RequestVoteResponse, AppendEntriesRequest,
  AppendEntriesResponse, InstallSnapshotRequest, InstallSnapshotResponse,
}
use consensus_lab.Raft.Storage.{Storage}
use consensus_lab.Raft.Action.{Replica}
use consensus_lab.Raft.Vote.{handle_request_vote}
use consensus_lab.Raft.Append.{handle_append_entries}
use consensus_lab.Raft.Command.{start_command, take_snapshot}
use consensus_lab.Raft.Install.{handle_install_snapshot}
use consensus_lab.Raft.Replicate.{
  append_entries_request_for_peer, install_snapshot_request_for_peer, send_append_entries,
  send_install_snapshot,
}
use consensus_lab.Raft.Election.{election_timeout, start_election, handle_vote_response}
use consensus_lab.Raft.Apply.{take_pending, snapshot_sent, take_entry, entry_sent}

pub data Event : Type 0 where
  request_vote : RequestVoteRequest → Event
  append_entries : ℕ → AppendEntriesRequest → Event
  install_snapshot : InstallSnapshotRequest → Event
  command : ℕ → Bytes → Event
  compaction : ℕ → Bytes → Event
  timeout start : Event
  vote_answered : ℕ → ℕ → RequestVoteResponse → Event
  append_for install_for : String → Event
  append_answered : ℕ → String → AppendEntriesRequest → Option AppendEntriesResponse → Event
  install_answered : String → InstallSnapshotRequest → Option InstallSnapshotResponse → Event
  pending_taken entry_taken : Event
  pending_sent : ℕ → Snapshot → Event
  command_sent : ℕ → Event

module _ {S : Type 0} (st : Storage S) where
  -- the replica after the event
  unfoldable pub after : Event → Replica S → Replica S
  after (request_vote req) s = (handle_request_vote st req s).1
  after (append_entries now req) s = (handle_append_entries st now req s).1
  after (install_snapshot req) s = (handle_install_snapshot st req s).1
  after (command now cmd) s = (start_command st now cmd s).1
  after (compaction index bytes) s = (take_snapshot st index bytes s).1
  after timeout s = (election_timeout s).1
  after start s = (start_election st s).1
  after (vote_answered votes majority resp) s = (handle_vote_response st votes majority resp s).1
  after (append_for peer) s = (append_entries_request_for_peer peer s).1
  after (install_for peer) s = (install_snapshot_request_for_peer peer s).1
  after (append_answered now peer req answer) s = (send_append_entries st now peer req answer s).1
  after (install_answered peer req answer) s = (send_install_snapshot st peer req answer s).1
  after pending_taken s = (take_pending s).1
  after entry_taken s = (take_entry s).1
  after (pending_sent now snap) s = (snapshot_sent now snap s).1
  after (command_sent now) s = (entry_sent now s).1

  unfoldable pub run : List Event → Replica S → Replica S
  unfolding after
  run [] s = s
  run (e ∷ es) s = run es (after e s)
