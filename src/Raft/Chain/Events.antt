-- ===== src/Raft/Chain/Events.antt =====
-- Which events leave a replica's log alone, and when a leader stays one.
use consensus_lab.Base.{ℕ, ◌≤◌, ◌<◌, ◌≡◌, ◌≢◌, ◌⊎◌, none, some, Option, String, arith, length-drop}
use consensus_lab.Raft.Types.{
  Bytes, leader, RequestVoteRequest, RequestVoteResponse, AppendEntriesRequest,
  AppendEntriesResponse, InstallSnapshotRequest, InstallSnapshotResponse,
}
use consensus_lab.Raft.Storage.{Storage}
use consensus_lab.Raft.Node.{Node, last_log_index}
use consensus_lab.Raft.Action.{Replica, Outcome, ok, err, panic, Action, continue}
use consensus_lab.Raft.Vote.{handle_request_vote}
use consensus_lab.Raft.Append.{append_term_update, handle_append_entries}
use consensus_lab.Raft.Command.{start_command, take_snapshot}
use consensus_lab.Raft.Commit.{advance_commit_index}
use consensus_lab.Raft.Replicate.{
  append_entries_request_for_peer, install_snapshot_request_for_peer, send_append_entries,
  send_install_snapshot, replicated, handle_append_entries_response, finish_replicate,
}
use consensus_lab.Raft.Election.{start_election, handle_vote_response}
use consensus_lab.Raft.Apply.{take_entry}
use consensus_lab.Raft.Steps.Terms.{append_body}
use consensus_lab.Raft.Chain.Append.{SameLog}

-- A leader of a term goes on leading it, or has seen a newer one.
abbrev pub LeadsOn : Node → Node → Type 0
LeadsOn a b =
    (a.current_term < b.current_term)
    ⊎ ((b.current_term ≡ a.current_term) × (a.role ≡ leader → b.role ≡ leader))

abbrev pub Quiet : Node → Node → Type 0
Quiet a b = SameLog a b × LeadsOn a b

module _ {S A B : Type 0} where
  continue-Quiet :
      (o : Outcome A) (f : A → Action S B) (s t : Replica S)
      → Quiet s.node t.node
      → ((a : A) → Quiet s.node (f a t).1.node)
      → Quiet s.node (continue o f t).1.node
  continue-Quiet (ok a) f s t kept next = next a
  continue-Quiet (err e) f s t kept next = kept
  continue-Quiet panic f s t kept next = kept

module _ {S : Type 0} (st : Storage S) (s : Replica S) where
  pub vote : (req : RequestVoteRequest) → Quiet s.node (handle_request_vote st req s).1.node
  unfolding handle_request_vote
  vote req = ground arith

  pub election : SameLog s.node (start_election st s).1.node
  unfolding start_election
  election = ground arith

  pub vote_answer :
      (votes majority : ℕ) (resp : RequestVoteResponse)
      → Quiet s.node (handle_vote_response st votes majority resp s).1.node
  unfolding handle_vote_response
  vote_answer votes majority resp = ground arith

  pub requested : (peer : String) → Quiet s.node (append_entries_request_for_peer peer s).1.node
  unfolding append_entries_request_for_peer
  requested peer = ground arith

  pub snapshot_requested :
      (peer : String) → Quiet s.node (install_snapshot_request_for_peer peer s).1.node
  unfolding install_snapshot_request_for_peer
  snapshot_requested peer = ground arith

  pub install_answer :
      (peer : String) (req : InstallSnapshotRequest) (answer : Option InstallSnapshotResponse)
      → Quiet s.node (send_install_snapshot st peer req answer s).1.node
  unfolding send_install_snapshot
  install_answer peer req answer = ground arith

  pub entry : Quiet s.node (take_entry s).1.node
  unfolding take_entry
  entry = ground arith

  advance : (now : ℕ) → Quiet s.node (advance_commit_index st now s).1.node
  unfolding advance_commit_index
  advance now = ground arith

  pub replicated_quiet :
      (now : ℕ) (peer : String) (req : AppendEntriesRequest)
      → Quiet s.node (replicated st now peer req s).1.node
  unfolding replicated advance_commit_index
  replicated_quiet now peer req = ground arith

  pub response :
      (now : ℕ) (peer : String) (req : AppendEntriesRequest) (resp : AppendEntriesResponse)
      → Quiet s.node (handle_append_entries_response st now peer req resp s).1.node
  unfolding handle_append_entries_response
  response now peer req resp = ground (arith, replicated_quiet now peer req)

  pub command_leads : (now : ℕ) (cmd : Bytes) → LeadsOn s.node (start_command st now cmd s).1.node
  unfolding start_command advance_commit_index
  command_leads now cmd = ground arith

  pub compaction_leads :
      (index : ℕ) (bytes : Bytes)
      → LeadsOn s.node (take_snapshot st index bytes s).1.node
        × (last_log_index s.node ≤ last_log_index (take_snapshot st index bytes s).1.node)
  unfolding take_snapshot last_log_index
  compaction_leads index bytes = grind (arith, length-drop)

  pub append_answer :
      (now : ℕ) (peer : String) (req : AppendEntriesRequest) (answer : Option AppendEntriesResponse)
      → Quiet s.node (send_append_entries st now peer req answer s).1.node
  unfolding send_append_entries finish_replicate
  append_answer now peer req none = ground arith
  append_answer now peer req (some resp) =
      let kept = response now peer req resp in
      continue-Quiet (handle_append_entries_response st now peer req resp s).0 _ s
        (handle_append_entries_response st now peer req resp s).1 kept (λ _. ground (arith, kept))

  -- A request of another term reaches a leader: it has seen a newer term, or nothing has changed.
  pub append_leads :
      (now : ℕ) (req : AppendEntriesRequest)
      → req.term ≢ s.node.current_term
      → let after = (handle_append_entries st now req s).1.node in
        (s.node.current_term < after.current_term) ⊎ (after ≡ s.node)
  unfolding handle_append_entries append_term_update
  append_leads now req other =
      ground (arith, append_body st now req (append_term_update st req s).1)
