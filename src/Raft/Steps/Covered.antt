-- ===== src/Raft/Steps/Covered.antt =====
-- The snapshot never passes the commit index, as long as only committed entries are compacted: what
-- each action does to the two.
pub mod Runs
use consensus_lab.Base.{
  ℕ, ◌+◌, ◌≤◌, ◌≡◌, ◌≢◌, String, Bool, true, false, if◌then◌else◌, ◌++◌, Option, none, some, List,
  [], ◌∷◌, arith,
}
use consensus_lab.Raft.Types.{
  Bytes, RequestVoteRequest, RequestVoteResponse, AppendEntriesRequest, AppendEntriesResponse,
  InstallSnapshotRequest, InstallSnapshotResponse,
}
use consensus_lab.Raft.Storage.{Storage}
use consensus_lab.Raft.Node.{Node}
use consensus_lab.Raft.Node.Index.{snapshot-le-last}
use consensus_lab.Raft.Action.{
  Replica, Action, Outcome, ok, err, panic, continue, modify, pure, notify_apply, ◌>>◌,
  persist_append_log,
}
use consensus_lab.Raft.Vote.{handle_request_vote}
use consensus_lab.Raft.Append.{
  handle_append_entries, append_current, append_term_update, after_check, commit_update,
  merge_entries,
}
use consensus_lab.Raft.Append.Frame.{check_prev_frame, merge_entries_frame}
use consensus_lab.Raft.Append.Stages.{as_follower}
use consensus_lab.Raft.Command.{start_command, command_appended, command_entry, take_snapshot}
use consensus_lab.Raft.Commit.{advance_commit_index}
use consensus_lab.Raft.Commit.Rule.{advance_commit_index-IsCommittable}
use consensus_lab.Raft.Install.{handle_install_snapshot}
use consensus_lab.Raft.Replicate.{
  append_entries_request_for_peer, install_snapshot_request_for_peer, send_append_entries,
  send_install_snapshot, replicated, handle_append_entries_response, finish_replicate,
}
use consensus_lab.Raft.Election.{election_timeout, start_election, handle_vote_response}
use consensus_lab.Raft.Apply.{take_pending, snapshot_sent, take_entry, entry_sent}
use consensus_lab.Raft.Steps.{
  Event, request_vote, append_entries, install_snapshot, command, compaction, timeout, start,
  vote_answered, append_for, install_for, append_answered, install_answered, pending_taken,
  entry_taken, pending_sent, command_sent, after, run,
}

abbrev pub IsCovered : Node → Type 0
IsCovered n = n.snapshot_index ≤ n.commit_index

abbrev pub SameIndices : Node → Node → Type 0
SameIndices a b = (b.snapshot_index ≡ a.snapshot_index) × (b.commit_index ≡ a.commit_index)

module _ {S : Type 0} (st : Storage S) (s : Replica S) where
  pub vote : (req : RequestVoteRequest) → SameIndices s.node (handle_request_vote st req s).1.node
  unfolding handle_request_vote
  vote req = ground arith

  pub installed :
      (req : InstallSnapshotRequest)
      → IsCovered s.node
      → IsCovered (handle_install_snapshot st req s).1.node
  unfolding handle_install_snapshot
  installed req base = ground arith

  pub compacted :
      (index : ℕ) (bytes : Bytes)
      → IsCovered s.node
      → index ≤ s.node.commit_index
      → IsCovered (take_snapshot st index bytes s).1.node
  unfolding take_snapshot
  compacted index bytes base within = ground arith

  pub election : SameIndices s.node (start_election st s).1.node
  unfolding start_election
  election = ground arith

  pub vote_answer :
      (votes majority : ℕ) (resp : RequestVoteResponse)
      → SameIndices s.node (handle_vote_response st votes majority resp s).1.node
  unfolding handle_vote_response
  vote_answer votes majority resp = ground arith

  pub requested :
      (peer : String) → SameIndices s.node (append_entries_request_for_peer peer s).1.node
  unfolding append_entries_request_for_peer
  requested peer = ground arith

  pub snapshot_requested :
      (peer : String) → SameIndices s.node (install_snapshot_request_for_peer peer s).1.node
  unfolding install_snapshot_request_for_peer
  snapshot_requested peer = ground arith

  pub install_answer :
      (peer : String) (req : InstallSnapshotRequest) (answer : Option InstallSnapshotResponse)
      → SameIndices s.node (send_install_snapshot st peer req answer s).1.node
  unfolding send_install_snapshot
  install_answer peer req answer = ground arith

  pub entry : SameIndices s.node (take_entry s).1.node
  unfolding take_entry
  entry = ground arith

  advance :
      (now : ℕ)
      → IsCovered s.node
      → ((advance_commit_index st now s).0 ≢ panic)
        × (s.node.commit_index ≤ (advance_commit_index st now s).1.node.commit_index)
  advance now base =
      let facts = advance_commit_index-IsCommittable st now s base in
      (facts.0, omega (arith, facts.1))

  advance_keeps : (now : ℕ) → IsCovered s.node → IsCovered (advance_commit_index st now s).1.node
  unfolding advance_commit_index
  advance_keeps now base = ground (arith, advance now base)

module _ {S A B : Type 0} where
  continue_keeps :
      (o : Outcome A) (f : A → Action S B) (s : Replica S)
      → IsCovered s.node
      → ((a : A) → IsCovered (f a s).1.node)
      → IsCovered (continue o f s).1.node
  continue_keeps (ok a) f s base next = next a
  continue_keeps (err e) f s base next = base
  continue_keeps panic f s base next = base

module _ {S B : Type 0} where
  -- the actions after an advance of the commit index
  notify_keeps :
      (advanced : Bool) (rest : Action S B) (s : Replica S)
      → IsCovered s.node
      → ((t : Replica S) → IsCovered t.node → IsCovered (rest t).1.node)
      → IsCovered (((if advanced then modify notify_apply else pure tt) >> rest) s).1.node
  notify_keeps true rest s base next =
      next (record s { node = record s.node { apply_notify = true } }) base
  notify_keeps false rest s base next = next s base

module _ {S : Type 0} where
  finish_keeps :
      (peer : String) (s : Replica S)
      → IsCovered s.node
      → IsCovered (finish_replicate peer s).1.node
  unfolding finish_replicate
  finish_keeps peer s base = ground arith

module _ {S : Type 0} (st : Storage S) where
  appended :
      (now : ℕ) (s : Replica S) → IsCovered s.node → IsCovered (command_appended st now s).1.node
  unfolding command_appended
  appended now s base =
      continue_keeps (advance_commit_index st now _).0 _ (advance_commit_index st now _).1
        (advance_keeps st _ now base)
        (λ advanced. notify_keeps advanced _ _ (advance_keeps st _ now base) (λ t kept. kept))

  pub new_command :
      (now : ℕ) (cmd : Bytes) (s : Replica S)
      → IsCovered s.node
      → IsCovered (start_command st now cmd s).1.node
  unfolding start_command
  new_command now cmd s base =
      let entries = command_entry s.node cmd ∷ [] in
      let grown : Replica S = record s { node = record s.node { log = s.node.log ++ entries } } in
      let saved = persist_append_log st entries grown in ground (arith, appended now saved.1)

  answer_replicated :
      (now : ℕ) (peer : String) (req : AppendEntriesRequest) (s : Replica S)
      → IsCovered s.node
      → IsCovered (replicated st now peer req s).1.node
  unfolding replicated
  answer_replicated now peer req s base =
      continue_keeps (advance_commit_index st now _).0 _ (advance_commit_index st now _).1
        (advance_keeps st _ now base)
        (λ advanced.
          notify_keeps advanced _ _ (advance_keeps st _ now base) (λ t kept. ground arith))

  response :
      (now : ℕ) (peer : String) (req : AppendEntriesRequest) (resp : AppendEntriesResponse)
      (s : Replica S)
      → IsCovered s.node
      → IsCovered (handle_append_entries_response st now peer req resp s).1.node
  unfolding handle_append_entries_response
  response now peer req resp s base = ground (arith, answer_replicated now peer req s base)

  pub append_answer :
      (now : ℕ) (peer : String) (req : AppendEntriesRequest) (answer : Option AppendEntriesResponse)
      (s : Replica S)
      → IsCovered s.node
      → IsCovered (send_append_entries st now peer req answer s).1.node
  unfolding send_append_entries
  append_answer now peer req none s base = ground arith
  append_answer now peer req (some resp) s base =
      let t = (handle_append_entries_response st now peer req resp s).1 in
      continue_keeps (handle_append_entries_response st now peer req resp s).0
        (λ _. finish_replicate peer) t (response now peer req resp s base)
        (λ _. finish_keeps peer t (response now peer req resp s base))

  append_body :
      (now : ℕ) (req : AppendEntriesRequest) (s : Replica S)
      → IsCovered s.node
      → IsCovered (append_current st now req s).1.node
  unfolding append_current after_check commit_update
  append_body now req s base =
      let t = as_follower s in
      let u = (merge_entries st (req.prev_log_index + 1) req.entries t).1 in
      ground (
        arith,
        check_prev_frame req t,
        merge_entries_frame st (req.prev_log_index + 1) req.entries t,
        snapshot-le-last u.node,
      )

  append_start :
      (req : AppendEntriesRequest) (s : Replica S)
      → SameIndices s.node (append_term_update st req s).1.node
  unfolding append_term_update
  append_start req s = ground arith

  pub append :
      (now : ℕ) (req : AppendEntriesRequest) (s : Replica S)
      → IsCovered s.node
      → IsCovered (handle_append_entries st now req s).1.node
  unfolding handle_append_entries
  append now req s base =
      let t = (append_term_update st req s).1 in
      ground (arith, append_start req s, append_body now req t)
