-- ===== src/Raft/Steps/Terms.antt =====
-- Terms only grow, and within a term a vote that was given stays.
use consensus_lab.Base.{
  ℕ, ◌+◌, ◌≤◌, ◌<◌, ◌≡◌, ◌≢◌, ◌⊎◌, inr, refl, sym, true, String, Option, List, [], ◌∷◌, eq_iff,
  arith,
}
use consensus_lab.Raft.Types.{
  Bytes, RequestVoteRequest, RequestVoteResponse, AppendEntriesRequest, AppendEntriesResponse,
  InstallSnapshotRequest, InstallSnapshotResponse,
}
use consensus_lab.Raft.Storage.{Storage}
use consensus_lab.Raft.Node.{Node}
use consensus_lab.Raft.Action.{Replica, ok}
use consensus_lab.Raft.Vote.{handle_request_vote}
use consensus_lab.Raft.Append.{
  handle_append_entries, append_current, append_term_update, after_check, commit_update,
}
use consensus_lab.Raft.Append.Frame.{check_prev_frame, merge_entries_frame}
use consensus_lab.Raft.Append.Stages.{as_follower}
use consensus_lab.Raft.Command.{start_command, take_snapshot}
use consensus_lab.Raft.Commit.{advance_commit_index}
use consensus_lab.Raft.Install.{handle_install_snapshot}
use consensus_lab.Raft.Replicate.{
  append_entries_request_for_peer, install_snapshot_request_for_peer, send_append_entries,
  send_install_snapshot,
}
use consensus_lab.Raft.Election.{election_timeout, start_election, handle_vote_response}
use consensus_lab.Raft.Apply.{take_pending, snapshot_sent, take_entry, entry_sent}
use consensus_lab.Raft.Vote.Safety.{granted_recorded}
use consensus_lab.Raft.Steps.{
  Event, request_vote, append_entries, install_snapshot, command, compaction, timeout, start,
  vote_answered, append_for, install_for, append_answered, install_answered, pending_taken,
  entry_taken, pending_sent, command_sent, after, run,
}

-- The vote of `a` in its term still stands in `b`.
abbrev pub TermOrder : Node → Node → Type 0
TermOrder a b =
    (a.current_term < b.current_term)
    ⊎ ((a.current_term ≡ b.current_term) × ((a.voted_for ≡ "") ⊎ (b.voted_for ≡ a.voted_for)))

TermOrder-refl : (a : Node) → TermOrder a a
TermOrder-refl a = inr (refl, inr refl)

TermOrder-trans : (a b c : Node) → TermOrder a b → TermOrder b c → TermOrder a c
TermOrder-trans a b c h k = ground arith

abbrev SameTerm : Node → Node → Type 0
SameTerm a b = (b.current_term ≡ a.current_term) × (b.voted_for ≡ a.voted_for)

module _ {S : Type 0} (st : Storage S) (s : Replica S) where
  vote : (req : RequestVoteRequest) → TermOrder s.node (handle_request_vote st req s).1.node
  unfolding handle_request_vote
  vote req = ground (arith, eq_iff s.node.voted_for "", eq_iff s.node.voted_for req.candidate_id)

  advance_same : (now : ℕ) → SameTerm s.node (advance_commit_index st now s).1.node
  unfolding advance_commit_index
  advance_same now = ground arith

  install :
      (req : InstallSnapshotRequest) → TermOrder s.node (handle_install_snapshot st req s).1.node
  unfolding handle_install_snapshot
  install req = ground arith

  compacted : (index : ℕ) (bytes : Bytes) → SameTerm s.node (take_snapshot st index bytes s).1.node
  unfolding take_snapshot
  compacted index bytes = ground arith

  election : TermOrder s.node (start_election st s).1.node
  unfolding start_election
  election = ground arith

  vote_answer :
      (votes majority : ℕ) (resp : RequestVoteResponse)
      → TermOrder s.node (handle_vote_response st votes majority resp s).1.node
  unfolding handle_vote_response
  vote_answer votes majority resp = ground arith

  requested : (peer : String) → SameTerm s.node (append_entries_request_for_peer peer s).1.node
  unfolding append_entries_request_for_peer
  requested peer = ground arith

  snapshot_requested :
      (peer : String) → SameTerm s.node (install_snapshot_request_for_peer peer s).1.node
  unfolding install_snapshot_request_for_peer
  snapshot_requested peer = ground arith

  install_answer :
      (peer : String) (req : InstallSnapshotRequest) (answer : Option InstallSnapshotResponse)
      → TermOrder s.node (send_install_snapshot st peer req answer s).1.node
  unfolding send_install_snapshot
  install_answer peer req answer = ground arith

  entry : SameTerm s.node (take_entry s).1.node
  unfolding take_entry
  entry = ground arith

module _ {S : Type 0} (st : Storage S) where
  new_command :
      (now : ℕ) (cmd : Bytes) (s : Replica S) → SameTerm s.node (start_command st now cmd s).1.node
  unfolding start_command advance_commit_index
  new_command now cmd s = ground arith

  append_answer :
      (now : ℕ) (peer : String) (req : AppendEntriesRequest) (answer : Option AppendEntriesResponse)
      (s : Replica S)
      → TermOrder s.node (send_append_entries st now peer req answer s).1.node
  unfolding send_append_entries advance_commit_index
  append_answer now peer req answer s = ground arith

  pub append_body :
      (now : ℕ) (req : AppendEntriesRequest) (s : Replica S)
      → SameTerm s.node (append_current st now req s).1.node
  unfolding append_current after_check commit_update
  append_body now req s =
      let t = as_follower s in
      ground (
        arith,
        check_prev_frame req t,
        merge_entries_frame st (req.prev_log_index + 1) req.entries t,
      )

  append_start :
      (now : ℕ) (req : AppendEntriesRequest) (s : Replica S)
      → TermOrder s.node (append_term_update st req s).1.node
  unfolding append_term_update
  append_start now req s = ground arith

  append :
      (now : ℕ) (req : AppendEntriesRequest) (s : Replica S)
      → TermOrder s.node (handle_append_entries st now req s).1.node
  unfolding handle_append_entries
  append now req s =
      let t = (append_term_update st req s).1 in
      ground (arith, append_start now req s, append_body now req t)

of_same : (a b : Node) → SameTerm a b → TermOrder a b
of_same a b h = inr (sym h.0, inr h.1)

module _ {S : Type 0} (st : Storage S) where
  pub after-TermOrder : (e : Event) (s : Replica S) → TermOrder s.node (after st e s).node
  unfolding after election_timeout take_pending snapshot_sent entry_sent
  after-TermOrder (request_vote req) s = vote st s req
  after-TermOrder (append_entries now req) s = append st now req s
  after-TermOrder (install_snapshot req) s = install st s req
  after-TermOrder (command now cmd) s =
      of_same s.node (start_command st now cmd s).1.node (new_command st now cmd s)
  after-TermOrder (compaction index bytes) s =
      of_same s.node (take_snapshot st index bytes s).1.node (compacted st s index bytes)
  after-TermOrder timeout s = inr (refl, inr refl)
  after-TermOrder start s = election st s
  after-TermOrder (vote_answered votes majority resp) s = vote_answer st s votes majority resp
  after-TermOrder (append_for peer) s =
      of_same s.node (append_entries_request_for_peer peer s).1.node (requested st s peer)
  after-TermOrder (install_for peer) s =
      of_same s.node (install_snapshot_request_for_peer peer s).1.node
        (snapshot_requested st s peer)
  after-TermOrder (append_answered now peer req answer) s = append_answer st now peer req answer s
  after-TermOrder (install_answered peer req answer) s = install_answer st s peer req answer
  after-TermOrder pending_taken s = inr (refl, inr refl)
  after-TermOrder entry_taken s = of_same s.node (take_entry s).1.node (entry st s)
  after-TermOrder (pending_sent now snap) s = inr (refl, inr refl)
  after-TermOrder (command_sent now) s = inr (refl, inr refl)

  -- Over any run of events the term never falls, and while it stays the same a vote that was given
  -- stays.
  pub run-TermOrder : (es : List Event) (s : Replica S) → TermOrder s.node (run st es s).node
  unfolding run
  run-TermOrder [] s = TermOrder-refl s.node
  run-TermOrder (e ∷ es) s =
      TermOrder-trans s.node (after st e s).node (run st es (after st e s)).node
        (after-TermOrder e s) (run-TermOrder es (after st e s))

  -- The term of a replica never falls, whatever happens to it.
  pub run-term_le :
      (es : List Event) (s : Replica S) → s.node.current_term ≤ (run st es s).node.current_term
  run-term_le es s = omega (arith, run-TermOrder es s)

  -- A replica grants at most one candidate its vote in a term: whatever events happen between two
  -- granted requests of one term, short of a restart, the candidates are the same, provided the
  -- first candidate's id is not empty.
  pub one_vote_per_term :
      (s : Replica S) (es : List Event) (first second : RequestVoteRequest)
      (answer answer' : RequestVoteResponse)
      → first.candidate_id ≢ ""
      → second.term ≡ first.term
      → (handle_request_vote st first s).0 ≡ ok answer
      → answer.vote_granted ≡ true
      → (handle_request_vote st second (run st es (handle_request_vote st first s).1)).0
        ≡ ok answer'
      → answer'.vote_granted ≡ true
      → second.candidate_id ≡ first.candidate_id
  one_vote_per_term s es first second answer answer' named same r g r' g' =
      let a = (handle_request_vote st first s).1 in
      let t = run st es a in
      let b = (handle_request_vote st second t).1 in
      ground (
        arith,
        granted_recorded st first s answer r g,
        granted_recorded st second t answer' r' g',
        TermOrder-trans a.node t.node b.node (run-TermOrder es a) (vote st t second),
      )
