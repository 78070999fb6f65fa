-- ===== src/Raft/Election.antt =====
-- internal/consensus/raft/election.go: the parts of `runFollower` and `runCandidate` that run under
-- the mutex. The timers, and the answers of the peers in `voteCh`, decide which comes next.
pub mod Ballots
use consensus_lab.Base.{
  ℕ, ◌+◌, ltb, leb, String, Bool, true, false, not, if◌then◌else◌, Option, none, some, List, [],
  ◌∷◌,
}
use consensus_lab.Raft.Types.{
  Role, follower, candidate, leader, RequestVoteRequest, RequestVoteResponse,
}
use consensus_lab.Raft.Storage.{Storage}
use consensus_lab.Raft.Node.{Node, update, quorum_size, last_log_index, last_log_term}
use consensus_lab.Raft.Action.{
  Action, pure, ◌>>=◌, ◌>>◌, get, modify, persist_hard_state, mark_degraded,
}
use consensus_lab.Raft.Replicate.{step_down}

-- the local variables of `runCandidate`
pub record Ballot : Type 0 where
  pub request : RequestVoteRequest
  pub votes : ℕ
  pub majority : ℕ

pub data Verdict : Type 0 where
  -- the election goes on with this count
  waiting : ℕ → Verdict
  won : Verdict
  -- the candidate has stepped down, or was no candidate any more
  lost : Verdict

abbrev pub is_candidate_role : Role → Bool
is_candidate_role candidate = true
is_candidate_role _ = false

-- the loop over the peers at the end of a won election
unfoldable pub init_peers : ℕ → List String → (String → ℕ) → String → ℕ
init_peers value [] m = m
init_peers value (peer ∷ peers) m = init_peers value peers (update m peer value)

unfoldable pub become_leader : Node → Node
unfolding init_peers
become_leader n = record n {
  role = leader;
  next_index =
      init_peers (last_log_index n + 1) n.peers (update n.next_index n.id (last_log_index n + 1));
  match_index = init_peers 0 n.peers (update n.match_index n.id 0);
}

module _ {S : Type 0} where
  -- the timer of `runFollower` fires
  unfoldable pub election_timeout : Action S (Unit {0})
  election_timeout = modify (λ n. record n { role = candidate })

  -- What follows the unlock: the candidate's own vote, and the quorum of the configuration that the
  -- node has by then.
  unfoldable pub open_ballot : RequestVoteRequest → Action S Ballot
  open_ballot request = do
    n ← get
    pure (record { request = request; votes = 1; majority = quorum_size n })

module _ {S : Type 0} (st : Storage S) where
  -- The start of `runCandidate`, under the mutex: the request for votes, or none if the new term
  -- cannot be saved.
  unfoldable pub start_election : Action S (Option RequestVoteRequest)
  start_election = do
    prev ← get
    modify (λ n. record n { current_term = n.current_term + 1; voted_for = n.id })
    saved ← persist_hard_state st
    elim saved [
      | none ↦ (do
        n ← get
        pure (
            some (record {
              term = n.current_term;
              candidate_id = n.id;
              last_log_index = last_log_index n;
              last_log_term = last_log_term n;
            })))
      | some e ↦ (do
        modify mark_degraded
        modify λ n. record n {
          current_term = prev.current_term;
          voted_for = prev.voted_for;
          role = follower;
        }
        pure none)
    ]

  -- one answer from `voteCh`
  unfoldable pub handle_vote_response : ℕ → ℕ → RequestVoteResponse → Action S Verdict
  unfolding step_down become_leader
  handle_vote_response votes majority resp = do
    n ← get
    if ltb n.current_term resp.term
        then (do step_down st resp.term; pure lost)
        else if not (is_candidate_role n.role)
        then pure lost
        else do
          let count = if resp.vote_granted then votes + 1 else votes
          if leb majority count then (do modify become_leader; pure won) else pure (waiting count)
