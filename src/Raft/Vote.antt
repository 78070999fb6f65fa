-- ===== src/Raft/Vote.antt =====
-- `HandleRequestVote` of internal/consensus/raft/rpc_handlers.go.
pub mod Safety
use consensus_lab.Base.{
  ℕ, ltb, leb, ◌==◌, str_eq, Bool, true, false, ◌&&◌, ◌||◌, if◌then◌else◌, Option, none, some,
}
use consensus_lab.Raft.Types.{follower, node_degraded, RequestVoteRequest, RequestVoteResponse}
use consensus_lab.Raft.Storage.{Storage}
use consensus_lab.Raft.Node.{Node, last_log_index, last_log_term}
use consensus_lab.Raft.Action.{
  Action, pure, fail, ◌>>=◌, ◌>>◌, get, modify, persist_hard_state, reset_election_timeout,
}

-- the candidate's log is at least as up to date as the node's
unfoldable pub up_to_date : RequestVoteRequest → Node → Bool
up_to_date req n =
    ltb (last_log_term n) req.last_log_term
    || (req.last_log_term == last_log_term n && leb (last_log_index n) req.last_log_index)

abbrev response : ℕ → Bool → RequestVoteResponse
response term granted = record { term = term; vote_granted = granted }

module _ {S : Type 0} (st : Storage S) where
  -- a newer term is adopted, unless it cannot be saved
  vote_term_update : RequestVoteRequest → Action S (Unit {0})
  vote_term_update req = do
    prev ← get
    if ltb prev.current_term req.term
        then (do
          modify (λ n. record n { current_term = req.term; voted_for = ""; role = follower })
          saved ← persist_hard_state st
          elim saved [
            | none ↦ pure tt
            | some e ↦ (do
              modify λ n. record n {
                current_term = prev.current_term;
                voted_for = prev.voted_for;
                role = prev.role;
              }
              fail e)
          ])
        else pure tt

  grant_vote : RequestVoteRequest → Action S RequestVoteResponse
  grant_vote req = do
    prev ← get
    modify (λ n. record n { voted_for = req.candidate_id })
    saved ← persist_hard_state st
    elim saved [
      | none ↦ (do modify reset_election_timeout; pure (response prev.current_term true))
      | some e ↦ (do modify (λ n. record n { voted_for = prev.voted_for }); fail e)
    ]

  decide_vote : RequestVoteRequest → Action S RequestVoteResponse
  unfolding grant_vote
  decide_vote req = do
    n ← get
    if (str_eq n.voted_for "" || str_eq n.voted_for req.candidate_id) && up_to_date req n
        then grant_vote req
        else pure (response n.current_term false)

  unfoldable pub handle_request_vote : RequestVoteRequest → Action S RequestVoteResponse
  unfolding vote_term_update decide_vote
  handle_request_vote req = do
    n ← get
    if n.degraded
        then fail node_degraded
        else if ltb req.term n.current_term
        then pure (response n.current_term false)
        else do vote_term_update req; decide_vote req
