-- ===== src/Tests/Votes.antt =====
-- Votes on concrete requests.
use consensus_lab.Base.{◌≤◌, ◌≡◌, refl, true, false, List, [], ◌∷◌, eq_iff}
use consensus_lab.Raft.Types.{RequestVoteResponse}
use consensus_lab.Raft.Storage.Memory.{memory, load_state}
use consensus_lab.Raft.Storage.Memory.Durable.{memory-IsDurable, memory-IsAtomic}
use consensus_lab.Raft.Node.{hard_state, last_log_index, last_log_term}
use consensus_lab.Raft.Action.{ok}
use consensus_lab.Raft.Vote.{handle_request_vote, up_to_date}
use consensus_lab.Raft.Vote.Safety.{granted_durable}
use consensus_lab.Raft.Steps.{timeout, run}
use consensus_lab.Raft.Steps.Terms.{one_vote_per_term}
use consensus_lab.Raft.Election.{election_timeout}
use consensus_lab.Raft.Restart.{new_node}
use consensus_lab.Raft.Steps.Restarts.Runs.{
  Happening, event, restart, run_on, one_vote_across_restarts,
}
use consensus_lab.Tests.Cluster.{behind, ask_vote}

abbrev yes_in_2 : RequestVoteResponse
yes_in_2 = record { term = 2; vote_granted = true }

granted : (handle_request_vote memory (ask_vote "a" 2) behind).0 ≡ ok yes_in_2
unfolding handle_request_vote memory up_to_date last_log_index last_log_term
granted = refl

-- the second candidate of the term is refused
refused :
    (handle_request_vote memory
      (ask_vote "c" 2)
      (handle_request_vote memory (ask_vote "a" 2) behind).1).0
    ≡ ok (record { term = 2; vote_granted = false })
unfolding handle_request_vote memory up_to_date last_log_index last_log_term
refused = refl

granted_again :
    (handle_request_vote memory
      (ask_vote "a" 2)
      (run memory (timeout ∷ []) (handle_request_vote memory (ask_vote "a" 2) behind).1)).0
    ≡ ok yes_in_2
unfolding handle_request_vote memory up_to_date last_log_index last_log_term run election_timeout
granted_again = refl

votes_go_to_one : (ask_vote "a" 2).candidate_id ≡ (ask_vote "a" 2).candidate_id
votes_go_to_one =
    one_vote_per_term memory behind (timeout ∷ []) (ask_vote "a" 2) (ask_vote "a" 2) yes_in_2
      yes_in_2 (λ e. cc ((eq_iff "a" "").1 e)) refl granted refl granted_again refl

granted_durable_example :
    let t = (handle_request_vote memory (ask_vote "a" 2) behind).1 in
    ((load_state t.disk).hard ≡ hard_state t.node)
    × ((load_state t.disk).hard.voted_for ≡ "a")
    × ((load_state t.disk).hard.current_term ≡ 2)
    × (1 ≤ 2)
    × (up_to_date (ask_vote "a" 2) behind.node ≡ true)
granted_durable_example =
    granted_durable memory (ask_vote "a" 2) behind load_state yes_in_2 memory-IsDurable granted refl

abbrev in_between : List Happening
in_between = restart "b" ("a" ∷ "c" ∷ []) ∷ event timeout ∷ []

granted_after_restart :
    (handle_request_vote memory
      (ask_vote "a" 2)
      (run_on memory in_between (handle_request_vote memory (ask_vote "a" 2) behind).1)).0
    ≡ ok yes_in_2
unfolding handle_request_vote memory up_to_date last_log_index last_log_term run_on election_timeout
    new_node hard_state
granted_after_restart = refl

one_vote_across_restarts_example : (ask_vote "a" 2).candidate_id ≡ (ask_vote "a" 2).candidate_id
one_vote_across_restarts_example =
    one_vote_across_restarts memory load_state behind in_between (ask_vote "a" 2) (ask_vote "a" 2)
      yes_in_2 yes_in_2 memory-IsDurable memory-IsAtomic (λ e. cc ((eq_iff "a" "").1 e)) refl
      granted refl granted_after_restart refl
