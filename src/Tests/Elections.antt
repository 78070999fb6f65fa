-- ===== src/Tests/Elections.antt =====
-- Elections in the three-node cluster.
use consensus_lab.Base.{◌+◌, ◌≤◌, ◌≡◌, refl, inl, true, String, List, [], ◌∷◌, some, eq_iff, arith}
use consensus_lab.Raft.Types.{candidate, leader, RequestVoteRequest, RequestVoteResponse}
use consensus_lab.Raft.Storage.Memory.Durable.{memory-IsDurable, memory-IsAtomic}
use consensus_lab.Raft.Storage.Memory.{InMemoryStorage, memory, load_state}
use consensus_lab.Raft.Node.{last_log_index, last_log_term, quorum_size, hard_state}
use consensus_lab.Raft.Action.{Replica, ok}
use consensus_lab.Raft.Vote.{handle_request_vote, up_to_date}
use consensus_lab.Raft.Election.{
  won, election_timeout, start_election, open_ballot, handle_vote_response,
}
use consensus_lab.Raft.Election.Ballots.{start_election_durable, handle_vote_response_won}
use consensus_lab.Raft.Steps.{Event, request_vote, timeout, after, run}
use consensus_lab.Raft.Cluster.{holds_vote, count, votes_in_run, votes_of}
use consensus_lab.Raft.Restart.{new_node}
use consensus_lab.Raft.Steps.Restarts.{Vouched}
use consensus_lab.Raft.Steps.Restarts.Runs.{Happening, event, restart, happen}
use consensus_lab.Raft.Cluster.Restarts.{
  has_vote, stored_in_run, stored_votes, one_candidate_across_restarts,
}
use consensus_lab.Raft.Cluster.Elections.{one_candidate_per_term}
use consensus_lab.Tests.Cluster.{behind, node_b, replica, entry, ask_vote}

abbrev yes_in_2 : RequestVoteResponse
yes_in_2 = record { term = 2; vote_granted = true }

-- every member is asked for its vote by "a"
abbrev asked : String → List Event
asked m = timeout ∷ request_vote (ask_vote "a" 2) ∷ []

abbrev members : String → Replica InMemoryStorage
members m = behind

all_for_a : votes_of memory asked members 2 "a" behind.node.config.members ≡ 3
unfolding votes_of count votes_in_run holds_vote after handle_request_vote memory up_to_date
    last_log_index last_log_term election_timeout
all_for_a = refl

quorum_for_a :
    quorum_size behind.node ≤ votes_of memory asked members 2 "a" behind.node.config.members
unfolding quorum_size
quorum_for_a = omega (arith, all_for_a)

one_candidate_per_term_example : (ask_vote "a" 2).candidate_id ≡ (ask_vote "a" 2).candidate_id
one_candidate_per_term_example =
    one_candidate_per_term memory asked members behind.node 2 "a" "a"
      (λ e. cc ((eq_iff "a" "").1 e)) (λ e. cc ((eq_iff "a" "").1 e)) quorum_for_a quorum_for_a

-- each member is restarted after it has voted
abbrev interrupted : String → List Happening
interrupted m = event (request_vote (ask_vote "a" 2)) ∷ restart m ("a" ∷ "c" ∷ []) ∷ []

stored_for_a :
    stored_votes memory load_state interrupted members 2 "a" behind.node.config.members ≡ 3
unfolding stored_votes count stored_in_run has_vote happen after handle_request_vote memory
    up_to_date last_log_index last_log_term hard_state new_node
stored_for_a = refl

stored_quorum_for_a :
    quorum_size behind.node
    ≤ stored_votes memory load_state interrupted members 2 "a" behind.node.config.members
unfolding quorum_size
stored_quorum_for_a = omega (arith, stored_for_a)

nothing_stored : (load_state behind.disk).hard.current_term ≡ 0
unfolding memory
nothing_stored = refl

members-Vouched : (m : String) → Vouched load_state (members m)
members-Vouched m = inl (omega (arith, nothing_stored))

one_candidate_across_restarts_example :
    (ask_vote "a" 2).candidate_id ≡ (ask_vote "a" 2).candidate_id
one_candidate_across_restarts_example =
    one_candidate_across_restarts memory load_state interrupted members behind.node 2 "a" "a"
      memory-IsDurable memory-IsAtomic members-Vouched (λ e. cc ((eq_iff "a" "").1 e))
      (λ e. cc ((eq_iff "a" "").1 e)) stored_quorum_for_a stored_quorum_for_a

granted_after_timeout :
    (handle_request_vote memory (ask_vote "a" 2) (run memory (timeout ∷ []) behind)).0 ≡ ok yes_in_2
unfolding handle_request_vote memory up_to_date last_log_index last_log_term run after
    election_timeout
granted_after_timeout = refl

abbrev request_b : RequestVoteRequest
request_b = record { term = 2; candidate_id = "b"; last_log_index = 2; last_log_term = 1 }

started : (start_election memory behind).0 ≡ ok (some request_b)
unfolding start_election memory last_log_index last_log_term
started = refl

start_election_durable_example :
    let t = (start_election memory behind).1 in
    ((load_state t.disk).hard.current_term ≡ 2)
    × ((load_state t.disk).hard.voted_for ≡ "b")
    × (t.node.current_term ≡ 2)
    × (t.node.voted_for ≡ "b")
    × (request_b.term ≡ 2)
    × (request_b.candidate_id ≡ "b")
    × (request_b.last_log_index ≡ last_log_index behind.node)
    × (request_b.last_log_term ≡ last_log_term behind.node)
    × (open_ballot request_b t
        ≡ (ok (record { request = request_b; votes = 1; majority = quorum_size t.node }), t))
start_election_durable_example =
    start_election_durable memory behind load_state request_b (start_election memory behind).1
      memory-IsDurable started

abbrev running : Replica InMemoryStorage
running = replica (node_b candidate 2 "b" (entry 1 7 ∷ entry 1 8 ∷ []) 0 0)

elected : (handle_vote_response memory 1 2 yes_in_2 running).0 ≡ ok won
unfolding handle_vote_response
elected = refl

elected_with_two :
    let after = (handle_vote_response memory 1 2 yes_in_2 running).1.node in
    (running.node.role ≡ candidate)
    × (2 ≤ 2)
    × (2 ≤ 1 + 1)
    × (after.role ≡ leader)
    × (after.current_term ≡ 2)
    × (after.log ≡ running.node.log)
    × (after.next_index "c" ≡ last_log_index running.node + 1)
    × (after.match_index "c" ≡ 0)
elected_with_two = handle_vote_response_won memory running 1 2 yes_in_2 1 "c" elected refl
