-- ===== src/Raft/Election/Ballots.antt =====
-- How an election starts and how it is won.
use consensus_lab.Base.{
  ℕ, zero, suc, ◌+◌, ◌≤◌, ◌≡◌, ap, ◌∙◌, String, eq_iff, some, List, [], ◌∷◌, get_elem?, arith,
}
use consensus_lab.Raft.Types.{
  candidate, leader, RequestVoteRequest, RequestVoteResponse, PersistentState,
}
use consensus_lab.Raft.Storage.{Storage, IsDurable}
use consensus_lab.Raft.Node.{Node, update, hard_state, quorum_size, last_log_index, last_log_term}
use consensus_lab.Raft.Action.{Replica, ok}
use consensus_lab.Raft.Election.{won, init_peers, start_election, open_ballot, handle_vote_response}

init_peers_kept :
    (value : ℕ) (peers : List String) (m : String → ℕ) (peer : String)
    → m peer ≡ value
    → init_peers value peers m peer ≡ value
unfolding init_peers
init_peers_kept value [] m peer held = held
init_peers_kept value (other ∷ peers) m peer held =
    init_peers_kept value peers (update m other value) peer (ground arith)

init_peers_lem :
    (value : ℕ) (peers : List String) (m : String → ℕ) (k : ℕ) (peer : String)
    → get_elem? peers k ≡ some peer
    → init_peers value peers m peer ≡ value
unfolding init_peers
init_peers_lem value [] m k peer at = cc
init_peers_lem value (other ∷ peers) m zero peer at =
    init_peers_kept value peers (update m other value) peer (ground (arith, eq_iff peer other))
init_peers_lem value (other ∷ peers) m (suc k) peer at =
    init_peers_lem value peers (update m other value) k peer at

module _ {S : Type 0} (st : Storage S) (s : Replica S) where
  -- With a durable storage, a request for votes is handed out only after the candidate's vote for
  -- itself in the next term is on the storage; the request is for that term and tells what the log
  -- ends with, and the ballot that is opened with it, in whatever state the replica is by then,
  -- counts the candidate's own vote and takes the quorum of the configuration of that state as its
  -- majority.
  pub start_election_durable :
      (stored : S → PersistentState) (request : RequestVoteRequest) (u : Replica S)
      → IsDurable st stored
      → (start_election st s).0 ≡ ok (some request)
      → let t = (start_election st s).1 in
        ((stored t.disk).hard.current_term ≡ s.node.current_term + 1)
        × ((stored t.disk).hard.voted_for ≡ s.node.id)
        × (t.node.current_term ≡ s.node.current_term + 1)
        × (t.node.voted_for ≡ s.node.id)
        × (request.term ≡ s.node.current_term + 1)
        × (request.candidate_id ≡ s.node.id)
        × (request.last_log_index ≡ last_log_index s.node)
        × (request.last_log_term ≡ last_log_term s.node)
        × (open_ballot request u
            ≡ (ok (record { request = request; votes = 1; majority = quorum_size u.node }), u))
  unfolding start_election open_ballot hard_state last_log_index last_log_term quorum_size
  start_election_durable stored request u durable returned =
      let n : Node = record s.node {
        current_term = s.node.current_term + 1;
        voted_for = s.node.id;
      } in
      ground (arith, durable.save_hard_state_ok (hard_state n) s.disk)

  won_fields :
      (votes majority : ℕ) (resp : RequestVoteResponse)
      → (handle_vote_response st votes majority resp s).0 ≡ ok won
      → let after = (handle_vote_response st votes majority resp s).1.node in
        (s.node.role ≡ candidate)
        × (resp.term ≤ s.node.current_term)
        × (majority ≤ votes + 1)
        × (after.role ≡ leader)
        × (after.current_term ≡ s.node.current_term)
        × (after.log ≡ s.node.log)
        × (after.next_index
            ≡ init_peers
                (last_log_index s.node + 1)
                s.node.peers
                (update s.node.next_index s.node.id (last_log_index s.node + 1)))
        × (after.match_index ≡ init_peers 0 s.node.peers (update s.node.match_index s.node.id 0))
  unfolding handle_vote_response
  won_fields votes majority resp returned = ground arith

  -- An election is won by a candidate that this answer shows no newer term, with the majority
  -- reached by this answer at the latest; the winner leads in the same term with the same log, and
  -- each peer's next index is the one after the last, its match index zero.
  pub handle_vote_response_won :
      (votes majority : ℕ) (resp : RequestVoteResponse) (k : ℕ) (peer : String)
      → (handle_vote_response st votes majority resp s).0 ≡ ok won
      → get_elem? s.node.peers k ≡ some peer
      → let after = (handle_vote_response st votes majority resp s).1.node in
        (s.node.role ≡ candidate)
        × (resp.term ≤ s.node.current_term)
        × (majority ≤ votes + 1)
        × (after.role ≡ leader)
        × (after.current_term ≡ s.node.current_term)
        × (after.log ≡ s.node.log)
        × (after.next_index peer ≡ last_log_index s.node + 1)
        × (after.match_index peer ≡ 0)
  handle_vote_response_won votes majority resp k peer returned at =
      let facts = won_fields votes majority resp returned in
      let next = last_log_index s.node + 1 in
      (
        facts.0,
        facts.1,
        facts.2,
        facts.3,
        facts.4,
        facts.5,
        ap (λ f. f peer) facts.6
            ∙ init_peers_lem next s.node.peers (update s.node.next_index s.node.id next) k peer at,
        ap (λ f. f peer) facts.7
            ∙ init_peers_lem 0 s.node.peers (update s.node.match_index s.node.id 0) k peer at,
      )
