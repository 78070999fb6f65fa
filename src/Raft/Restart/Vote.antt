-- ===== src/Raft/Restart/Vote.antt =====
-- A vote outlives a crash.
use consensus_lab.Base.{◌≡◌, ◌∙◌, true, String, List, arith}
use consensus_lab.Raft.Types.{RequestVoteRequest, RequestVoteResponse, PersistentState}
use consensus_lab.Raft.Storage.{Storage, IsDurable}
use consensus_lab.Raft.Node.{Node}
use consensus_lab.Raft.Action.{Replica, ok}
use consensus_lab.Raft.Vote.{handle_request_vote}
use consensus_lab.Raft.Vote.Safety.{granted_durable}
use consensus_lab.Raft.Restart.{new_node, restored}

-- The restored node is in the stored term, with the stored vote.
pub restored_vote :
    (id : String) (peers : List String) (ps : PersistentState)
    → ((restored id peers ps).current_term ≡ ps.hard.current_term)
      × ((restored id peers ps).voted_for ≡ ps.hard.voted_for)
unfolding restored
restored_vote id peers ps = ground arith

pub new_node_lem :
    {S : Type 0} (st : Storage S) (stored : S → PersistentState) (id : String) (peers : List String)
    (d : S)
    → IsDurable st stored
    → new_node st id peers d ≡ ok (restored id peers (stored d))
unfolding new_node
new_node_lem st stored id peers d durable = rw (durable.load_ok d)

-- A node that is restarted from a durable storage right after it has granted a vote starts in the
-- term of the vote and still holds the vote.
pub granted-new_node :
    {S : Type 0} (st : Storage S) (stored : S → PersistentState) (req : RequestVoteRequest)
    (s : Replica S) (resp : RequestVoteResponse) (id : String) (peers : List String)
    → IsDurable st stored
    → (handle_request_vote st req s).0 ≡ ok resp
    → resp.vote_granted ≡ true
    → (m : Node) × (new_node st id peers (handle_request_vote st req s).1.disk ≡ ok m)
      × (m.current_term ≡ req.term)
      × (m.voted_for ≡ req.candidate_id)
granted-new_node st stored req s resp id peers durable returned granted =
    let d = (handle_request_vote st req s).1.disk in
    let kept = granted_durable st req s stored resp durable returned granted in
    let vote = restored_vote id peers (stored d) in
    (
      restored id peers (stored d),
      new_node_lem st stored id peers d durable,
      vote.0 ∙ kept.2,
      vote.1 ∙ kept.1,
    )
