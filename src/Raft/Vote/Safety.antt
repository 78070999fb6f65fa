-- ===== src/Raft/Vote/Safety.antt =====
-- What a granted vote means.
use consensus_lab.Base.{◌≤◌, ap, sym, ◌∙◌, none, ◌≡◌, ◌≢◌, true, arith}
use consensus_lab.Raft.Types.{RequestVoteRequest, RequestVoteResponse, HardState, PersistentState}
use consensus_lab.Raft.Storage.{Storage, IsDurable}
use consensus_lab.Raft.Node.{hard_state, last_log_index, last_log_term}
use consensus_lab.Raft.Action.{Outcome, Replica, ok, panic}
use consensus_lab.Raft.Vote.{handle_request_vote, vote_term_update, decide_vote, up_to_date}

module _ {S : Type 0} (st : Storage S) (req : RequestVoteRequest) (s : Replica S) where
  -- No request panics.
  pub handle_request_vote-ne-panic : (handle_request_vote st req s).0 ≢ panic
  unfolding handle_request_vote
  handle_request_vote-ne-panic = ground arith

  -- A granted vote is recorded, in the term of the request.
  pub granted_recorded :
      (resp : RequestVoteResponse)
      → (handle_request_vote st req s).0 ≡ ok resp
      → resp.vote_granted ≡ true
      → let n = (handle_request_vote st req s).1.node in
        (n.voted_for ≡ req.candidate_id)
        × (n.current_term ≡ req.term)
        × (resp.term ≡ req.term)
        × (s.node.current_term ≤ req.term)
  unfolding handle_request_vote
  granted_recorded resp returned granted = ground arith

  -- A vote is granted by the last save of the hard state.
  decide_saved :
      (t : Replica S) (resp : RequestVoteResponse)
      → (decide_vote st req t).0 ≡ ok resp
      → resp.vote_granted ≡ true
      → let u = (decide_vote st req t).1 in
        let saved = st.save_hard_state (hard_state u.node) t.disk in
        (saved.0 ≡ none) × (u.disk ≡ saved.1)
  unfolding decide_vote hard_state
  decide_saved t resp returned granted = ground arith

  decide_up_to_date :
      (t : Replica S) (resp : RequestVoteResponse)
      → (decide_vote st req t).0 ≡ ok resp
      → resp.vote_granted ≡ true
      → up_to_date req t.node ≡ true
  unfolding decide_vote
  decide_up_to_date t resp returned granted = ground arith

  up_to_date_same : up_to_date req (vote_term_update st req s).1.node ≡ up_to_date req s.node
  unfolding vote_term_update up_to_date last_log_term last_log_index
  up_to_date_same = ground arith

  granted_by_decision :
      (resp : RequestVoteResponse)
      → (handle_request_vote st req s).0 ≡ ok resp
      → resp.vote_granted ≡ true
      → handle_request_vote st req s ≡ decide_vote st req (vote_term_update st req s).1
  unfolding handle_request_vote
  granted_by_decision resp returned granted = ground arith

  -- With a durable storage, a granted vote is on the storage before the answer is given (the loaded
  -- state holds the node's hard state, with the candidate and the request's term), the request was
  -- of no older term, and the candidate's log was up to date.
  pub granted_durable :
      (stored : S → PersistentState) (resp : RequestVoteResponse)
      → IsDurable st stored
      → (handle_request_vote st req s).0 ≡ ok resp
      → resp.vote_granted ≡ true
      → let t = (handle_request_vote st req s).1 in
        ((stored t.disk).hard ≡ hard_state t.node)
        × ((stored t.disk).hard.voted_for ≡ req.candidate_id)
        × ((stored t.disk).hard.current_term ≡ req.term)
        × (s.node.current_term ≤ req.term)
        × (up_to_date req s.node ≡ true)
  granted_durable stored resp durable returned granted =
      let whole = granted_by_decision resp returned granted in
      let t = (vote_term_update st req s).1 in
      let u = (decide_vote st req t).1 in
      let returned' =
        ap (λ (r : Outcome RequestVoteResponse × Replica S). r.0) (sym whole) ∙ returned in
      let saved = decide_saved t resp returned' granted in
      let recorded = granted_recorded resp returned granted in
      let kept : (stored (handle_request_vote st req s).1.disk).hard
          ≡ hard_state (handle_request_vote st req s).1.node =
        rw (whole, saved.1)
          (ap (λ (p : PersistentState). p.hard)
            (durable.save_hard_state_ok (hard_state u.node) t.disk saved.0)) in
      (
        kept,
        ap (λ (h : HardState). h.voted_for) kept ∙ unfold hard_state in recorded.0,
        ap (λ (h : HardState). h.current_term) kept ∙ unfold hard_state in recorded.1,
        recorded.3,
        sym up_to_date_same ∙ decide_up_to_date t resp returned' granted,
      )
