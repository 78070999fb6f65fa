-- ===== src/Raft/Append/Stages.antt =====
-- The stages of the handler, taken apart.
use consensus_lab.Base.{ℕ, ◌+◌, ◌≤◌, ◌<◌, ◌≡◌, ◌⊎◌, true, none, ltb, if◌then◌else◌, arith}
use consensus_lab.Raft.Types.{follower, AppendEntriesRequest, AppendEntriesResponse}
use consensus_lab.Raft.Storage.{Storage}
use consensus_lab.Raft.Node.{last_log_index}
use consensus_lab.Raft.Action.{Replica, ok}
use consensus_lab.Raft.Append.{
  append_term_update, append_current, after_check, check_prev, merge_entries, handle_append_entries,
  accept, reject, commit_update,
}
use consensus_lab.Raft.Append.Frame.{check_prev_frame, merge_entries_frame}

-- the node when the consistency check runs
abbrev pub as_follower : {S : Type 0} → Replica S → Replica S
as_follower s = record s { node = record s.node { role = follower; election_timeout_reset = true } }

abbrev pub advanced : ℕ → ℕ → ℕ → ℕ
advanced commit leader_commit last =
    if ltb commit leader_commit
    then (if ltb leader_commit last then leader_commit else last)
    else commit

module _ {S : Type 0} (st : Storage S) (now : ℕ) (req : AppendEntriesRequest) where
  commit_update_fields :
      (s : Replica S)
      → let n = (commit_update st now req s).1.node in
        (n.log ≡ s.node.log)
        × (n.snapshot_index ≡ s.node.snapshot_index)
        × (n.current_term ≡ s.node.current_term)
        × (n.role ≡ s.node.role)
        × (n.voted_for ≡ s.node.voted_for)
        × (n.commit_index ≡ advanced s.node.commit_index req.leader_commit (last_log_index s.node))
  unfolding commit_update
  commit_update_fields s = ground arith

  -- A successful call has passed the check and run the loop to its end.
  pub append_current_success :
      (s : Replica S) (resp : AppendEntriesResponse)
      → (append_current st now req s).0 ≡ ok resp
      → resp.success ≡ true
      → let t = as_follower s in
        let merged = merge_entries st (req.prev_log_index + 1) req.entries t in
        let after = (append_current st now req s).1.node in
        ((check_prev req t).0 ≡ ok none)
        × (merged.0 ≡ ok tt)
        × (after.log ≡ merged.1.node.log)
        × (after.snapshot_index ≡ s.node.snapshot_index)
        × (after.current_term ≡ s.node.current_term)
        × (after.role ≡ follower)
        × (resp ≡ accept s.node.current_term)
        × (after.commit_index
            ≡ advanced s.node.commit_index req.leader_commit (last_log_index after))
  unfolding append_current after_check last_log_index
  append_current_success s resp returned success =
      let t = as_follower s in
      let merged = merge_entries st (req.prev_log_index + 1) req.entries t in
      ground (
        arith,
        check_prev_frame req t,
        merge_entries_frame st (req.prev_log_index + 1) req.entries t,
        commit_update_fields merged.1,
      )

  -- Whatever it returns, the log is as it was, or as the loop left it after a passed check.
  pub append_current_log :
      (s : Replica S)
      → let t = as_follower s in
        let after = (append_current st now req s).1.node in
        (after.snapshot_index ≡ s.node.snapshot_index)
        × ((after.log ≡ s.node.log)
            ⊎ (((check_prev req t).0 ≡ ok none)
                × (after.log
                    ≡ (merge_entries st (req.prev_log_index + 1) req.entries t).1.node.log)))
  unfolding append_current after_check
  append_current_log s =
      let t = as_follower s in
      let merged = merge_entries st (req.prev_log_index + 1) req.entries t in
      ground (
        arith,
        check_prev_frame req t,
        merge_entries_frame st (req.prev_log_index + 1) req.entries t,
        commit_update_fields merged.1,
      )

  pub append_term_update_log :
      (s : Replica S)
      → let after = (append_term_update st req s).1.node in
        (after.snapshot_index ≡ s.node.snapshot_index) × (after.log ≡ s.node.log)
  unfolding append_term_update
  append_term_update_log s = ground arith

  pub handle_or_same :
      (s : Replica S)
      → let t = (append_term_update st req s).1 in
        let after = (handle_append_entries st now req s).1 in
        (after ≡ s) ⊎ (after ≡ t) ⊎ (after ≡ (append_current st now req t).1)
  unfolding handle_append_entries
  handle_or_same s = ground arith

  -- The term update, if it returns, leaves the node in the request's term, or as it was if the
  -- request is of the node's own term.
  pub append_term_update_fields :
      (s : Replica S)
      → (append_term_update st req s).0 ≡ ok tt
      → s.node.current_term ≤ req.term
      → (append_term_update st req s).1.node ≡ record s.node {
        current_term = req.term;
        voted_for = if ltb s.node.current_term req.term then "" else s.node.voted_for;
      }
  unfolding append_term_update
  append_term_update_fields s returned newer = ground arith

  -- A request of an older term is refused with nothing changed; any other that is answered goes
  -- through the term update and the rest of the handler.
  pub handle_stages :
      (s : Replica S) (resp : AppendEntriesResponse)
      → (handle_append_entries st now req s).0 ≡ ok resp
      → let t = (append_term_update st req s).1 in
        ((req.term < s.node.current_term)
          × (resp ≡ reject s.node.current_term 0 0)
          × ((handle_append_entries st now req s).1 ≡ s))
        ⊎ ((s.node.current_term ≤ req.term)
            × ((append_term_update st req s).0 ≡ ok tt)
            × (handle_append_entries st now req s ≡ append_current st now req t))
  unfolding handle_append_entries
  handle_stages s resp returned = ground arith
