-- ===== src/Raft/Append/Success.antt =====
-- What a successful `HandleAppendEntries` has done.
use consensus_lab.Base.{
  ℕ, ◌+◌, ◌≤◌, ◌<◌, ◌≡◌, ap, sym, ◌∙◌, inl, inr, true, none, some, get_elem?, arith,
}
use consensus_lab.Raft.Types.{follower, LogEntry, AppendEntriesRequest, AppendEntriesResponse}
use consensus_lab.Raft.Storage.{Storage}
use consensus_lab.Raft.Node.{Node, last_log_index, entry_at}
use consensus_lab.Raft.Node.Index.{entry_at-some}
use consensus_lab.Raft.Action.{Replica, Outcome, ok}
use consensus_lab.Raft.Append.{
  check_prev, merge_entries, append_term_update, append_current, handle_append_entries,
}
use consensus_lab.Raft.Append.Merge.{Holds, AgreesUpto, merge_entries-Holds, merge_entries_kept}
use consensus_lab.Raft.Append.Frame.{merge_entries_frame}
use consensus_lab.Raft.Append.Stages.{
  as_follower, advanced, append_current_success, append_current_log, append_term_update_log,
  handle_or_same, append_term_update_fields, handle_stages,
}

-- `entry_at` reads the log and the snapshot index only.
entry_at-same :
    (m n : Node) (i : ℕ)
    → m.log ≡ n.log
    → m.snapshot_index ≡ n.snapshot_index
    → entry_at m i ≡ entry_at n i
unfolding entry_at
entry_at-same m n i l x = rw (l, x)

-- The check lets a request pass whose previous entry is in the log with its term.
check_prev-passed :
    {S : Type 0} (req : AppendEntriesRequest) (s : Replica S)
    → (check_prev req s).0 ≡ ok none
    → req.prev_log_index ≤ last_log_index s.node
unfolding check_prev
check_prev-passed req s passed = ground arith

check_prev-matches :
    {S : Type 0} (req : AppendEntriesRequest) (s : Replica S)
    → (check_prev req s).0 ≡ ok none
    → s.node.snapshot_index < req.prev_log_index
    → (e : LogEntry) × (entry_at s.node req.prev_log_index ≡ some e) × (e.term ≡ req.prev_log_term)
unfolding check_prev
check_prev-matches req s passed after =
    let (e, read) =
      entry_at-some s.node req.prev_log_index after (check_prev-passed req s passed) in
    (e, read, ground arith)

module _ {S : Type 0} (st : Storage S) (now : ℕ) (req : AppendEntriesRequest) where
  current-Holds :
      (s : Replica S) (resp : AppendEntriesResponse) (k : ℕ) (x : LogEntry)
      → (append_current st now req s).0 ≡ ok resp
      → resp.success ≡ true
      → get_elem? req.entries k ≡ some x
      → s.node.snapshot_index < req.prev_log_index + 1 + k
      → Holds s.node (append_current st now req s).1.node (req.prev_log_index + 1 + k) x
  unfolding last_log_index entry_at
  current-Holds s resp k x returned success at fresh =
      let t = as_follower s in
      let i = req.prev_log_index + 1 + k in
      let merged = merge_entries st (req.prev_log_index + 1) req.entries t in
      let facts = append_current_success st now req s resp returned success in
      let fits = check_prev-passed req t facts.0 in
      let held =
        merge_entries-Holds st (req.prev_log_index + 1) req.entries t k x (omega arith) facts.1 at
          fresh in
      let same_read = entry_at-same (append_current st now req s).1.node merged.1.node i facts.2 (
        facts.3
        ∙ sym (
            ap (λ (n : Node). n.snapshot_index)
              (merge_entries_frame st (req.prev_log_index + 1) req.entries t))) in
      (held.0, same_read ∙ held.1, held.2, held.3)

  current_kept :
      (s : Replica S) (j : ℕ)
      → j ≤ last_log_index s.node
      → AgreesUpto s.node (req.prev_log_index + 1) req.entries j
      → entry_at (append_current st now req s).1.node j ≡ entry_at s.node j
  unfolding last_log_index entry_at
  current_kept s j within agrees =
      let t = as_follower s in
      let merged = merge_entries st (req.prev_log_index + 1) req.entries t in
      let after = (append_current st now req s).1.node in
      let facts = append_current_log st now req s in
      elim facts.1 [
        | inl unchanged ↦ entry_at-same after s.node j unchanged facts.0
        | inr ran ↦
            let fits = check_prev-passed req t ran.0 in
            entry_at-same after merged.1.node j ran.1 (
              facts.0
              ∙ sym (
                  ap (λ (n : Node). n.snapshot_index)
                    (merge_entries_frame st (req.prev_log_index + 1) req.entries t)))
            ∙ merge_entries_kept st (req.prev_log_index + 1) req.entries t j (omega arith) within
                agrees
      ]

module _ {S : Type 0} (st : Storage S) (now : ℕ) (req : AppendEntriesRequest) (s : Replica S) where
  term_update_read : (i : ℕ) → entry_at (append_term_update st req s).1.node i ≡ entry_at s.node i
  term_update_read i =
      let facts = append_term_update_log st now req s in
      entry_at-same (append_term_update st req s).1.node s.node i facts.1 facts.0

  -- After a successful AppendEntries every entry of the request beyond the snapshot is in the log
  -- at its index: the request's copy, or the entry of the same term that stood there before.
  pub append-Holds :
      (resp : AppendEntriesResponse) (k : ℕ) (x : LogEntry)
      → (handle_append_entries st now req s).0 ≡ ok resp
      → resp.success ≡ true
      → get_elem? req.entries k ≡ some x
      → s.node.snapshot_index < req.prev_log_index + 1 + k
      → Holds s.node (handle_append_entries st now req s).1.node (req.prev_log_index + 1 + k) x
  append-Holds resp k x returned success at fresh =
      let t = (append_term_update st req s).1 in
      let i = req.prev_log_index + 1 + k in
      elim (handle_stages st now req s resp returned) [
        | inl stale ↦ cc (stale.1)
        | inr current ↦
            let held =
              current-Holds st now req t resp k x
                (ap (λ (r : Outcome AppendEntriesResponse × Replica S). r.0) (sym current.2)
                  ∙ returned)
                success at (rw (append_term_update_log st now req s).0 fresh) in
            rw (current.2) (
              held.0,
              held.1,
              held.2,
              elim held.3 [ inl copy ↦ inl copy | inr old ↦ inr (sym (term_update_read i) ∙ old) ],
            )
      ]

  -- Whatever AppendEntries returns, an entry of the log before the first one that contradicts the
  -- request stays as it is.
  pub append_kept :
      (j : ℕ)
      → j ≤ last_log_index s.node
      → AgreesUpto s.node (req.prev_log_index + 1) req.entries j
      → entry_at (handle_append_entries st now req s).1.node j ≡ entry_at s.node j
  unfolding last_log_index
  append_kept j within agrees =
      let t = (append_term_update st req s).1 in
      let facts = append_term_update_log st now req s in
      elim (handle_or_same st now req s) [
        | inl unchanged ↦ rw unchanged
        | inr (inl updated) ↦ rw updated (term_update_read j)
        | inr (inr ran) ↦ rw ran (
            current_kept st now req t j (rw (facts.0, facts.1) within) (λ k e own before at read.
              agrees k e own before at (sym (term_update_read (req.prev_log_index + 1 + k)) ∙ read))
            ∙ term_update_read j)
      ]

  -- After a successful AppendEntries the node is a follower in the request's term, which is no
  -- older than its term before; where the leader's commit index is ahead of the node's, the commit
  -- index is the leader's or the last index of the log where that is smaller, else it is unchanged.
  pub append-commit :
      (resp : AppendEntriesResponse)
      → (handle_append_entries st now req s).0 ≡ ok resp
      → resp.success ≡ true
      → let after = (handle_append_entries st now req s).1.node in
        (s.node.current_term ≤ req.term)
        × (after.current_term ≡ req.term)
        × (after.role ≡ follower)
        × (resp.term ≡ req.term)
        × (after.commit_index
            ≡ advanced s.node.commit_index req.leader_commit (last_log_index after))
  append-commit resp returned success =
      let t = (append_term_update st req s).1 in
      elim (handle_stages st now req s resp returned) [
        | inl stale ↦ cc (stale.1)
        | inr current ↦
            let returned' =
              ap (λ (r : Outcome AppendEntriesResponse × Replica S). r.0) (sym current.2)
              ∙ returned in
            let facts = append_current_success st now req t resp returned' success in
            let fields = append_term_update_fields st now req s current.1 current.0 in
            rw (current.2) (
              current.0,
              facts.4 ∙ ap (λ (n : Node). n.current_term) fields,
              facts.5,
              ap (λ (r : AppendEntriesResponse). r.term) facts.6
                  ∙ ap (λ (n : Node). n.current_term) fields,
              facts.7
                  ∙ ap
                      (λ (n : Node).
                        advanced n.commit_index req.leader_commit
                          (last_log_index (append_current st now req t).1.node))
                      fields,
            )
      ]
