-- ===== src/Raft/Append/Refusal.antt =====
-- What a refused `HandleAppendEntries` tells the leader.
use consensus_lab.Base.{
  ℕ, ◌+◌, ◌≤◌, ◌<◌, ◌≡◌, ◌≢◌, ◌⊎◌, ap, sym, ◌∙◌, inl, inr, refl, false, some, Option-cases, arith,
}
use consensus_lab.Raft.Types.{LogEntry, AppendEntriesRequest, AppendEntriesResponse}
use consensus_lab.Raft.Storage.{Storage}
use consensus_lab.Raft.Node.{Node, last_log_index, entry_at, first_index_of_term}
use consensus_lab.Raft.Node.Terms.{first_index_of_term_lem}
use consensus_lab.Raft.Node.Index.{snapshot-le-last, entry_at-le-last}
use consensus_lab.Raft.Action.{Outcome, Replica, ok}
use consensus_lab.Raft.Append.{
  check_prev, after_check, append_term_update, append_current, handle_append_entries, reject,
}
use consensus_lab.Raft.Append.Frame.{check_prev_frame}
use consensus_lab.Raft.Append.Stages.{as_follower, append_term_update_fields, handle_stages}

-- The three ways in which the check at the previous entry fails, with the hint of each.
check_prev-refused :
    {S : Type 0} (req : AppendEntriesRequest) (s : Replica S) (r : AppendEntriesResponse)
    → (check_prev req s).0 ≡ ok (some r)
    → ((last_log_index s.node < req.prev_log_index)
        × (r ≡ reject s.node.current_term 0 (last_log_index s.node + 1)))
      ⊎ ((e : LogEntry) × (entry_at s.node req.prev_log_index ≡ some e)
          × (e.term ≢ req.prev_log_term)
          × (r ≡ reject s.node.current_term e.term (first_index_of_term s.node e.term)))
      ⊎ ((req.prev_log_index ≡ s.node.snapshot_index)
          × (req.prev_log_term ≢ s.node.snapshot_term)
          × (r ≡ reject s.node.current_term 0 (s.node.snapshot_index + 1)))
unfolding check_prev
check_prev-refused req s r refused = elim (Option-cases (entry_at s.node req.prev_log_index)) [
  | inl out ↦ ground arith
  | inr present ↦ ground arith
]

-- The hint of a refusal: the index lies in the log or just after it, and not beyond the one after
-- the previous entry; the term, if there is one, is that of the entry at the index.
pub record IsHint (n : Node) (req : AppendEntriesRequest) (r : AppendEntriesResponse) : Type 0 where
  pub positive : 0 < r.conflict_index
  pub back : r.conflict_index ≤ req.prev_log_index + 1
  pub within : r.conflict_index ≤ last_log_index n + 1
  pub term :
      (r.conflict_term ≡ 0)
      ⊎ ((x : LogEntry) × (entry_at n r.conflict_index ≡ some x) × (x.term ≡ r.conflict_term))

check_prev-IsHint :
    {S : Type 0} (req : AppendEntriesRequest) (s : Replica S) (r : AppendEntriesResponse)
    → (check_prev req s).0 ≡ ok (some r)
    → IsHint s.node req r
check_prev-IsHint req s r refused = elim (check_prev-refused req s r refused) [
  | inl missing ↦ rw missing.1 (record {
    positive = omega arith;
    back = omega (arith, missing.0);
    within = omega arith;
    term = inl refl;
  })
  | inr (inl conflict) ↦
      let (e, read, ne, eq) = conflict in
      let first = first_index_of_term_lem s.node req.prev_log_index e read in
      let inside = entry_at-le-last s.node req.prev_log_index read in
      rw eq (record {
        positive = omega (arith, first.0);
        back = omega (arith, first.1);
        within = omega (arith, first.1, inside);
        term = inr first.2;
      })
  | inr (inr boundary) ↦ rw boundary.2 (record {
    positive = omega arith;
    back = omega (arith, boundary.0);
    within = omega (arith, snapshot-le-last s.node);
    term = inl refl;
  })
]

module _ {S : Type 0} (st : Storage S) (now : ℕ) (req : AppendEntriesRequest) where
  append_current-refused :
      (s : Replica S) (resp : AppendEntriesResponse)
      → (append_current st now req s).0 ≡ ok resp
      → resp.success ≡ false
      → ((check_prev req (as_follower s)).0 ≡ ok (some resp))
        × ((append_current st now req s).1 ≡ as_follower s)
  unfolding append_current after_check
  append_current-refused s resp returned refused =
      ground (arith, check_prev_frame req (as_follower s))

  -- A refused AppendEntries of no older term leaves log, snapshot index and commit index unchanged,
  -- and the answer hints at a positive index, at most one after the request's previous index and at
  -- most one after the last index of the log; the term it gives, unless that is zero, is the term
  -- of the log's entry at the hinted index.
  pub append-refusal :
      (s : Replica S) (resp : AppendEntriesResponse)
      → (handle_append_entries st now req s).0 ≡ ok resp
      → resp.success ≡ false
      → s.node.current_term ≤ req.term
      → let after = (handle_append_entries st now req s).1.node in
        (after.log ≡ s.node.log)
        × (after.snapshot_index ≡ s.node.snapshot_index)
        × (after.commit_index ≡ s.node.commit_index)
        × IsHint after req resp
  append-refusal s resp returned refused newer =
      let t = (append_term_update st req s).1 in
      elim (handle_stages st now req s resp returned) [
        | inl stale ↦ absurd (omega (arith, stale.0))
        | inr current ↦
            let returned' =
              ap (λ (r : Outcome AppendEntriesResponse × Replica S). r.0) (sym current.2)
              ∙ returned in
            let facts = append_current-refused t resp returned' refused in
            let fields = append_term_update_fields st now req s current.1 current.0 in
            rw (current.2, facts.1)
              (
                ap (λ (n : Node). n.log) fields,
                ap (λ (n : Node). n.snapshot_index) fields,
                ap (λ (n : Node). n.commit_index) fields,
                check_prev-IsHint req (as_follower t) resp facts.0,
              )
      ]
