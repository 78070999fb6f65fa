-- ===== src/Raft/Append.antt =====
-- `HandleAppendEntries` of internal/consensus/raft/rpc_handlers.go.
pub mod Frame
pub mod Round
pub mod Merge
pub mod Stages
pub mod Success
pub mod Refusal
use consensus_lab.Base.{
  ℕ, ◌+◌, ◌-◌, ltb, leb, ◌==◌, true, false, if◌then◌else◌, Option, none, some, List, [], ◌∷◌, ◌++◌,
  take,
}
use consensus_lab.Raft.Types.{
  follower, node_degraded, LogEntry, AppendEntriesRequest, AppendEntriesResponse,
}
use consensus_lab.Raft.Storage.{Storage, clone_log_entries}
use consensus_lab.Raft.Node.{last_log_index, first_index_of_term}
use consensus_lab.Raft.Node.Timing.{record_commit_seen_range}
use consensus_lab.Raft.Action.{
  Action, pure, fail, ◌>>=◌, ◌>>◌, get, modify, return_if, read_entry, persist_hard_state,
  persist_append_log, persist_truncate_log, reset_election_timeout, notify_apply,
}

abbrev pub accept : ℕ → AppendEntriesResponse
accept term = record { term = term; success = true; conflict_term = 0; conflict_index = 0 }

abbrev pub reject : ℕ → ℕ → ℕ → AppendEntriesResponse
reject term conflict_term conflict_index = record {
  term = term;
  success = false;
  conflict_term = conflict_term;
  conflict_index = conflict_index;
}

-- The consistency check at `PrevLogIndex`: the refusal, or `none` where the handler goes on.
unfoldable pub check_prev :
    {S : Type 0} → AppendEntriesRequest → Action S (Option AppendEntriesResponse)
check_prev req = do
  n ← get
  if ltb (last_log_index n) req.prev_log_index
      then pure (some (reject n.current_term 0 (last_log_index n + 1)))
      else if ltb n.snapshot_index req.prev_log_index
      then (do
        entry ← read_entry req.prev_log_index
        if entry.term == req.prev_log_term
            then pure none
            else pure (some (reject n.current_term entry.term (first_index_of_term n entry.term))))
      else if req.prev_log_index == n.snapshot_index
      then (if req.prev_log_term == n.snapshot_term
          then pure none
          else pure (some (reject n.current_term 0 (n.snapshot_index + 1))))
      else pure none

module _ {S : Type 0} (st : Storage S) where
  unfoldable pub append_term_update : AppendEntriesRequest → Action S (Unit {0})
  append_term_update req = do
    prev ← get
    if ltb prev.current_term req.term
        then (do
          modify (λ n. record n { current_term = req.term; voted_for = "" })
          saved ← persist_hard_state st
          elim saved [
            | none ↦ pure tt
            | some e ↦ (do
              modify λ n. record n { current_term = prev.current_term; voted_for = prev.voted_for }
              fail e)
          ])
        else pure tt

  unfoldable pub append_suffix : List LogEntry → Action S (Unit {0})
  append_suffix entries = do
    saved ← persist_append_log st (clone_log_entries entries)
    return_if saved
    modify (λ n. record n { log = n.log ++ clone_log_entries entries })

  -- the log is cut before `index`, and the new entries follow
  unfoldable pub replace_suffix : ℕ → List LogEntry → Action S (Unit {0})
  unfolding append_suffix
  replace_suffix index entries = do
    saved ← persist_truncate_log st index
    return_if saved
    modify (λ n. record n { log = take (index - n.snapshot_index - 1) n.log })
    append_suffix entries

  -- The loop over the request's entries, the first of which has the given index.
  unfoldable pub merge_entries : ℕ → List LogEntry → Action S (Unit {0})
  merge_entries index [] = pure tt
  merge_entries index (entry ∷ rest) =
      let next = merge_entries (index + 1) rest in
      do
        n ← get
        if leb index n.snapshot_index
            then next
            else if ltb (last_log_index n) index
            then append_suffix (entry ∷ rest)
            else do
              own ← read_entry index
              if own.term == entry.term then next else replace_suffix index (entry ∷ rest)

  unfoldable pub commit_update : ℕ → AppendEntriesRequest → Action S (Unit {0})
  unfolding record_commit_seen_range
  commit_update now req = do
    n ← get
    if ltb n.commit_index req.leader_commit
        then (do
          let last = last_log_index n
          modify λ m. record m {
            commit_index = if ltb req.leader_commit last then req.leader_commit else last;
          }
          saved ← persist_hard_state st
          return_if saved
          modify λ m. notify_apply (record_commit_seen_range n.commit_index m.commit_index now m))
        else pure tt

  unfoldable pub after_check :
      ℕ → AppendEntriesRequest → Option AppendEntriesResponse → Action S AppendEntriesResponse
  unfolding commit_update
  after_check now req (some refusal) = pure refusal
  after_check now req none = do
    merge_entries (req.prev_log_index + 1) req.entries
    commit_update now req
    n ← get
    pure (accept n.current_term)

  -- what follows the term checks
  unfoldable pub append_current : ℕ → AppendEntriesRequest → Action S AppendEntriesResponse
  unfolding check_prev after_check
  append_current now req = do
    modify (λ m. reset_election_timeout (record m { role = follower }))
    refusal ← check_prev req
    after_check now req refusal

  -- `now` is the time at which an advance of the commit index is noted
  unfoldable pub handle_append_entries : ℕ → AppendEntriesRequest → Action S AppendEntriesResponse
  unfolding append_term_update append_current
  handle_append_entries now req = do
    n ← get
    if n.degraded
        then fail node_degraded
        else if ltb req.term n.current_term
        then pure (reject n.current_term 0 0)
        else do append_term_update req; append_current now req
