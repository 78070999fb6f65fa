-- ===== src/Raft/Append/Frame.antt =====
-- What the parts of the handler leave alone, and that none of them panics.
use consensus_lab.Base.{
  ℕ, ◌+◌, ◌≡◌, ◌≢◌, refl, true, none, some, Option, List, [], ◌∷◌, arith, leb, ltb, ◌==◌,
  if◌then◌else◌, if_cases,
}
use consensus_lab.Raft.Types.{follower, LogEntry, AppendEntriesRequest, AppendEntriesResponse}
use consensus_lab.Raft.Storage.{Storage}
use consensus_lab.Raft.Node.{Node, last_log_index, entry_at}
use consensus_lab.Raft.Node.Index.{entry_at-ne-none}
use consensus_lab.Raft.Action.{Action, Replica, panic, at_entry, ◌>>=◌, continue-ne-panic}
use consensus_lab.Raft.Append.{
  append_term_update, append_current, after_check, check_prev, merge_entries, append_suffix,
  replace_suffix, handle_append_entries,
}

module _ {S : Type 0} where
  -- The consistency check never panics and changes nothing.
  pub check_prev-ne-panic :
      (req : AppendEntriesRequest) (s : Replica S) → (check_prev req s).0 ≢ panic
  unfolding check_prev
  check_prev-ne-panic req s = ground (arith, entry_at-ne-none s.node req.prev_log_index)

  pub check_prev_frame : (req : AppendEntriesRequest) (s : Replica S) → (check_prev req s).1 ≡ s
  unfolding check_prev
  check_prev_frame req s = ground arith

abbrev pub SameButLog : Node → Node → Type 0
SameButLog a b = b ≡ record a { log = b.log }

module _ {S : Type 0} (st : Storage S) where
  append_suffix_frame :
      (entries : List LogEntry) (s : Replica S)
      → SameButLog s.node (append_suffix st entries s).1.node
  unfolding append_suffix
  append_suffix_frame entries s = ground arith

  replace_suffix_frame :
      (index : ℕ) (entries : List LogEntry) (s : Replica S)
      → SameButLog s.node (replace_suffix st index entries s).1.node
  unfolding replace_suffix
  replace_suffix_frame index entries s = ground arith

  at_entry_frame :
      (o : Option LogEntry) (f : LogEntry → Action S (Unit {0})) (s : Replica S)
      → ((e : LogEntry) → SameButLog s.node (f e s).1.node)
      → SameButLog s.node ((at_entry o >>= f) s).1.node
  at_entry_frame none f s h = refl
  at_entry_frame (some e) f s h = h e

  -- The loop changes only the log and the storage.
  pub merge_entries_frame :
      (index : ℕ) (entries : List LogEntry) (s : Replica S)
      → SameButLog s.node (merge_entries st index entries s).1.node
  unfolding merge_entries
  merge_entries_frame index [] s = refl
  merge_entries_frame index (e ∷ rest) s =
      let Kept = λ (m : Action S (Unit {0})). SameButLog s.node (m s).1.node in
      if_cases Kept (leb index s.node.snapshot_index) (λ _. merge_entries_frame (index + 1) rest s)
        λ _.
          if_cases Kept (ltb (last_log_index s.node) index) (λ _. append_suffix_frame (e ∷ rest) s)
            λ _.
              at_entry_frame (entry_at s.node index)
                (λ own.
                  if own.term == e.term
                  then merge_entries st (index + 1) rest
                  else replace_suffix st index (e ∷ rest))
                s
                λ own.
                  if_cases Kept (own.term == e.term) (λ _. merge_entries_frame (index + 1) rest s)
                    λ _. replace_suffix_frame index (e ∷ rest) s

  pub merge_entries-ne-panic :
      (index : ℕ) (entries : List LogEntry) (s : Replica S)
      → (merge_entries st index entries s).0 ≢ panic
  unfolding merge_entries append_suffix replace_suffix
  merge_entries-ne-panic index [] s = λ h. cc
  merge_entries-ne-panic index (e ∷ rest) s =
      ground (arith, merge_entries-ne-panic (index + 1) rest s, entry_at-ne-none s.node index)

  after_check-ne-panic :
      (now : ℕ) (req : AppendEntriesRequest) (refusal : Option AppendEntriesResponse)
      (s : Replica S)
      → (after_check st now req refusal s).0 ≢ panic
  unfolding after_check
  after_check-ne-panic now req (some r) s = λ h. cc
  after_check-ne-panic now req none s =
      ground (arith, merge_entries-ne-panic (req.prev_log_index + 1) req.entries s)

  append_current-ne-panic :
      (now : ℕ) (req : AppendEntriesRequest) (s : Replica S)
      → (append_current st now req s).0 ≢ panic
  unfolding append_current
  append_current-ne-panic now req s =
      let t : Replica S = record s {
        node = record s.node { role = follower; election_timeout_reset = true };
      } in
      continue-ne-panic (check_prev req t).0 (after_check st now req) (check_prev req t).1
        (check_prev-ne-panic req t)
        (λ refusal. after_check-ne-panic now req refusal (check_prev req t).1)

  append_term_update-ne-panic :
      (req : AppendEntriesRequest) (s : Replica S) → (append_term_update st req s).0 ≢ panic
  unfolding append_term_update
  append_term_update-ne-panic req s = ground arith

  -- No request makes HandleAppendEntries panic, whatever the state of the node and of its storage.
  pub handle_append_entries-ne-panic :
      (now : ℕ) (req : AppendEntriesRequest) (s : Replica S)
      → (handle_append_entries st now req s).0 ≢ panic
  unfolding handle_append_entries
  handle_append_entries-ne-panic now req s =
      let Safe = λ (m : Action S AppendEntriesResponse). (m s).0 ≢ panic in
      if_cases Safe s.node.degraded (λ _ h. cc)
        λ _.
          if_cases Safe (ltb req.term s.node.current_term) (λ _ h. cc)
            λ _.
              continue-ne-panic (append_term_update st req s).0 (λ _. append_current st now req)
                (append_term_update st req s).1 (append_term_update-ne-panic req s)
                (λ _. append_current-ne-panic now req (append_term_update st req s).1)
