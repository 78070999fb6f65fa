-- ===== src/Raft/Steps/Restarts/Followers.antt =====
-- The handlers of a follower, AppendEntries and InstallSnapshot, keep the stored vote.
use consensus_lab.Base.{
  ℕ, ◌+◌, ◌≡◌, refl, ap, true, Option, List, [], ◌∷◌, if_cases, ltb, ◌==◌, ◌&&◌, arith, none, some,
}
use consensus_lab.Raft.Types.{
  follower, LogEntry, PersistentState, AppendEntriesRequest, AppendEntriesResponse,
  InstallSnapshotRequest, InstallSnapshotResponse,
}
use consensus_lab.Raft.Storage.{Storage, IsDurable, IsAtomic}
use consensus_lab.Raft.Action.{Replica, Action}
use consensus_lab.Raft.Append.{
  handle_append_entries, append_current, append_term_update, after_check, commit_update,
  append_suffix, replace_suffix, check_prev, merge_entries,
}
use consensus_lab.Raft.Append.Frame.{check_prev_frame, merge_entries_frame}
use consensus_lab.Raft.Append.Stages.{as_follower}
use consensus_lab.Raft.Install.{install_term_update, install, handle_install_snapshot}
use consensus_lab.Raft.Steps.Restarts.{
  Vouched, Durably, append_log-hard, truncate_log-hard, continue-Durably, Durably-same,
}
use consensus_lab.Raft.Steps.Restarts.Handlers.{install_start, installed, append_start, committed}

module _ {S : Type 0} (st : Storage S) (stored : S → PersistentState) where
  pub install_handled :
      (req : InstallSnapshotRequest) (s : Replica S)
      → IsDurable st stored
      → IsAtomic st stored
      → Vouched stored s
      → Durably stored s (handle_install_snapshot st req s).1
  unfolding handle_install_snapshot
  install_handled req s durable atomic base =
      let Kept =
        λ (r : Replica S) (m : Action S InstallSnapshotResponse). Durably stored r (m r).1 in
      let t = (install_term_update st req s).1 in
      let u : Replica S = record t {
        node = record t.node { role = follower; election_timeout_reset = true };
      } in
      let start = install_start st stored s req durable atomic base in
      let same =
        λ (r : Replica S) (b : Vouched stored r). Durably-same stored r r b refl refl refl in
      if_cases (Kept s) s.node.degraded (λ _. same s base)
        λ _.
          if_cases (Kept s) (ltb req.term s.node.current_term) (λ _. same s base)
            λ _. continue-Durably stored (install_term_update st req s).0 _ s t start λ _.
              if_cases (Kept u) (ltb req.last_included_index u.node.snapshot_index)
                (λ _. same u start.0)
                λ _.
                  if_cases (Kept u)
                    (req.last_included_index == u.node.snapshot_index
                      && req.last_included_term == u.node.snapshot_term)
                    (λ _. same u start.0)
                    λ _.
                      continue-Durably stored (install st req u).0 _ u (install st req u).1
                        (installed st stored u req durable atomic start.0)
                        (λ _.
                          same (install st req u).1
                            (installed st stored u req durable atomic start.0).0)

  suffix-hard :
      (entries : List LogEntry) (s : Replica S)
      → IsDurable st stored
      → IsAtomic st stored
      → (stored (append_suffix st entries s).1.disk).hard ≡ (stored s.disk).hard
  unfolding append_suffix
  suffix-hard entries s durable atomic = grind (arith, append_log-hard)

  replaced-hard :
      (index : ℕ) (entries : List LogEntry) (s : Replica S)
      → IsDurable st stored
      → IsAtomic st stored
      → (stored (replace_suffix st index entries s).1.disk).hard ≡ (stored s.disk).hard
  unfolding replace_suffix
  replaced-hard index entries s durable atomic = grind (arith, append_log-hard, truncate_log-hard)

  merge_entries-hard :
      (index : ℕ) (entries : List LogEntry) (s : Replica S)
      → IsDurable st stored
      → IsAtomic st stored
      → (stored (merge_entries st index entries s).1.disk).hard ≡ (stored s.disk).hard
  unfolding merge_entries
  merge_entries-hard index [] s durable atomic = refl
  merge_entries-hard index (e ∷ rest) s durable atomic = ground (
    arith,
    merge_entries-hard (index + 1) rest s durable atomic,
    suffix-hard (e ∷ rest) s durable atomic,
    replaced-hard index (e ∷ rest) s durable atomic,
  )

  after_check_kept :
      (now : ℕ) (req : AppendEntriesRequest) (refusal : Option AppendEntriesResponse)
      (s : Replica S)
      → IsDurable st stored
      → IsAtomic st stored
      → Vouched stored s
      → Durably stored s (after_check st now req refusal s).1
  unfolding after_check
  after_check_kept now req (some r) s durable atomic base =
      Durably-same stored s s base refl refl refl
  after_check_kept now req none s durable atomic base =
      let first = req.prev_log_index + 1 in
      let t = (merge_entries st first req.entries s).1 in
      let frame = merge_entries_frame st first req.entries s in
      let merged =
        Durably-same stored s t base (merge_entries-hard first req.entries s durable atomic)
          (ap (λ n. n.current_term) frame) (ap (λ n. n.voted_for) frame) in
      let u = (commit_update st now req t).1 in
      let saved = committed st stored t now req durable atomic merged.0 in
      continue-Durably stored (merge_entries st first req.entries s).0 _ s t merged λ _.
        continue-Durably stored (commit_update st now req t).0 _ t u saved
          (λ _. Durably-same stored u u saved.0 refl refl refl)

  append_body :
      (now : ℕ) (req : AppendEntriesRequest) (s : Replica S)
      → IsDurable st stored
      → IsAtomic st stored
      → Vouched stored s
      → Durably stored s (append_current st now req s).1
  unfolding append_current
  append_body now req s durable atomic base =
      let u = as_follower s in
      let t = (check_prev req u).1 in
      let checked : Durably stored s t =
        rw (check_prev_frame req u) (Durably-same stored s u base refl refl refl) in
      continue-Durably stored (check_prev req u).0 _ s t checked
        (λ refusal. after_check_kept now req refusal t durable atomic checked.0)

  pub append_handled :
      (now : ℕ) (req : AppendEntriesRequest) (s : Replica S)
      → IsDurable st stored
      → IsAtomic st stored
      → Vouched stored s
      → Durably stored s (handle_append_entries st now req s).1
  unfolding handle_append_entries
  append_handled now req s durable atomic base =
      let Kept = λ (m : Action S AppendEntriesResponse). Durably stored s (m s).1 in
      let same = Durably-same stored s s base refl refl refl in
      let t = (append_term_update st req s).1 in
      let start = append_start st stored s req durable atomic base in
      if_cases Kept s.node.degraded (λ _. same)
        λ _.
          if_cases Kept (ltb req.term s.node.current_term) (λ _. same)
            λ _.
              continue-Durably stored (append_term_update st req s).0 _ s t start
                (λ _. append_body now req t durable atomic start.0)
