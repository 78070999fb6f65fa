-- ===== src/Tests/Logs.antt =====
-- Requests of a leader on concrete logs.
use consensus_lab.Base.{ℕ, ◌≤◌, ◌≡◌, ◌≢◌, refl, [], ◌∷◌, arith}
use consensus_lab.Raft.Types.{follower, AppendEntriesRequest}
use consensus_lab.Raft.Storage.Memory.{memory}
use consensus_lab.Raft.Storage.{clone_log_entries}
use consensus_lab.Raft.Node.{entry_at, last_log_index}
use consensus_lab.Raft.Action.{ok, panic}
use consensus_lab.Raft.Append.{
  accept, reject, handle_append_entries, merge_entries, append_suffix, replace_suffix,
}
use consensus_lab.Raft.Append.Merge.{Holds, AgreesUpto}
use consensus_lab.Raft.Append.Frame.{handle_append_entries-ne-panic}
use consensus_lab.Raft.Append.Stages.{advanced}
use consensus_lab.Raft.Append.Success.{append-Holds, append_kept, append-commit}
use consensus_lab.Raft.Append.Refusal.{IsHint, append-refusal}
use consensus_lab.Tests.Cluster.{behind, overwrite, entry}

overwritten : (handle_append_entries memory 0 overwrite behind).0 ≡ ok (accept 2)
unfolding handle_append_entries memory last_log_index entry_at merge_entries append_suffix
    replace_suffix
overwritten = refl

-- entry 1 is kept, entry 2 is replaced, entry 3 is new
overwritten_log :
    (handle_append_entries memory 0 overwrite behind).1.node.log
    ≡ entry 1 7 ∷ entry 2 9 ∷ entry 2 10 ∷ []
unfolding handle_append_entries memory last_log_index entry_at merge_entries append_suffix
    replace_suffix clone_log_entries
overwritten_log = refl

append-Holds_example :
    Holds behind.node (handle_append_entries memory 0 overwrite behind).1.node 2 (entry 2 9)
append-Holds_example =
    append-Holds memory 0 overwrite behind (accept 2) 0 (entry 2 9) overwritten refl refl
      (omega arith)

append_kept_example :
    entry_at (handle_append_entries memory 0 overwrite behind).1.node 1 ≡ entry_at behind.node 1
append_kept_example = append_kept memory 0 overwrite behind 1 first_within no_conflict_before
  where
    first_within : 1 ≤ last_log_index behind.node
    first_within = unfold last_log_index in omega arith

    no_conflict_before : AgreesUpto behind.node 2 overwrite.entries 1
    no_conflict_before = λ k e own before. absurd (omega arith)

append-commit_example :
    let after = (handle_append_entries memory 0 overwrite behind).1.node in
    (1 ≤ 2)
    × (after.current_term ≡ 2)
    × (after.role ≡ follower)
    × (◌≡◌ {A = ℕ} 2 2)
    × (after.commit_index ≡ advanced 0 2 (last_log_index after))
append-commit_example = append-commit memory 0 overwrite behind (accept 2) overwritten refl

handle_append_entries-ne-panic_example : (handle_append_entries memory 0 overwrite behind).0 ≢ panic
handle_append_entries-ne-panic_example = handle_append_entries-ne-panic memory 0 overwrite behind

-- the previous entry is missing
abbrev far : AppendEntriesRequest
far = record overwrite { prev_log_index = 9 }

far_refused : (handle_append_entries memory 0 far behind).0 ≡ ok (reject 2 0 3)
unfolding handle_append_entries memory last_log_index entry_at
far_refused = refl

append-refusal_example :
    let after = (handle_append_entries memory 0 far behind).1.node in
    (after.log ≡ behind.node.log)
    × (after.snapshot_index ≡ behind.node.snapshot_index)
    × (after.commit_index ≡ behind.node.commit_index)
    × IsHint after far (reject 2 0 3)
append-refusal_example =
    append-refusal memory 0 far behind (reject 2 0 3) far_refused refl (omega arith)
