-- ===== src/Tests/Storages.antt =====
-- The in-memory storage on a sequence of calls.
use consensus_lab.Base.{◌≡◌, refl, none, List, [], ◌∷◌}
use consensus_lab.Raft.Storage.Memory.{new_in_memory_storage, load_state, memory_with}
use consensus_lab.Raft.Storage.Memory.Calls.{
  Call, hard_state_saved, log_appended, log_truncated, call_all, specified_all, call_all_specified,
}
use consensus_lab.Tests.Cluster.{entry, trio}

-- the log is truncated and grows again, over the entries that it has had
abbrev storage_calls : List Call
storage_calls =
    hard_state_saved (record { current_term = 2; voted_for = "a"; commit_index = 0; config = trio })
    ∷ log_appended (entry 1 7 ∷ entry 1 8 ∷ entry 1 9 ∷ [])
    ∷ log_truncated 1
    ∷ log_truncated 2
    ∷ log_appended (entry 2 10 ∷ [])
    ∷ []

call_all_specified_example :
    let r = call_all (memory_with []) storage_calls new_in_memory_storage in
    (r.0 ≡ none)
    × ((memory_with []).load r.1
        ≡ (none, specified_all storage_calls (load_state new_in_memory_storage)))
call_all_specified_example = call_all_specified [] storage_calls

stored_entries :
    (specified_all storage_calls (load_state new_in_memory_storage)).log
    ≡ entry 1 7 ∷ entry 2 10 ∷ []
unfolding specified_all load_state
stored_entries = refl
