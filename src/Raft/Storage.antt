-- ===== src/Raft/Storage.antt =====
-- The interface `Storage` of internal/consensus/raft/storage.go, with the behaviour that a client
-- relies on. A method returns the error, if any, and the new state of the medium.
pub mod Memory
pub mod Directory
pub mod JsonFiles
use consensus_lab.Base.{
  ℕ, ltb, if◌then◌else◌, Option, none, some, ◌≡◌, List, ◌++◌, length, take, map,
}
use consensus_lab.Raft.Types.{Error, HardState, LogEntry, Snapshot, PersistentState}

pub record Storage (S : Type 0) : Type 0 where
  pub load : S → Option Error × PersistentState
  pub save_hard_state : HardState → S → Option Error × S
  pub append_log : List LogEntry → S → Option Error × S
  pub truncate_log : ℕ → S → Option Error × S
  pub set_log : ℕ → List LogEntry → S → Option Error × S
  pub save_snapshot : Snapshot → S → Option Error × S

-- The documented effect of a call that returns no error, on the state that `Load` would restore.
pub record IsDurable {S : Type 0} (st : Storage S) (stored : S → PersistentState) : Type 0 where
  pub load_ok : (d : S) → st.load d ≡ (none, stored d)
  pub save_hard_state_ok :
      (h : HardState) (d : S)
      → (st.save_hard_state h d).0 ≡ none
      → stored (st.save_hard_state h d).1 ≡ record (stored d) { hard = h }
  pub append_log_ok :
      (es : List LogEntry) (d : S)
      → (st.append_log es d).0 ≡ none
      → stored (st.append_log es d).1 ≡ record (stored d) { log = (stored d).log ++ es }
  pub truncate_log_ok :
      (n : ℕ) (d : S)
      → (st.truncate_log n d).0 ≡ none
      → stored (st.truncate_log n d).1 ≡ record (stored d) { log = take n (stored d).log }
  pub set_log_ok :
      (base : ℕ) (es : List LogEntry) (d : S)
      → (st.set_log base es d).0 ≡ none
      → stored (st.set_log base es d).1 ≡ record (stored d) { log_base = base; log = es }
  pub save_snapshot_ok :
      (s : Snapshot) (d : S)
      → (st.save_snapshot s d).0 ≡ none
      → stored (st.save_snapshot s d).1 ≡ record (stored d) { snapshot = some s }

-- A call that returns an error has changed nothing that `Load` would restore.
pub record IsAtomic {S : Type 0} (st : Storage S) (stored : S → PersistentState) : Type 0 where
  pub save_hard_state_err :
      (h : HardState) (d : S) {e : Error}
      → (st.save_hard_state h d).0 ≡ some e
      → stored (st.save_hard_state h d).1 ≡ stored d
  pub append_log_err :
      (es : List LogEntry) (d : S) {e : Error}
      → (st.append_log es d).0 ≡ some e
      → stored (st.append_log es d).1 ≡ stored d
  pub truncate_log_err :
      (n : ℕ) (d : S) {e : Error}
      → (st.truncate_log n d).0 ≡ some e
      → stored (st.truncate_log n d).1 ≡ stored d
  pub set_log_err :
      (base : ℕ) (es : List LogEntry) (d : S) {e : Error}
      → (st.set_log base es d).0 ≡ some e
      → stored (st.set_log base es d).1 ≡ stored d
  pub save_snapshot_err :
      (s : Snapshot) (d : S) {e : Error}
      → (st.save_snapshot s d).0 ≡ some e
      → stored (st.save_snapshot s d).1 ≡ stored d

-- `cloneLogEntries`: a deep copy, which shares no memory with its source
unfoldable pub clone_log_entries : List LogEntry → List LogEntry
clone_log_entries =
    map (λ e. record { term = e.term; entry_type = e.entry_type; command = e.command })
