-- ===== src/Raft/Storage/JsonFiles.antt =====
-- `JSONStorage` of internal/consensus/raft/storage_json.go. Its directory is that of
-- Raft.Storage.Directory, and encoding/json is the record `FileJson`. A slice is none where it is nil:
-- encoding/json writes and reads that as null.
pub mod Effects
pub mod Durable
pub mod Faults
use consensus_lab.Base.{
  ℕ, ltb, ◌==◌, Bool, true, false, not, ◌||◌, if◌then◌else◌, Option, none, some, ◌≡◌, ◌≢◌, ◌⊎◌, inl,
  inr, List, [], ◌∷◌, ◌++◌, length, take,
}
use consensus_lab.Raft.Types.{Bytes, Error, HardState, LogEntry, Snapshot, PersistentState}
use consensus_lab.Raft.Storage.{Storage, clone_log_entries}
pub use consensus_lab.Raft.Storage.Directory.{
  Directory, File, hard_state_path, log_path, snapshot_path,
}
unfoldable pub use consensus_lab.Raft.Storage.Directory.{
  os_result, and_then, write_temporary, put_in_place, write_payload, write_json_atomically, os_call,
  put_file,
}

abbrev pub Slice : Type 0
Slice = Option (List LogEntry)

abbrev pub elements : Slice → List LogEntry
elements none = []
elements (some es) = es

-- `storedLog`
pub record StoredLog : Type 0 where
  pub base : ℕ
  pub entries : Slice

pub record FileJson : Type 0 where
  pub marshal_hard : HardState → Error ⊎ Bytes
  pub unmarshal_hard : Bytes → Error ⊎ HardState
  pub marshal_snapshot : Snapshot → Error ⊎ Bytes
  pub unmarshal_snapshot : Bytes → Error ⊎ Snapshot
  pub marshal_log : StoredLog → Error ⊎ Bytes
  pub unmarshal_log : Bytes → Error ⊎ StoredLog
  -- into a slice of entries
  pub unmarshal_legacy : Bytes → Error ⊎ Slice

-- What is encoded is not empty and decodes to itself; an object does not decode to a slice.
pub record IsFaithful (json : FileJson) : Type 0 where
  pub hard_round_trip :
      (h : HardState) (b : ℕ) (raw : Bytes)
      → json.marshal_hard h ≡ inr (b ∷ raw)
      → json.unmarshal_hard (b ∷ raw) ≡ inr h
  pub log_round_trip :
      (l : StoredLog) (b : ℕ) (raw : Bytes)
      → json.marshal_log l ≡ inr (b ∷ raw)
      → json.unmarshal_log (b ∷ raw) ≡ inr l
  pub log_is_object :
      (l : StoredLog) (raw : Bytes)
      → json.marshal_log l ≡ inr raw
      → (e : Error) × (json.unmarshal_legacy raw ≡ inl e)
  pub hard_not_empty : (h : HardState) → json.marshal_hard h ≢ inr []
  pub log_not_empty : (l : StoredLog) → json.marshal_log l ≢ inr []

-- the state of a node that has saved none
abbrev pub no_hard_state : HardState
no_hard_state = record {
  current_term = 0;
  voted_for = "";
  commit_index = 0;
  config = record { members = [] };
}

unfoldable pub clone_slice : Slice → Slice
unfolding clone_log_entries
clone_slice none = none
clone_slice (some []) = none
clone_slice (some (e ∷ es)) = some (clone_log_entries (e ∷ es))

abbrev pub is_nil : Slice → Bool
is_nil none = true
is_nil (some es) = false

-- the entries that a truncation keeps: no bytes are copied, and nil stays nil
unfoldable pub kept : ℕ → Slice → Slice
kept keep_n none = none
kept keep_n (some es) = some (take (if ltb (length es) keep_n then length es else keep_n) es)

module _ (json : FileJson) where
  -- what the three loads make of the bytes of their files
  unfoldable pub decode_hard : Option Bytes → Error ⊎ HardState
  decode_hard none = inr no_hard_state
  decode_hard (some []) = inr no_hard_state
  decode_hard (some (b ∷ raw)) = json.unmarshal_hard (b ∷ raw)

  unfoldable pub decode_legacy : Bytes → Error ⊎ (ℕ × Slice)
  unfolding clone_slice
  decode_legacy raw = elim (json.unmarshal_legacy raw) [
    | inl e ↦ inl e
    | inr es ↦ inr (0, clone_slice es)
  ]

  -- the new format first, and the legacy one where that fails or says nothing
  unfoldable pub decode_log : Option Bytes → Error ⊎ (ℕ × Slice)
  unfolding decode_legacy
  decode_log none = inr (0, none)
  decode_log (some []) = inr (0, none)
  decode_log (some (b ∷ raw)) = elim (json.unmarshal_log (b ∷ raw)) [
    | inl e ↦ decode_legacy (b ∷ raw)
    | inr l ↦
        if not (is_nil l.entries) || not (l.base == 0)
        then inr (l.base, clone_slice l.entries)
        else decode_legacy (b ∷ raw)
  ]

  unfoldable pub decode_snapshot : Option Bytes → Error ⊎ Option Snapshot
  decode_snapshot none = inr none
  decode_snapshot (some []) = inr none
  decode_snapshot (some (b ∷ raw)) = elim (json.unmarshal_snapshot (b ∷ raw)) [
    | inl e ↦ inl e
    | inr snap ↦ inr (some snap)
  ]

  abbrev pub write_log : ℕ → Slice → Directory → Option Error × Directory
  write_log base entries =
      write_json_atomically (json.marshal_log (record { base = base; entries = entries }))
        (put_file log_path)

  unfoldable pub save_hard_state : HardState → Directory → Option Error × Directory
  unfolding write_json_atomically
  save_hard_state h = write_json_atomically (json.marshal_hard h) (put_file hard_state_path)

  unfoldable pub save_snapshot : Snapshot → Directory → Option Error × Directory
  unfolding write_json_atomically
  save_snapshot s = write_json_atomically (json.marshal_snapshot s) (put_file snapshot_path)

  -- a change of the log that was read
  unfoldable pub rewrite_log :
      (Slice → Slice) → Error ⊎ (ℕ × Slice) → Directory → Option Error × Directory
  unfolding write_json_atomically
  rewrite_log change (inl e) d = (some e, d)
  rewrite_log change (inr (base, existing)) d = write_log base (change existing) d

  unfoldable pub change_log : (Slice → Slice) → Directory → Option Error × Directory
  unfolding and_then os_result decode_log rewrite_log
  change_log change d = and_then (os_call d) (λ d'. rewrite_log change (decode_log d'.log_file) d')

  unfoldable pub append_log : List LogEntry → Directory → Option Error × Directory
  unfolding change_log
  append_log [] d = (none, d)
  append_log (e ∷ es) d =
      change_log (λ existing. some (elements existing ++ clone_log_entries (e ∷ es))) d

  -- `keepN` is never negative where the node calls it
  unfoldable pub truncate_log : ℕ → Directory → Option Error × Directory
  unfolding change_log kept
  truncate_log keep_n d = change_log (kept keep_n) d

  unfoldable pub set_log : ℕ → Slice → Directory → Option Error × Directory
  unfolding write_json_atomically
  set_log base entries d = write_log base entries d

  -- `os.ReadFile` and the decoding
  unfoldable pub read_file :
      {A : Type 0} → (Directory → Error ⊎ A) → Directory → (Error ⊎ A) × Directory
  unfolding os_result
  read_file decode d = elim (os_call d).0 [
    | some e ↦ (inl e, (os_call d).1)
    | none ↦ (decode (os_call d).1, (os_call d).1)
  ]

  unfoldable pub state_of : HardState → Option Snapshot → ℕ × Slice → PersistentState
  state_of hard snap (base, entries) = record {
    hard = hard;
    log_base = base;
    snapshot = snap;
    log = elements entries;
  }

  unfoldable pub load : Directory → (Error ⊎ PersistentState) × Directory
  unfolding read_file decode_hard decode_snapshot decode_log state_of
  load d =
      let h = read_file (λ d'. decode_hard d'.hard_file) d in
      elim h.0 [
        | inl e ↦ (inl e, h.1)
        | inr hard ↦
            let s = read_file (λ d'. decode_snapshot d'.snapshot_file) h.1 in
            elim s.0 [
              | inl e ↦ (inl e, s.1)
              | inr snap ↦
                  let l = read_file (λ d'. decode_log d'.log_file) s.1 in
                  elim l.0 [ inl e ↦ (inl e, l.1) | inr log ↦ (inr (state_of hard snap log), l.1) ]
            ]
      ]

-- `NewJSONStorage`: the interface of the node. It says nothing of a nil log: an empty one is passed on
-- as nil.
abbrev pub slice_of : List LogEntry → Slice
slice_of [] = none
slice_of (e ∷ es) = some (e ∷ es)

abbrev pub loaded : Error ⊎ PersistentState → Option Error × PersistentState
loaded (inl e) = (some e, record { hard = no_hard_state; log_base = 0; snapshot = none; log = [] })
loaded (inr ps) = (none, ps)

unfoldable pub json_storage : FileJson → Storage Directory
unfolding load save_hard_state append_log truncate_log set_log save_snapshot
json_storage json = record {
  load = λ d. loaded (load json d).0;
  save_hard_state = save_hard_state json;
  append_log = append_log json;
  truncate_log = truncate_log json;
  set_log = λ base es. set_log json base (slice_of es);
  save_snapshot = save_snapshot json;
}
