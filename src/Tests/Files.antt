-- ===== src/Tests/Files.antt =====
-- The file storage on a codec that knows short logs.
use consensus_lab.Base.{ℕ, zero, suc, ◌≡◌, ◌≢◌, ◌⊎◌, inl, inr, refl, ap, none, some, [], ◌∷◌, false}
use consensus_lab.Raft.Types.{leader, Bytes, Error, storage_error}
use consensus_lab.Raft.Action.{Replica, ok}
use consensus_lab.Raft.Command.{start_command, command_entry}
use consensus_lab.Raft.Command.Unsynced.{start_command-unsynced}
use consensus_lab.Raft.Node.{Node}
use consensus_lab.Raft.Storage.{clone_log_entries}
use consensus_lab.Raft.Storage.JsonFiles.{
  Slice, elements, StoredLog, FileJson, IsFaithful, Directory, decode_log, append_log, json_storage,
  os_result, and_then, write_temporary, put_in_place, write_payload, write_json_atomically,
  change_log, rewrite_log,
}
use consensus_lab.Raft.Storage.JsonFiles.Durable.{append_log_stored}
use consensus_lab.Raft.Storage.JsonFiles.Faults.{unsynced}
use consensus_lab.Tests.Cluster.{node_b, entry}

abbrev unknown : Error
unknown = storage_error "unknown"

-- a nil log, and a log of one entry
abbrev encode_entries : ℕ → Slice → Error ⊎ Bytes
encode_entries base none = inr (1 ∷ base ∷ [])
encode_entries base (some (e ∷ [])) = inr (2 ∷ base ∷ e.term ∷ e.entry_type ∷ e.command)
encode_entries base _ = inl unknown

abbrev encode_log : StoredLog → Error ⊎ Bytes
encode_log l = encode_entries l.base l.entries

abbrev decode_bytes : Bytes → Error ⊎ StoredLog
decode_bytes (suc zero ∷ base ∷ []) = inr (record { base = base; entries = none })
decode_bytes (suc (suc zero) ∷ base ∷ term ∷ entry_type ∷ command) = inr (record {
  base = base;
  entries = some (record { term = term; entry_type = entry_type; command = command } ∷ []);
})
decode_bytes _ = inl unknown

abbrev files : FileJson
files = record {
  marshal_hard = λ h. inl unknown;
  unmarshal_hard = λ raw. inl unknown;
  marshal_snapshot = λ s. inl unknown;
  unmarshal_snapshot = λ raw. inl unknown;
  marshal_log = encode_log;
  unmarshal_log = decode_bytes;
  unmarshal_legacy = λ raw. inl unknown;
}

entries_round_trip :
    (base : ℕ) (s : Slice) (b : ℕ) (raw : Bytes)
    → encode_entries base s ≡ inr (b ∷ raw)
    → decode_bytes (b ∷ raw) ≡ inr (record { base = base; entries = s })
entries_round_trip base none b raw coded =
    let same : b ∷ raw ≡ 1 ∷ base ∷ [] = cc in ap decode_bytes same
entries_round_trip base (some []) b raw coded = cc
entries_round_trip base (some (e ∷ [])) b raw coded =
    let same : b ∷ raw ≡ 2 ∷ base ∷ e.term ∷ e.entry_type ∷ e.command = cc in ap decode_bytes same
entries_round_trip base (some (e ∷ x ∷ es)) b raw coded = cc

entries_not_empty : (base : ℕ) (s : Slice) → encode_entries base s ≢ inr []
entries_not_empty base none = λ e. cc e
entries_not_empty base (some []) = λ e. cc e
entries_not_empty base (some (e ∷ [])) = λ h. cc h
entries_not_empty base (some (e ∷ x ∷ es)) = λ h. cc h

files-IsFaithful : IsFaithful files
files-IsFaithful = record {
  hard_round_trip = λ h b raw coded. cc coded;
  log_round_trip = λ l b raw coded. entries_round_trip l.base l.entries b raw coded;
  log_is_object = λ l raw coded. (unknown, refl);
  hard_not_empty = λ h e. cc e;
  log_not_empty = λ l. entries_not_empty l.base l.entries;
}

-- the directory of a new node
abbrev empty : Directory
empty = record { hard_file = none; log_file = none; snapshot_file = none; faults = [] }

appended : (append_log files (entry 2 9 ∷ []) empty).0 ≡ none
unfolding append_log change_log rewrite_log os_result and_then write_temporary put_in_place
    write_payload write_json_atomically decode_log clone_log_entries
appended = refl

nothing_stored : decode_log files none ≡ inr (0, none)
unfolding decode_log
nothing_stored = refl

append_log_stored_example :
    let after = (append_log files (entry 2 9 ∷ []) empty).1 in
    ((new : Slice) × (decode_log files after.log_file ≡ inr (0, new))
      × (elements new ≡ entry 2 9 ∷ []))
    × (after.hard_file ≡ none)
    × (after.snapshot_file ≡ none)
append_log_stored_example =
    append_log_stored files (entry 2 9 ∷ []) empty 0 none files-IsFaithful nothing_stored appended

abbrev leading : Node
leading = node_b leader 2 "b" [] 0 0

start_command-unsynced_example :
    let s : Replica Directory = record { node = leading; disk = unsynced unknown [] empty } in
    let r = start_command (json_storage files) 5 (9 ∷ []) s in
    (r.0 ≡ ok (0, false))
    × (r.1.node.log ≡ [])
    × ((new : Slice) × (decode_log files r.1.disk.log_file ≡ inr (0, new))
        × (elements new ≡ command_entry leading (9 ∷ []) ∷ []))
start_command-unsynced_example =
    start_command-unsynced files 5 (9 ∷ []) leading empty unknown [] 0 none (2 ∷ 0 ∷ 2 ∷ 0 ∷ 9 ∷ [])
      files-IsFaithful refl refl nothing_stored refl
