-- ===== src/Raft/Storage/JsonFiles/Faults.antt =====
-- Two ways in which the files and the node's memory part.
use consensus_lab.Base.{
  ℕ, ◌≡◌, refl, ap, Option, none, some, inl, inr, Sum-cases, List, [], ◌∷◌, ◌++◌, arith,
}
use consensus_lab.Raft.Types.{Bytes, Error, LogEntry}
use consensus_lab.Raft.Storage.{clone_log_entries}
use consensus_lab.Raft.Storage.Memory.Durable.{clone_log_entries_lem}
use consensus_lab.Raft.Storage.JsonFiles.{
  Slice, elements, FileJson, IsFaithful, Directory, os_result, and_then, write_temporary,
  put_in_place, write_payload, write_json_atomically, clone_slice, kept, decode_log, decode_hard,
  decode_snapshot, decode_legacy, rewrite_log, change_log, append_log, truncate_log, load,
  read_file,
}
use consensus_lab.Raft.Storage.JsonFiles.Durable.{decode_log-marshal_log, elements-clone_slice}

-- the calls succeed up to the rename and the opening of the directory, whose sync then fails
abbrev pub unsynced : Error → List (Option Error) → Directory → Directory
unsynced e rest d = record d {
  faults = none ∷ none ∷ none ∷ none ∷ none ∷ none ∷ none ∷ none ∷ some e ∷ rest;
}

module _ (json : FileJson) where
  change_log-unsynced :
      (change : Slice → Slice) (d : Directory) (e : Error) (rest : List (Option Error)) (base : ℕ)
      (old : Slice) (es : List LogEntry) (raw : Bytes)
      → decode_log json d.log_file ≡ inr (base, old)
      → change old ≡ some es
      → json.marshal_log (record { base = base; entries = some es }) ≡ inr raw
      → change_log json change (unsynced e rest d)
        ≡ (some e, record d { log_file = some raw; faults = rest })
  unfolding change_log rewrite_log os_result and_then write_temporary put_in_place write_payload
      write_json_atomically
  change_log-unsynced change d e rest base old es raw read changed coded =
      ground (arith, ap (λ c. json.marshal_log (record { base = base; entries = c })) changed)

  -- If the last call of AppendLog, the sync of the directory, fails, AppendLog returns the error, and
  -- yet the entries are in the log that is read from the files.
  pub append_log_unsynced :
      (x : LogEntry) (xs : List LogEntry) (d : Directory) (e : Error) (rest : List (Option Error))
      (base : ℕ) (old : Slice) (raw : Bytes)
      → IsFaithful json
      → decode_log json d.log_file ≡ inr (base, old)
      → json.marshal_log (record { base = base; entries = some (elements old ++ x ∷ xs) }) ≡ inr raw
      → let r = append_log json (x ∷ xs) (unsynced e rest d) in
        (r.0 ≡ some e)
        × ((new : Slice) × (decode_log json r.1.log_file ≡ inr (base, new))
            × (elements new ≡ elements old ++ x ∷ xs))
  unfolding append_log
  append_log_unsynced x xs d e rest base old raw faithful read coded =
      let all = elements old ++ x ∷ xs in
      let copied = ap (λ l. elements old ++ l) (clone_log_entries_lem (x ∷ xs)) in
      let whole =
        change_log-unsynced (λ existing. some (elements existing ++ clone_log_entries (x ∷ xs))) d e
          rest base old all raw read (ap (λ l. some l) copied) coded in
      rw whole (
        refl,
        (
          clone_slice (some all),
          decode_log-marshal_log json base all raw faithful coded,
          elements-clone_slice (some all),
        ),
      )

  truncated :
      (keep_n : ℕ) (d : Directory) (raw : Bytes)
      → d.log_file ≡ none
      → d.faults ≡ []
      → json.marshal_log (record { base = 0; entries = none }) ≡ inr raw
      → truncate_log json keep_n d ≡ (none, record d { log_file = some raw })
  unfolding truncate_log change_log rewrite_log os_result and_then write_temporary put_in_place
      write_payload write_json_atomically decode_log kept
  truncated keep_n d raw missing healthy coded = ground arith

  null_log :
      (b : ℕ) (raw : Bytes)
      → IsFaithful json
      → json.marshal_log (record { base = 0; entries = none }) ≡ inr (b ∷ raw)
      → (e : Error) × (decode_log json (some (b ∷ raw)) ≡ inl e)
  unfolding decode_log decode_legacy
  null_log b raw faithful coded =
      let (e, object) =
        faithful.log_is_object (record { base = 0; entries = none }) (b ∷ raw) coded in
      let back = faithful.log_round_trip (record { base = 0; entries = none }) b raw coded in
      (e, ground arith)

  load_broken :
      (d : Directory) (e : Error)
      → d.faults ≡ []
      → decode_log json d.log_file ≡ inl e
      → (e' : Error) × ((load json d).0 ≡ inl e')
  unfolding load read_file os_result
  load_broken d e healthy broken = elim (Sum-cases (decode_hard json d.hard_file)) [
    | inl (e', bad) ↦ (e', ground arith)
    | inr (hard, fine) ↦ elim (Sum-cases (decode_snapshot json d.snapshot_file)) [
      | inl (e', bad) ↦ (e', ground arith)
      | inr (snap, fine') ↦ (e, ground arith)
    ]
  ]

  -- Where there is no log file yet, a truncation writes null for the entries, without an error. Then
  -- the files can no longer be loaded: the null is taken for the legacy format, which an object is
  -- not.
  pub truncate_log-load :
      (keep_n : ℕ) (d : Directory) (raw : Bytes)
      → IsFaithful json
      → d.log_file ≡ none
      → d.faults ≡ []
      → json.marshal_log (record { base = 0; entries = none }) ≡ inr raw
      → let r = truncate_log json keep_n d in
        (r.0 ≡ none) × ((e : Error) × ((load json r.1).0 ≡ inl e))
  truncate_log-load keep_n d [] faithful missing healthy coded =
      absurd (faithful.log_not_empty (record { base = 0; entries = none }) coded)
  truncate_log-load keep_n d (b ∷ raw) faithful missing healthy coded =
      let whole = truncated keep_n d (b ∷ raw) missing healthy coded in
      let (e, broken) = null_log b raw faithful coded in
      rw whole (refl, load_broken (record d { log_file = some (b ∷ raw) }) e healthy broken)
