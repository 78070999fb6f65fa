-- ===== src/Raft/Storage/JsonFiles/Durable.antt =====
-- What a restart reads after a call that returned no error.
use consensus_lab.Base.{ℕ, ◌≡◌, refl, ap, sym, ◌∙◌, none, some, inr, List, [], ◌∷◌, ◌++◌, arith}
use mathlib.Core.List.{append-nil}
use consensus_lab.Raft.Types.{Bytes, HardState, LogEntry}
use consensus_lab.Raft.Storage.{clone_log_entries}
use consensus_lab.Raft.Storage.Memory.Durable.{clone_log_entries_lem}
use consensus_lab.Raft.Storage.JsonFiles.{
  Slice, elements, FileJson, IsFaithful, Directory, os_call, hard_state_path, log_path, clone_slice,
  decode_log, decode_hard, write_log, rewrite_log, change_log, append_log, save_hard_state,
}
use consensus_lab.Raft.Storage.JsonFiles.Effects.{
  os_call_files, and_then_ok, write_json_atomically-Written,
}

pub elements-clone_slice : (s : Slice) → elements (clone_slice s) ≡ elements s
unfolding clone_slice
elements-clone_slice none = refl
elements-clone_slice (some []) = refl
elements-clone_slice (some (e ∷ es)) = clone_log_entries_lem (e ∷ es)

module _ (json : FileJson) where
  -- a log that is not nil is read back
  pub decode_log-marshal_log :
      (base : ℕ) (es : List LogEntry) (raw : Bytes)
      → IsFaithful json
      → json.marshal_log (record { base = base; entries = some es }) ≡ inr raw
      → decode_log json (some raw) ≡ inr (base, clone_slice (some es))
  unfolding decode_log
  decode_log-marshal_log base es [] faithful coded =
      absurd (faithful.log_not_empty (record { base = base; entries = some es }) coded)
  decode_log-marshal_log base es (b ∷ raw) faithful coded =
      ground
        (arith, faithful.log_round_trip (record { base = base; entries = some es }) b raw coded)

  decode_hard-marshal_hard :
      (h : HardState) (raw : Bytes)
      → IsFaithful json
      → json.marshal_hard h ≡ inr raw
      → decode_hard json (some raw) ≡ inr h
  unfolding decode_hard
  decode_hard-marshal_hard h [] faithful coded = absurd (faithful.hard_not_empty h coded)
  decode_hard-marshal_hard h (b ∷ raw) faithful coded = faithful.hard_round_trip h b raw coded

  -- the change of a log that was read and written back
  change_log_stored :
      (change : Slice → Slice) (d : Directory) (base : ℕ) (old : Slice) (es : List LogEntry)
      → IsFaithful json
      → decode_log json d.log_file ≡ inr (base, old)
      → change old ≡ some es
      → (change_log json change d).0 ≡ none
      → let after = (change_log json change d).1 in
        (decode_log json after.log_file ≡ inr (base, clone_slice (some es)))
        × (after.hard_file ≡ d.hard_file)
        × (after.snapshot_file ≡ d.snapshot_file)
  unfolding change_log rewrite_log
  change_log_stored change d base old es faithful read changed done =
      let x = (os_call d).1 in
      let next = λ (y : Directory). rewrite_log json change (decode_log json y.log_file) y in
      let (_, rest) = and_then_ok (os_call d) next done in
      let same = os_call_files d in
      let known : decode_log json x.log_file ≡ inr (base, old) =
        ap (decode_log json) same.1 ∙ read in
      let written_back : next x ≡ write_log json base (some es) x = rw (known, changed) refl in
      let (raw, coded, written) =
        write_json_atomically-Written log_path
          (json.marshal_log (record { base = base; entries = some es })) x
          (ap (λ r. r.0) (sym written_back ∙ sym rest) ∙ done) in
      rw (rest, written_back)
        (
          ap (decode_log json) written.1 ∙ decode_log-marshal_log base es raw faithful coded,
          written.0 ∙ same.0,
          written.2 ∙ same.2,
        )

  -- With a faithful codec, after AppendLog has returned no error the log that is read from the
  -- files is the old one with the entries behind it, and the other files are as they were.
  pub append_log_stored :
      (es : List LogEntry) (d : Directory) (base : ℕ) (old : Slice)
      → IsFaithful json
      → decode_log json d.log_file ≡ inr (base, old)
      → (append_log json es d).0 ≡ none
      → let after = (append_log json es d).1 in
        ((new : Slice) × (decode_log json after.log_file ≡ inr (base, new))
          × (elements new ≡ elements old ++ es))
        × (after.hard_file ≡ d.hard_file)
        × (after.snapshot_file ≡ d.snapshot_file)
  unfolding append_log
  append_log_stored [] d base old faithful read done =
      ((old, read, sym (append-nil (elements old))), refl, refl)
  append_log_stored (e ∷ es) d base old faithful read done =
      let all = elements old ++ clone_log_entries (e ∷ es) in
      let facts =
        change_log_stored (λ existing. some (elements existing ++ clone_log_entries (e ∷ es))) d
          base old all faithful read refl done in
      (
        (
          clone_slice (some all),
          facts.0,
          elements-clone_slice (some all)
              ∙ ap (λ l. elements old ++ l) (clone_log_entries_lem (e ∷ es)),
        ),
        facts.1,
        facts.2,
      )

  -- After SaveHardState has returned no error, the hard state that is read is the saved one, and the
  -- other files are as they were.
  pub save_hard_state_stored :
      (h : HardState) (d : Directory)
      → IsFaithful json
      → (save_hard_state json h d).0 ≡ none
      → let after = (save_hard_state json h d).1 in
        (decode_hard json after.hard_file ≡ inr h)
        × (after.log_file ≡ d.log_file)
        × (after.snapshot_file ≡ d.snapshot_file)
  unfolding save_hard_state
  save_hard_state_stored h d faithful done =
      let (raw, coded, written) =
        write_json_atomically-Written hard_state_path (json.marshal_hard h) d done in
      (
        ap (decode_hard json) written.0 ∙ decode_hard-marshal_hard h raw faithful coded,
        written.1,
        written.2,
      )
