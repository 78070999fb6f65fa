-- ===== src/Raft/Command/Unsynced.antt =====
-- A refused command on the file storage.
use consensus_lab.Base.{ℕ, ◌≡◌, false, Option, some, inr, List, [], ◌∷◌, ◌++◌, arith}
use consensus_lab.Raft.Types.{Bytes, Error, leader}
use consensus_lab.Raft.Storage.JsonFiles.{
  Slice, elements, FileJson, IsFaithful, Directory, decode_log, append_log, json_storage,
}
use consensus_lab.Raft.Storage.JsonFiles.Faults.{unsynced, append_log_unsynced}
use consensus_lab.Raft.Node.{Node}
use consensus_lab.Raft.Action.{Replica, ok}
use consensus_lab.Raft.Command.{start_command, command_entry}
use consensus_lab.Raft.Command.Accepted.{take-append}

module _ (json : FileJson) where
  start_command_refused_by :
      (now : ℕ) (cmd : Bytes) (n : Node) (d : Directory) (e : Error)
      → n.role ≡ leader
      → n.degraded ≡ false
      → (append_log json (command_entry n cmd ∷ []) d).0 ≡ some e
      → let r = start_command (json_storage json) now cmd (record { node = n; disk = d }) in
        (r.0 ≡ ok (0, false))
        × (r.1.node.log ≡ n.log)
        × (r.1.disk ≡ (append_log json (command_entry n cmd ∷ []) d).1)
  unfolding start_command json_storage
  start_command_refused_by now cmd n d e role sound fails =
      ground (arith, take-append n.log (command_entry n cmd ∷ []))

  -- With a faithful codec, a leader that is not degraded refuses a command, and takes its entry out
  -- of its own log again, when the sync of the directory fails. The entry is in the stored log all
  -- the same, which a restart reads.
  pub start_command-unsynced :
      (now : ℕ) (cmd : Bytes) (n : Node) (d : Directory) (e : Error) (rest : List (Option Error))
      (base : ℕ) (old : Slice) (raw : Bytes)
      → IsFaithful json
      → n.role ≡ leader
      → n.degraded ≡ false
      → decode_log json d.log_file ≡ inr (base, old)
      → json.marshal_log
          (record { base = base; entries = some (elements old ++ command_entry n cmd ∷ []) })
        ≡ inr raw
      → let s : Replica Directory = record { node = n; disk = unsynced e rest d } in
        let r = start_command (json_storage json) now cmd s in
        (r.0 ≡ ok (0, false))
        × (r.1.node.log ≡ n.log)
        × ((new : Slice) × (decode_log json r.1.disk.log_file ≡ inr (base, new))
            × (elements new ≡ elements old ++ command_entry n cmd ∷ []))
  start_command-unsynced now cmd n d e rest base old raw faithful role sound read coded =
      let stored =
        append_log_unsynced json (command_entry n cmd) [] d e rest base old raw faithful read
          coded in
      let refused = start_command_refused_by now cmd n (unsynced e rest d) e role sound stored.0 in
      (refused.0, refused.1, rw (refused.2) (stored.1))
