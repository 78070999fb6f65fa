-- ===== src/Raft/Command.antt =====
-- `StartCommand`, `IsLeader` and `Snapshot` of internal/consensus/raft/consensus.go.
pub mod Accepted
pub mod Unsynced
pub mod Compaction
use consensus_lab.Base.{
  ℕ, ◌+◌, ◌-◌, leb, ltb, Bool, true, false, ◌||◌, not, if◌then◌else◌, Option, none, some, [], ◌∷◌,
  ◌++◌, length, take, drop,
}
use consensus_lab.Raft.Types.{
  Bytes, Role, leader, LogEntry, Snapshot, entry_command, beyond_last_index,
}
use consensus_lab.Raft.Storage.{Storage}
use consensus_lab.Raft.Node.{Node, update, last_log_index}
use consensus_lab.Raft.Node.Timing.{record_start_seen}
use consensus_lab.Raft.Action.{
  Action, pure, fail, ◌>>=◌, ◌>>◌, get, modify, read_entry, return_if, persist_append_log,
  persist_snapshot, persist_compact_log, notify_apply, notify_replicate,
}
use consensus_lab.Raft.Commit.{advance_commit_index}

abbrev pub is_leader_role : Role → Bool
is_leader_role leader = true
is_leader_role _ = false

unfoldable pub is_leader : Node → Bool
is_leader n = is_leader_role n.role

abbrev pub command_entry : Node → Bytes → LogEntry
command_entry n cmd = record { term = n.current_term; entry_type = entry_command; command = cmd }

module _ {S : Type 0} (st : Storage S) where
  -- what follows the saved append
  unfoldable pub command_appended : ℕ → Action S (ℕ × Bool)
  unfolding record_start_seen
  command_appended now = do
    n ← get
    let index = last_log_index n
    modify (record_start_seen index now)
    modify λ m. record m {
      match_index = update m.match_index m.id index;
      next_index = update m.next_index m.id (index + 1);
    }
    advanced ← advance_commit_index st now
    (if advanced then modify notify_apply else pure tt)
    modify notify_replicate
    pure (index, true)

  unfoldable pub start_command : ℕ → Bytes → Action S (ℕ × Bool)
  unfolding command_appended
  start_command now cmd = do
    n ← get
    if n.degraded || not (is_leader_role n.role) then pure (0, false) else do
      modify (λ m. record m { log = m.log ++ command_entry n cmd ∷ [] })
      saved ← persist_append_log st (command_entry n cmd ∷ [])
      elim saved [
        | none ↦ command_appended now
        | some e ↦ (do modify (λ m. record m { log = take (length n.log) m.log }); pure (0, false))
      ]

  compact : Snapshot → Action S (Unit {0})
  compact snap = do
    modify λ m. record m {
      log = drop (snap.last_included_index - m.snapshot_index) m.log;
      snapshot_index = snap.last_included_index;
      snapshot_term = snap.last_included_term;
      snapshot = some snap;
    }
    -- a failure is not fatal: a restart trims the stale entries
    persist_compact_log st
    pure tt

  -- `Snapshot`: compacts the log up to `index`
  unfoldable pub take_snapshot : ℕ → Bytes → Action S (Unit {0})
  unfolding compact
  take_snapshot index bytes = do
    n ← get
    if leb index n.snapshot_index
        then pure tt
        else if ltb (last_log_index n) index
        then fail (beyond_last_index index (last_log_index n))
        else do
          entry ← read_entry index
          let snap : Snapshot = record {
            last_included_index = index;
            last_included_term = entry.term;
            config = n.config;
            bytes = bytes;
          }
          saved ← persist_snapshot st snap
          return_if saved
          compact snap
