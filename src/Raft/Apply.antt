-- ===== src/Raft/Apply.antt =====
-- `runApplyLoop` of internal/consensus/raft/apply.go: what happens under each lock, and a run of the
-- loop that nothing interrupts.
pub mod Race
pub mod Messages
pub mod Order
use consensus_lab.Base.{
  ℕ, zero, suc, ◌+◌, ltb, leb, if◌then◌else◌, Option, none, some, List, [], ◌∷◌, ◌++◌,
}
use consensus_lab.Raft.Types.{Snapshot, LogEntry, ApplyMsg, command_msg, snapshot_msg}
use consensus_lab.Raft.Node.{Node, last_log_index}
use consensus_lab.Raft.Node.Timing.{observe_commit_to_apply}
use consensus_lab.Raft.Action.{Action, pure, ◌>>=◌, ◌>>◌, get, modify, read_entry}

abbrev pub snapshot_message : Snapshot → ApplyMsg
snapshot_message snap = snapshot_msg snap.bytes snap.last_included_index

module _ {S : Type 0} where
  -- the pending snapshot is taken out of the node
  unfoldable pub take_pending : Action S (Option Snapshot)
  take_pending = do
    n ← get
    modify (λ m. record m { pending_snapshot = none })
    pure n.pending_snapshot

  -- after the snapshot was sent
  unfoldable pub snapshot_sent : ℕ → Snapshot → Action S (Unit {0})
  unfolding observe_commit_to_apply
  snapshot_sent now snap = do
    modify λ m. record m {
      last_applied =
          if ltb m.last_applied snap.last_included_index
          then snap.last_included_index
          else m.last_applied;
      last_applied_at = now;
    }
    modify (λ m. observe_commit_to_apply m.last_applied m)

  -- The next committed entry is taken, with its index; `none` where the loop ends.
  unfoldable pub take_entry : Action S (Option (LogEntry × ℕ))
  take_entry = do
    n ← get
    if leb n.commit_index n.last_applied
        then pure none
        else if ltb (last_log_index n) (n.last_applied + 1)
        then pure none
        else do
          entry ← read_entry (n.last_applied + 1)
          modify (λ m. record m { last_applied = n.last_applied + 1 })
          pure (some (entry, n.last_applied + 1))

  -- after the entry was sent
  unfoldable pub entry_sent : ℕ → Action S (Unit {0})
  unfolding observe_commit_to_apply
  entry_sent now = do
    modify (λ m. record m { last_applied_at = now })
    modify (λ m. observe_commit_to_apply m.last_applied m)

  send_taken : Option (LogEntry × ℕ) → ℕ → Action S (List ApplyMsg) → Action S (List ApplyMsg)
  unfolding entry_sent
  send_taken none now rest = pure []
  send_taken (some (entry, index)) now rest = do
    entry_sent now
    msgs ← rest
    pure (command_msg entry.command index ∷ msgs)

  -- the inner loop over the committed entries, with fuel, and the messages that it sends
  unfoldable pub apply_entries : ℕ → ℕ → Action S (List ApplyMsg)
  unfolding take_entry send_taken
  apply_entries zero now = pure []
  apply_entries (suc fuel) now =
      let rest = apply_entries fuel now in do taken ← take_entry; send_taken taken now rest
