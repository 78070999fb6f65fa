-- ===== src/Raft/Apply/Race.antt =====
-- The apply loop releases the mutex between two entries, and drains a pending snapshot only before
-- the first. What it meets if a snapshot is installed in between.
use consensus_lab.Base.{◌+◌, ◌≤◌, ◌<◌, ◌≡◌, arith}
use consensus_lab.Raft.Types.{InstallSnapshotRequest, InstallSnapshotResponse}
use consensus_lab.Raft.Storage.{Storage}
use consensus_lab.Raft.Node.Index.{entry_at-none_before, snapshot-le-last}
use consensus_lab.Raft.Action.{Replica, ok, panic}
use consensus_lab.Raft.Install.{handle_install_snapshot}
use consensus_lab.Raft.Apply.{take_entry}

take_entry-panic :
    {S : Type 0} (s : Replica S)
    → s.node.last_applied < s.node.snapshot_index
    → s.node.last_applied < s.node.commit_index
    → (take_entry s).0 ≡ panic
unfolding take_entry
take_entry-panic s behind committed =
    ground (arith, entry_at-none_before s.node (s.node.last_applied + 1), snapshot-le-last s.node)

module _ {S : Type 0} (st : Storage S) (req : InstallSnapshotRequest) (s : Replica S) where
  installed :
      (resp : InstallSnapshotResponse)
      → (handle_install_snapshot st req s).0 ≡ ok resp
      → s.node.current_term ≤ req.term
      → s.node.snapshot_index < req.last_included_index
      → let after = (handle_install_snapshot st req s).1.node in
        (after.snapshot_index ≡ req.last_included_index)
        × (req.last_included_index ≤ after.commit_index)
        × (after.last_applied ≡ s.node.last_applied)
  unfolding handle_install_snapshot
  installed resp returned newer beyond = ground arith

  -- If a snapshot beyond the applied entries, of no older term and beyond the old snapshot, is
  -- installed while the apply loop is between two entries, the loop's next step panics.
  pub install-take_entry-panic :
      (resp : InstallSnapshotResponse)
      → (handle_install_snapshot st req s).0 ≡ ok resp
      → s.node.current_term ≤ req.term
      → s.node.snapshot_index < req.last_included_index
      → s.node.last_applied < req.last_included_index
      → (take_entry (handle_install_snapshot st req s).1).0 ≡ panic
  install-take_entry-panic resp returned newer beyond behind =
      let facts = installed resp returned newer beyond in
      take_entry-panic (handle_install_snapshot st req s).1 (omega (arith, facts.0, facts.2))
        (omega (arith, facts.1, facts.2))
