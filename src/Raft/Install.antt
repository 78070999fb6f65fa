-- ===== src/Raft/Install.antt =====
-- Snapshots from a leader: `HandleInstallSnapshot` of internal/consensus/raft/rpc_handlers.go and
-- `applySnapshotLocked` of internal/consensus/raft/snapshot.go.
pub mod Installed
use consensus_lab.Base.{◌-◌, ltb, ◌==◌, ◌&&◌, if◌then◌else◌, none, some, List, [], length, drop}
use consensus_lab.Raft.Types.{
  follower, node_degraded, Snapshot, ClusterConfig, LogEntry, InstallSnapshotRequest,
  InstallSnapshotResponse,
}
use consensus_lab.Raft.Storage.{Storage}
use consensus_lab.Raft.Node.{Node, last_log_index}
use consensus_lab.Raft.Action.{
  Action, pure, fail, ◌>>=◌, ◌>>◌, get, modify, return_if, persist_hard_state, persist_snapshot,
  persist_compact_log, reset_election_timeout, notify_apply,
}

-- The entries after the snapshot are kept. A cut that is not positive leaves the log.
pub retained : Snapshot → Node → List LogEntry
retained snap n =
    if ltb snap.last_included_index (last_log_index n)
    then (let cut = snap.last_included_index - n.snapshot_index in
        if ltb 0 cut then drop cut n.log else n.log)
    else []

module _ {S : Type 0} (st : Storage S) where
  pub adopt_config : ClusterConfig → Action S (Unit {0})
  adopt_config config =
      if ltb 0 (length config.members)
      then (do modify (λ n. record n { config = config }); persist_hard_state st; pure tt)
      else pure tt

  unfoldable pub apply_snapshot : Snapshot → Action S (Unit {0})
  unfolding adopt_config retained
  apply_snapshot snap = do
    modify λ n. record n {
      log = retained snap n;
      snapshot_index = snap.last_included_index;
      snapshot_term = snap.last_included_term;
      snapshot = some snap;
      commit_index =
          if ltb n.commit_index snap.last_included_index
          then snap.last_included_index
          else n.commit_index;
    }
    adopt_config snap.config
    modify λ n. record n {
      pending_snapshot =
          if ltb n.last_applied snap.last_included_index then some snap else n.pending_snapshot;
    }
    persist_compact_log st
    pure tt

  unfoldable pub install_term_update : InstallSnapshotRequest → Action S (Unit {0})
  install_term_update req = do
    prev ← get
    if ltb prev.current_term req.term
        then (do
          modify (λ n. record n { current_term = req.term; voted_for = "" })
          saved ← persist_hard_state st
          elim saved [
            | none ↦ pure tt
            | some e ↦ (do
              modify λ n. record n { current_term = prev.current_term; voted_for = prev.voted_for }
              fail e)
          ])
        else pure tt

  unfoldable pub install : InstallSnapshotRequest → Action S (Unit {0})
  unfolding apply_snapshot
  install req = do
    let snap : Snapshot = record {
      last_included_index = req.last_included_index;
      last_included_term = req.last_included_term;
      config = req.config;
      bytes = req.bytes;
    }
    saved ← persist_snapshot st snap
    return_if saved
    apply_snapshot snap
    modify notify_apply

  unfoldable pub handle_install_snapshot : InstallSnapshotRequest → Action S InstallSnapshotResponse
  unfolding install_term_update install
  handle_install_snapshot req = do
    prev ← get
    if prev.degraded
        then fail node_degraded
        else if ltb req.term prev.current_term
        then pure (record { term = prev.current_term })
        else do
          install_term_update req
          modify (λ n. reset_election_timeout (record n { role = follower }))
          n ← get
          if ltb req.last_included_index n.snapshot_index
              then pure (record { term = n.current_term })
              else if req.last_included_index == n.snapshot_index
                  && req.last_included_term == n.snapshot_term
              then pure (record { term = n.current_term })
              else do install req; pure (record { term = n.current_term })
