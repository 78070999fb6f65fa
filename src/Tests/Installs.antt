-- ===== src/Tests/Installs.antt =====
-- A snapshot that a concrete replica gets from a leader.
use consensus_lab.Base.{◌≡◌, refl, max, some, [], ◌∷◌, arith}
use consensus_lab.Raft.Types.{follower, InstallSnapshotRequest}
use consensus_lab.Raft.Storage.Memory.{memory, load_state}
use consensus_lab.Raft.Storage.Memory.Durable.{memory-IsDurable, memory-IsAtomic}
use consensus_lab.Raft.Node.{last_log_index, entry_at}
use consensus_lab.Raft.Action.{ok}
use consensus_lab.Raft.Install.{handle_install_snapshot}
use consensus_lab.Raft.Install.Installed.{
  snapshot_of, install_snapshot_kept, install_snapshot_stored,
}
use consensus_lab.Tests.Cluster.{behind, trio}

-- a leader of term 2 replaces the first of two entries
abbrev snapshot_1 : InstallSnapshotRequest
snapshot_1 = record {
  term = 2;
  leader_id = "a";
  last_included_index = 1;
  last_included_term = 1;
  config = trio;
  bytes = 5 ∷ [];
}

installed : (handle_install_snapshot memory snapshot_1 behind).0 ≡ ok (record { term = 2 })
unfolding handle_install_snapshot memory
installed = refl

install_snapshot_kept_example :
    let after = (handle_install_snapshot memory snapshot_1 behind).1.node in
    (after.role ≡ follower)
    × (after.current_term ≡ 2)
    × (after.snapshot ≡ some (snapshot_of snapshot_1))
    × (after.snapshot_index ≡ 1)
    × (after.commit_index ≡ max 0 1)
    × (last_log_index after ≡ max 1 (last_log_index behind.node))
    × (entry_at after 2 ≡ entry_at behind.node 2)
install_snapshot_kept_example =
    install_snapshot_kept memory snapshot_1 behind (record { term = 2 }) 2 installed (omega arith)
      (omega arith) (omega arith)

install_snapshot_stored_example :
    (load_state (handle_install_snapshot memory snapshot_1 behind).1.disk).snapshot
    ≡ some (snapshot_of snapshot_1)
install_snapshot_stored_example =
    install_snapshot_stored memory load_state snapshot_1 behind (record { term = 2 })
      memory-IsDurable memory-IsAtomic installed (omega arith) (omega arith)
