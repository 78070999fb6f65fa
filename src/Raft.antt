-- ===== src/Raft.antt =====
-- internal/consensus/raft: one replica, its storage, and its handlers.
pub mod Types
pub mod Storage
pub mod Node
pub mod Action
pub mod Vote
pub mod Append
pub mod Commit
pub mod Chain
pub mod Cluster
pub mod Command
pub mod Install
pub mod Replicate
pub mod Election
pub mod Apply
pub mod Restart
pub mod Steps
pub mod Report
