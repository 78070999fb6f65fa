-- ===== src/Raft/Restart.antt =====
-- `NewNode` of internal/consensus/raft/node.go: a node restored from its storage.
pub mod Vote
use consensus_lab.Base.{
  ℕ, ◌-◌, ltb, String, str_eq, Bool, false, if◌then◌else◌, Option, none, some, List, [], ◌∷◌,
  length, drop,
}
use consensus_lab.Raft.Types.{Error, follower, ClusterConfig, LogEntry, Snapshot, PersistentState}
use consensus_lab.Raft.Storage.{Storage, clone_log_entries}
use consensus_lab.Raft.Node.{Node, last_log_index}
use consensus_lab.Raft.Action.{Outcome, ok, err}

-- the keys of the map without the node's own
unfoldable pub normalize_peers : String → List String → List String
normalize_peers self [] = []
normalize_peers self (peer ∷ peers) =
    let rest = normalize_peers self peers in if str_eq peer self then rest else peer ∷ rest

abbrev fresh : String → List String → ClusterConfig → Node
fresh id peers config = record {
  id = id;
  peers = peers;
  role = follower;
  current_term = 0;
  voted_for = "";
  degraded = false;
  log = [];
  snapshot_index = 0;
  snapshot_term = 0;
  snapshot = none;
  pending_snapshot = none;
  commit_index = 0;
  last_applied = 0;
  last_applied_at = 0;
  start_seen_at = [];
  commit_seen_at = [];
  config = config;
  next_index = λ _. 0;
  match_index = λ _. 0;
  replicate_in_flight = λ _. false;
  replicate_pending = λ _. false;
  election_timeout_reset = false;
  apply_notify = false;
  replicate_notify = false;
}

-- the first configuration if it has members
abbrev prefer : ClusterConfig → ClusterConfig → ClusterConfig
prefer config other = if ltb 0 (length config.members) then config else other

-- the fields that the snapshot decides
adopt_snapshot : Option Snapshot → Node → Node
adopt_snapshot none n = n
adopt_snapshot (some snap) n = record n {
  snapshot_index = snap.last_included_index;
  snapshot_term = snap.last_included_term;
  snapshot = some snap;
  pending_snapshot = some snap;
  commit_index = snap.last_included_index;
  last_applied = snap.last_included_index;
  config = prefer snap.config n.config;
}

-- Entries that the snapshot covers already are dropped: a crash during a compaction leaves them.
restore_log : PersistentState → Node → Node
unfolding clone_log_entries
restore_log ps n =
    let ahead = n.snapshot_index - ps.log_base in
    let stale = if ltb (length ps.log) ahead then length ps.log else ahead in
    record n { log = clone_log_entries (drop stale ps.log) }

clamp_commit : Node → Node
clamp_commit n =
    let commit = if ltb n.commit_index n.snapshot_index then n.snapshot_index else n.commit_index in
    record n { commit_index = if ltb (last_log_index n) commit then last_log_index n else commit }

unfoldable pub restored : String → List String → PersistentState → Node
unfolding normalize_peers adopt_snapshot restore_log clamp_commit
restored id peers ps =
    let others = normalize_peers id peers in
    let base = fresh id others (prefer ps.hard.config (record { members = id ∷ others })) in
    clamp_commit (
      restore_log ps (
        adopt_snapshot ps.snapshot (record base {
          current_term = ps.hard.current_term;
          voted_for = ps.hard.voted_for;
          commit_index = ps.hard.commit_index;
        })))

module _ {S : Type 0} (st : Storage S) where
  start_from : String → List String → Option Error → PersistentState → Outcome Node
  unfolding restored
  start_from id peers none ps = ok (restored id peers ps)
  start_from id peers (some e) ps = err e

  -- The storage and the logger are given: the tests for nil do not apply.
  unfoldable pub new_node : String → List String → S → Outcome Node
  unfolding start_from
  new_node id peers d = start_from id peers (st.load d).0 (st.load d).1
