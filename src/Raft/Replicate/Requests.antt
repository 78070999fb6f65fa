-- ===== src/Raft/Replicate/Requests.antt =====
-- The requests that a leader builds for a peer.
use consensus_lab.Base.{◌≤◌, ◌<◌, ◌≡◌, String, false, true, arith}
use consensus_lab.Raft.Types.{leader}
use consensus_lab.Raft.Node.{update, last_log_index}
use consensus_lab.Raft.Action.{Replica, panic}
use consensus_lab.Raft.Replicate.{build_append_entries, append_entries_request_for_peer}

module _ {S : Type 0} (peer : String) (s : Replica S) where
  build-panic :
      s.node.next_index peer ≤ s.node.snapshot_index
      → s.node.next_index peer ≤ last_log_index s.node
      → 0 < s.node.next_index peer
      → (build_append_entries peer s).0 ≡ panic
  unfolding build_append_entries
  build-panic covered within positive = ground arith

-- A request from an index that the snapshot covers slices the log at a negative offset.
pub request-panic :
    {S : Type 0} (peer : String) (s : Replica S)
    → s.node.role ≡ leader
    → s.node.replicate_in_flight peer ≡ false
    → s.node.next_index peer ≤ s.node.snapshot_index
    → s.node.next_index peer ≤ last_log_index s.node
    → 0 < s.node.next_index peer
    → (append_entries_request_for_peer peer s).0 ≡ panic
unfolding append_entries_request_for_peer last_log_index
request-panic peer s role free covered within positive =
    let t = record s {
      node = record s.node {
        role = leader;
        replicate_in_flight = update s.node.replicate_in_flight peer true;
      };
    } in
    rw (role, free) (rw (build-panic peer t covered within positive))
