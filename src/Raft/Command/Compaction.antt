-- ===== src/Raft/Command/Compaction.antt =====
-- What a compaction keeps, and what a leader's sender meets after one.
use consensus_lab.Base.{
  ℕ, ◌+◌, ◌-◌, ◌≤◌, ◌<◌, ◌≡◌, ◌≢◌, ◌∙◌, String, false, length-drop, drop, get_elem?-drop, arith,
}
use consensus_lab.Raft.Types.{Bytes, leader}
use consensus_lab.Raft.Storage.{Storage}
use consensus_lab.Raft.Node.{last_log_index, entry_at}
use consensus_lab.Raft.Node.Index.{entry_at-ne-none, snapshot-le-last}
use consensus_lab.Raft.Action.{Replica, ok, panic}
use consensus_lab.Raft.Command.{take_snapshot}
use consensus_lab.Raft.Replicate.{append_entries_request_for_peer}
use consensus_lab.Raft.Replicate.Requests.{request-panic}

module _ {S : Type 0} (st : Storage S) (index : ℕ) (bytes : Bytes) (s : Replica S) where
  -- A call never panics, and one that fails changes nothing in memory.
  pub take_snapshot_safe :
      let r = take_snapshot st index bytes s in (r.0 ≢ panic) × ((r.0 ≢ ok tt) → r.1.node ≡ s.node)
  unfolding take_snapshot
  take_snapshot_safe = ground (arith, entry_at-ne-none s.node index)

  -- the node after a compaction
  compacted :
      (take_snapshot st index bytes s).0 ≡ ok tt
      → s.node.snapshot_index < index
      → let after = (take_snapshot st index bytes s).1.node in
        (index ≤ last_log_index s.node)
        × (after.snapshot_index ≡ index)
        × (after.log ≡ drop (index - s.node.snapshot_index) s.node.log)
        × (after.commit_index ≡ s.node.commit_index)
  unfolding take_snapshot
  compacted returned beyond = ground arith

  -- A successful compaction beyond the old snapshot keeps every later entry at its index, the last
  -- index and the commit index, and moves the snapshot index to the requested one.
  pub take_snapshot_kept :
      (j : ℕ)
      → (take_snapshot st index bytes s).0 ≡ ok tt
      → s.node.snapshot_index < index
      → index < j
      → let after = (take_snapshot st index bytes s).1.node in
        (entry_at after j ≡ entry_at s.node j)
        × (last_log_index after ≡ last_log_index s.node)
        × (after.snapshot_index ≡ index)
        × (after.commit_index ≡ s.node.commit_index)
  unfolding entry_at last_log_index
  take_snapshot_kept j returned beyond later =
      let facts = compacted returned beyond in
      let cut = index - s.node.snapshot_index in
      let shift : cut + (j - index - 1) ≡ j - s.node.snapshot_index - 1 = omega arith in
      let read = get_elem?-drop cut s.node.log (j - index - 1) in
      let size = length-drop cut s.node.log in
      (
        ground (arith, facts.1, facts.2, shift, read),
        rw (facts.1, facts.2, size) (omega (arith, facts.0)),
        facts.1,
        facts.3,
      )

module _ {S : Type 0} where
  compacted_leader :
      (st : Storage S) (index : ℕ) (bytes : Bytes) (s : Replica S)
      → let after = (take_snapshot st index bytes s).1.node in
        (after.role ≡ s.node.role)
        × (after.replicate_in_flight ≡ s.node.replicate_in_flight)
        × (after.next_index ≡ s.node.next_index)
  unfolding take_snapshot
  compacted_leader st index bytes s = ground arith

-- If a successful compaction passes a peer's next index after the leader has found that the peer
-- needs no snapshot, and no request to the peer is in flight, building the next AppendEntries
-- request panics.
pub take_snapshot-append_entries_request-panic :
    {S : Type 0} (st : Storage S) (index : ℕ) (bytes : Bytes) (peer : String) (s : Replica S)
    → (take_snapshot st index bytes s).0 ≡ ok tt
    → s.node.role ≡ leader
    → s.node.replicate_in_flight peer ≡ false
    → s.node.snapshot_index < s.node.next_index peer
    → s.node.next_index peer ≤ index
    → (append_entries_request_for_peer peer (take_snapshot st index bytes s).1).0 ≡ panic
take_snapshot-append_entries_request-panic st index bytes peer s returned role free after passed =
    let facts = compacted st index bytes s returned (omega arith) in
    let same = compacted_leader st index bytes s in
    let t = (take_snapshot st index bytes s).1 in
    request-panic peer t (same.0 ∙ role) (rw (same.1) free) (rw (same.2) (omega (arith, facts.1)))
      (rw (same.2) (omega (arith, facts.1, snapshot-le-last t.node))) (rw (same.2) (omega arith))
