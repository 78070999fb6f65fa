-- ===== src/Raft/Replicate/Progress.antt =====
-- How the leader's picture of a peer moves.
use consensus_lab.Base.{ℕ, ◌≤◌, ◌<◌, ◌≡◌, ◌≢◌, String, true, false, eq_iff, arith}
use consensus_lab.Raft.Types.{leader, AppendEntriesRequest, AppendEntriesResponse}
use consensus_lab.Raft.Storage.{Storage}
use consensus_lab.Raft.Node.{Node}
use consensus_lab.Raft.Action.{Replica}
use consensus_lab.Raft.Replicate.{backed_off, handle_append_entries_response}

-- The next index after a refusal is at least one, and below the old one if that was above one.
pub backed_off_bounds :
    (n : Node) (prev_next : ℕ) (resp : AppendEntriesResponse)
    → (1 ≤ backed_off n prev_next resp) × (1 < prev_next → backed_off n prev_next resp < prev_next)
unfolding backed_off
backed_off_bounds n prev_next resp = ground arith

module _ {S : Type 0} (st : Storage S) (now : ℕ) (peer : String) where
  -- A peer that refuses a request of the leader's term, answers with no newer term and has a next
  -- index above one moves back by at least one entry and not below one; no other peer, match index
  -- or commit index changes, and a retry is signalled.
  pub refused-next_index :
      (req : AppendEntriesRequest) (resp : AppendEntriesResponse) (s : Replica S) (other : String)
      → s.node.role ≡ leader
      → req.term ≡ s.node.current_term
      → resp.term ≤ s.node.current_term
      → resp.success ≡ false
      → 1 < s.node.next_index peer
      → other ≢ peer
      → let after = (handle_append_entries_response st now peer req resp s).1.node in
        (1 ≤ after.next_index peer)
        × (after.next_index peer < s.node.next_index peer)
        × (after.next_index other ≡ s.node.next_index other)
        × (after.match_index ≡ s.node.match_index)
        × (after.commit_index ≡ s.node.commit_index)
        × (after.replicate_notify ≡ true)
  unfolding handle_append_entries_response
  refused-next_index req resp s other role term newer refused above apart = ground (
    arith,
    eq_iff peer peer,
    eq_iff other peer,
    backed_off_bounds s.node (s.node.next_index peer) resp,
  )
