-- ===== src/Raft/Commit.antt =====
-- `advanceCommitIndexLocked` of internal/consensus/raft/replication.go: a leader commits by
-- counting replicas.
pub mod Rule
use consensus_lab.Base.{
  ℕ, zero, suc, ◌+◌, ◌-◌, leb, ◌==◌, String, Bool, true, false, if◌then◌else◌, Option, none, some,
  List, [], ◌∷◌,
}
use consensus_lab.Raft.Types.{LogEntry}
use consensus_lab.Raft.Storage.{Storage}
use consensus_lab.Raft.Node.{Node, quorum_size, last_log_index, entry_at}
use consensus_lab.Raft.Node.Timing.{observe_start_to_commit_range, record_commit_seen_range}
use consensus_lab.Raft.Action.{
  Action, Outcome, ok, panic, pure, ◌>>=◌, ◌>>◌, get, modify, persist_hard_state, mark_degraded,
}

-- the peers that are known to hold the entry at `candidate`
unfoldable pub count_peers : (String → ℕ) → ℕ → List String → ℕ
count_peers match_index candidate [] = 0
count_peers match_index candidate (peer ∷ peers) =
    let rest = count_peers match_index candidate peers in
    if leb candidate (match_index peer) then suc rest else rest

-- the leader itself, and those peers
unfoldable pub votes_for : Node → ℕ → ℕ
unfolding count_peers
votes_for n candidate = 1 + count_peers n.match_index candidate n.peers

-- The loop from the last index down to the commit index; `k` rounds are left, so that the
-- candidate is `commit_index + k`. An index with no entry is a panic.
unfoldable pub find_commit : Node → ℕ → Outcome (Option ℕ)
find_commit n zero = ok none
find_commit n (suc k) =
    let candidate = n.commit_index + suc k in
    let next = find_commit n k in
    elim (entry_at n candidate) [
      | none ↦ panic
      | some e ↦
          if e.term == n.current_term
          then (if leb (quorum_size n) (votes_for n candidate) then ok (some candidate) else next)
          else next
    ]

module _ {S : Type 0} where
  abbrev pub lift : {A : Type 0} → Outcome A → Action S A
  lift o s = (o, s)

module _ {S : Type 0} (st : Storage S) where
  pub commit_candidate : ℕ → Option ℕ → Action S Bool
  unfolding observe_start_to_commit_range record_commit_seen_range
  commit_candidate now none = pure false
  commit_candidate now (some candidate) = do
    prev ← get
    modify λ n. record_commit_seen_range prev.commit_index candidate now (
        observe_start_to_commit_range prev.commit_index candidate
          (record n { commit_index = candidate }))
    saved ← persist_hard_state st
    elim saved [ none ↦ pure true | some e ↦ (do modify mark_degraded; pure false) ]

  -- true if the commit index has advanced and was saved
  unfoldable pub advance_commit_index : ℕ → Action S Bool
  unfolding commit_candidate
  advance_commit_index now = do
    n ← get
    found ← lift (find_commit n (last_log_index n - n.commit_index))
    commit_candidate now found
