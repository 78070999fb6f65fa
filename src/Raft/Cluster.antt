-- ===== src/Raft/Cluster.antt =====
-- Several replicas, each with its own run: the votes that a candidate collects from the members of
-- a configuration. Terms, and with them elections, are told apart by their numbers.
pub mod Elections
pub mod Restarts
pub mod Network
use consensus_lab.Base.{
  ℕ, suc, ◌==◌, String, str_eq, Bool, true, false, ◌&&◌, ◌||◌, if◌then◌else◌, List, [], ◌∷◌,
}
use consensus_lab.Raft.Storage.{Storage}
use consensus_lab.Raft.Node.{Node}
use consensus_lab.Raft.Action.{Replica}
use consensus_lab.Raft.Steps.{Event, after}

-- the node has given its vote of the term to the candidate
unfoldable pub holds_vote : ℕ → String → Node → Bool
holds_vote term id n = n.current_term == term && str_eq n.voted_for id

unfoldable pub count : (String → Bool) → List String → ℕ
count p [] = 0
count p (m ∷ members) = let rest = count p members in if p m then suc rest else rest

module _ {S : Type 0} (st : Storage S) where
  -- somewhere in its run the replica holds the vote
  unfoldable pub votes_in_run : ℕ → String → List Event → Replica S → Bool
  unfolding holds_vote
  votes_in_run term id [] s = holds_vote term id s.node
  votes_in_run term id (e ∷ es) s =
      holds_vote term id s.node || votes_in_run term id es (after st e s)

  -- the number of the members that vote for the candidate in the term
  unfoldable pub votes_of :
      (String → List Event) → (String → Replica S) → ℕ → String → List String → ℕ
  votes_of events initial term id = count (λ m. votes_in_run term id (events m) (initial m))
