-- ===== src/Raft/Cluster/Network.antt =====
-- The replicas of a cluster with the AppendEntries requests between them. A request that has been
-- sent can be delivered late, more than once, in any order, or never.
pub mod Matching
pub mod Deliver
pub mod Runs
use consensus_lab.Base.{ℕ, ◌<◌, ◌≡◌, ◌≢◌, ◌⊎◌, String, Bool, Option, none, some, List, [], ◌∷◌}
use consensus_lab.Raft.Types.{leader, AppendEntriesRequest}
use consensus_lab.Raft.Storage.{Storage}
use consensus_lab.Raft.Node.{update}
use consensus_lab.Raft.Action.{Replica, Outcome, ok, err, panic}
use consensus_lab.Raft.Replicate.{append_entries_request_for_peer}
use consensus_lab.Raft.Chain.Linked.{Fits}
use consensus_lab.Raft.Steps.{
  Event, request_vote, append_entries, install_snapshot, command, compaction, timeout, start,
  vote_answered, append_for, install_for, append_answered, install_answered, pending_taken,
  entry_taken, pending_sent, command_sent, after,
}

-- a request with the member that has sent it
pub record Sent : Type 0 where
  pub sender : String
  pub request : AppendEntriesRequest

pub record Network (S : Type 0) : Type 0 where
  pub replica : String → Replica S
  pub sent : List Sent

unfoldable pub WasSent : Sent → List Sent → Type 0
WasSent r [] = ⊥
WasSent r (x ∷ xs) = (x ≡ r) ⊎ WasSent r xs

abbrev pub sent_by : String → Outcome (Option AppendEntriesRequest × Bool) → List Sent → List Sent
sent_by m (ok (some req, leads)) xs = record { sender = m; request = req } ∷ xs
sent_by m (ok (none, leads)) xs = xs
sent_by m (err e) xs = xs
sent_by m panic xs = xs

module _ {S : Type 0} (st : Storage S) where
  -- the requests after an event of a member
  unfoldable pub sent_after : String → Event → Network S → List Sent
  sent_after m (append_for peer) x =
      sent_by m (append_entries_request_for_peer peer (x.replica m)).0 x.sent
  sent_after m _ x = x.sent

  unfoldable pub deliver : String → Event → Network S → Network S
  unfolding sent_after
  deliver m e x = record {
    replica = update x.replica m (after st e (x.replica m));
    sent = sent_after m e x;
  }

  unfoldable pub deliver_all : List (String × Event) → Network S → Network S
  unfolding deliver
  deliver_all [] x = x
  deliver_all ((m, e) ∷ es) x = deliver_all es (deliver m e x)

module _ {S : Type 0} where
  -- What the program and the network do not do: the role loop of a leader runs no election timer, a
  -- request comes from another member and was sent, and fits the snapshot of the member it reaches. No
  -- snapshot is installed.
  unfoldable pub IsPossible : String → Event → Network S → Type 0
  unfolding WasSent
  IsPossible m (append_entries now req) x =
      ((sender : String) × (sender ≢ m)
        × WasSent (record { sender = sender; request = req }) x.sent)
      × Fits (x.replica m).node req
  IsPossible m (install_snapshot req) x = ⊥
  IsPossible m timeout x = (x.replica m).node.role ≢ leader
  IsPossible m start x = (x.replica m).node.role ≢ leader
  IsPossible m _ x = Unit

  -- `m` leads only terms that are given to it
  abbrev pub LeadsItsTerm : (ℕ → String) → String → Network S → Type 0
  LeadsItsTerm leads m x =
      (x.replica m).node.role ≡ leader → leads (x.replica m).node.current_term ≡ m

module _ {S : Type 0} (st : Storage S) (leads : ℕ → String) where
  unfoldable pub ArePossible : List (String × Event) → Network S → Type 0
  unfolding IsPossible deliver
  ArePossible [] x = Unit
  ArePossible ((m, e) ∷ es) x =
      LeadsItsTerm leads m x × IsPossible m e x × ArePossible es (deliver st m e x)
