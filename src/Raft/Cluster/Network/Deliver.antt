-- ===== src/Raft/Cluster/Network/Deliver.antt =====
-- What each kind of event does to the entries that are recorded, the logs and the requests.
use consensus_lab.Base.{
  ℕ, ◌+◌, ◌≤◌, ◌≡◌, ◌≢◌, inl, inr, refl, sym, ap, ◌∙◌, String, Bool, none, some, Option, List, [],
  ◌∷◌, ◌++◌, length-append, arith,
}
use consensus_lab.Raft.Types.{Bytes, LogEntry, leader, AppendEntriesRequest}
use consensus_lab.Raft.Storage.{Storage}
use consensus_lab.Raft.Node.{Node, update, last_log_index}
use consensus_lab.Raft.Action.{Replica, Outcome, ok, err, panic}
use consensus_lab.Raft.Append.{handle_append_entries}
use consensus_lab.Raft.Command.{start_command, command_entry, take_snapshot}
use consensus_lab.Raft.Replicate.{append_entries_request_for_peer}
use consensus_lab.Raft.Chain.{Chain, NodeChain, Chain-weaken}
use consensus_lab.Raft.Chain.Append.{SameLog, SameLog-NodeChain, handle_append_entries-NodeChain}
use consensus_lab.Raft.Chain.Linked.{Fits}
use consensus_lab.Raft.Chain.Grow.{
  start_command_grows, start_command-NodeChain, take_snapshot-NodeChain, request-Chain,
}
use consensus_lab.Raft.Chain.Events.{
  Quiet, requested, append_leads, command_leads, compaction_leads,
}
use consensus_lab.Raft.Steps.{Event, append_entries, append_for, after}
use consensus_lab.Raft.Steps.Terms.{after-TermOrder}
use consensus_lab.Raft.Cluster.Network.{
  Network, WasSent, sent_by, sent_after, deliver, LeadsItsTerm,
}
use consensus_lab.Raft.Cluster.Network.Matching.{
  Cell, Recorded, AreRecorded, IsMatched, Carries, Carries-LeadsOn, Carries-ne-leader, settled,
  grown, next_cell,
}

SameLog-last : (a b : Node) → SameLog a b → last_log_index a ≤ last_log_index b
unfolding last_log_index
SameLog-last a b kept = rw (kept.0, kept.1) (omega arith)

grows_last :
    (a b : Node) (e : LogEntry)
    → b.log ≡ a.log ++ e ∷ []
    → b.snapshot_index ≡ a.snapshot_index
    → last_log_index b ≡ last_log_index a + 1
unfolding last_log_index
grows_last a b e log base = rw (log, base) (omega (arith, length-append a.log (e ∷ [])))

module _ {S : Type 0} (st : Storage S) where
  pub event_term :
      (e : Event) (s : Replica S) → s.node.current_term ≤ (after st e s).node.current_term
  event_term e s = omega (arith, after-TermOrder st e s)

  append-Carries :
      (now : ℕ) (req : AppendEntriesRequest) (s : Replica S)
      → (s.node.role ≡ leader → req.term ≢ s.node.current_term)
      → s.node.current_term ≤ (handle_append_entries st now req s).1.node.current_term
      → Carries s.node (handle_append_entries st now req s).1.node
  append-Carries now req s other later t i (inl newer) = inl (omega (arith, later))
  append-Carries now req s other later t i (inr (own, role, within)) =
      elim (append_leads st s now req (other role)) [
        | inl newer ↦ inl (omega arith)
        | inr kept ↦ rw kept (inr (own, role, within))
      ]

module _ {S : Type 0} (st : Storage S) (leads : ℕ → String) (cells : List Cell) (x : Network S)
    (m : String) where
  -- an event that leaves the log alone
  pub quiet :
      (t : Replica S)
      → IsMatched leads cells x
      → Quiet (x.replica m).node t.node
      → IsMatched leads cells (record { replica = update x.replica m t; sent = x.sent })
  quiet t good kept =
      let n = (x.replica m).node in
      settled leads cells x m t x.sent good
        (SameLog-NodeChain (Recorded cells) n t.node kept.0 (good.chains m))
        (Carries-LeadsOn n t.node kept.1 (SameLog-last n t.node kept.0)) good.requests

  -- an event of a member that does not lead
  pub aside :
      (t : Replica S)
      → IsMatched leads cells x
      → (x.replica m).node.role ≢ leader
      → SameLog (x.replica m).node t.node
      → (x.replica m).node.current_term ≤ t.node.current_term
      → IsMatched leads cells (record { replica = update x.replica m t; sent = x.sent })
  aside t good apart kept later =
      let n = (x.replica m).node in
      settled leads cells x m t x.sent good
        (SameLog-NodeChain (Recorded cells) n t.node kept (good.chains m))
        (Carries-ne-leader n t.node apart later) good.requests

  pub compacted :
      (index : ℕ) (bytes : Bytes)
      → IsMatched leads cells x
      → IsMatched leads cells (record {
        replica = update x.replica m (take_snapshot st index bytes (x.replica m)).1;
        sent = x.sent;
      })
  compacted index bytes good =
      let s = x.replica m in
      let t = (take_snapshot st index bytes s).1 in
      let facts = compaction_leads st s index bytes in
      settled leads cells x m t x.sent good
        (take_snapshot-NodeChain st (Recorded cells) index bytes s (good.chains m))
        (Carries-LeadsOn s.node t.node facts.0 facts.1) good.requests

  pub appended :
      (now : ℕ) (req : AppendEntriesRequest) (sender : String)
      → IsMatched leads cells x
      → LeadsItsTerm leads m x
      → sender ≢ m
      → WasSent (record { sender = sender; request = req }) x.sent
      → Fits (x.replica m).node req
      → IsMatched leads cells (record {
        replica = update x.replica m (handle_append_entries st now req (x.replica m)).1;
        sent = x.sent;
      })
  appended now req sender good own apart was fits =
      let s = x.replica m in
      let t = (handle_append_entries st now req s).1 in
      let (from, known) = good.requests (record { sender = sender; request = req }) was in
      settled leads cells x m t x.sent good
        (handle_append_entries-NodeChain st (Recorded cells) now req s fits known (good.chains m))
        (append-Carries st now req s (λ role same. apart (from ∙ ap leads same ∙ own role))
          (unfold after in event_term st (append_entries now req) s))
        good.requests

  sent-AreRecorded :
      (o : Outcome (Option AppendEntriesRequest × Bool))
      → ((req : AppendEntriesRequest) (leading : Bool)
          → o ≡ ok (some req, leading)
          → (m ≡ leads req.term)
            × Chain (Recorded cells) req.prev_log_index req.prev_log_term req.entries)
      → AreRecorded leads cells x.sent
      → AreRecorded leads cells (sent_by m o x.sent)
  unfolding WasSent
  sent-AreRecorded (ok (some req, leading)) new old r (inl here) =
      rw (sym here) (new req leading refl)
  sent-AreRecorded (ok (some req, leading)) new old r (inr was) = old r was
  sent-AreRecorded (ok (none, leading)) new old r was = old r was
  sent-AreRecorded (err e) new old r was = old r was
  sent-AreRecorded panic new old r was = old r was

  pub took :
      (now : ℕ) (cmd : Bytes)
      → IsMatched leads cells x
      → LeadsItsTerm leads m x
      → (more : List Cell) × IsMatched leads more (record {
        replica = update x.replica m (start_command st now cmd (x.replica m)).1;
        sent = x.sent;
      })
  took now cmd good own =
      let s = x.replica m in
      let t = (start_command st now cmd s).1 in
      let on = command_leads st s now cmd in
      elim (start_command_grows st now cmd s) [
        | inl kept ↦ (cells, quiet t good (kept, on))
        | inr (role, log, base, term) ↦
            let new = command_entry s.node cmd in
            let more : List Cell = next_cell s.node new ∷ cells in
            let old : NodeChain (Recorded more) s.node =
              Chain-weaken (Recorded cells) (Recorded more) s.node.snapshot_index
                s.node.snapshot_term s.node.log (λ i q e known. unfold Recorded in inr known)
                (good.chains m) in
            (
              more,
              grown leads cells x m t new good role (own role) refl
                  (start_command-NodeChain st (Recorded more) now cmd s
                    (λ role. unfold Recorded in inl refl) old)
                  on (grows_last s.node t.node new log base),
            )
      ]

  pub asked :
      (peer : String)
      → IsMatched leads cells x
      → LeadsItsTerm leads m x
      → IsMatched leads cells (deliver st m (append_for peer) x)
  unfolding deliver sent_after after
  asked peer good own =
      let s = x.replica m in
      let t = (append_entries_request_for_peer peer s).1 in
      let kept = requested st s peer in
      settled leads cells x m t (sent_by m (append_entries_request_for_peer peer s).0 x.sent) good
        (SameLog-NodeChain (Recorded cells) s.node t.node kept.0 (good.chains m))
        (Carries-LeadsOn s.node t.node kept.1 (SameLog-last s.node t.node kept.0))
        (sent-AreRecorded (append_entries_request_for_peer peer s).0
          (λ req leading built.
            let (role, term, id, known) =
              request-Chain peer s (Recorded cells) req leading built (good.chains m) in
            (sym (ap leads term ∙ own role), known))
          good.requests)
