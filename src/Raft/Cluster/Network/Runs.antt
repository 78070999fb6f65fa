-- ===== src/Raft/Cluster/Network/Runs.antt =====
-- The logs of a cluster in all its runs.
use consensus_lab.Base.{
  ℕ, zero, suc, ◌+◌, ◌-◌, ◌≤◌, ◌≡◌, inr, refl, sym, ◌∙◌, String, some, List, [], ◌∷◌, arith,
}
use consensus_lab.Raft.Types.{LogEntry}
use consensus_lab.Raft.Storage.{Storage}
use consensus_lab.Raft.Node.{entry_at}
use consensus_lab.Raft.Node.Index.{entry_at-some, entry_at-le-last}
use consensus_lab.Raft.Election.{election_timeout}
use consensus_lab.Raft.Apply.{take_pending, snapshot_sent, entry_sent}
use consensus_lab.Raft.Chain.{Chain, NodeChain-at, log_term-entry_at}
use consensus_lab.Raft.Chain.Events.{
  vote, election, vote_answer, snapshot_requested, install_answer, entry, append_answer,
}
use consensus_lab.Raft.Steps.{
  Event, request_vote, append_entries, install_snapshot, command, compaction, timeout, start,
  vote_answered, append_for, install_for, append_answered, install_answered, pending_taken,
  entry_taken, pending_sent, command_sent, after,
}
use consensus_lab.Raft.Cluster.Network.{
  Network, WasSent, sent_after, deliver, deliver_all, IsPossible, LeadsItsTerm, ArePossible,
}
use consensus_lab.Raft.Cluster.Network.Matching.{Cell, Recorded, IsMatched}
use consensus_lab.Raft.Cluster.Network.Deliver.{
  event_term, quiet, aside, compacted, appended, took, asked,
}

module _ {S : Type 0} (st : Storage S) (leads : ℕ → String) where
  -- the result of a step, with the entries that are recorded then
  abbrev Matched : Network S → Type 0
  Matched x = (cells : List Cell) × IsMatched leads cells x

  deliver-Matched :
      (m : String) (e : Event) (x : Network S) (cells : List Cell)
      → IsMatched leads cells x
      → LeadsItsTerm leads m x
      → IsPossible m e x
      → Matched (deliver st m e x)
  unfolding deliver sent_after after election_timeout take_pending snapshot_sent entry_sent
      IsPossible
  deliver-Matched m (request_vote req) x cells good own can =
      (cells, quiet st leads cells x m _ good (vote st (x.replica m) req))
  deliver-Matched m (append_entries now req) x cells good own can =
      (cells, appended st leads cells x m now req can.0.0 good own can.0.1 can.0.2 can.1)
  deliver-Matched m (install_snapshot req) x cells good own can = elim can [ ]
  deliver-Matched m (command now cmd) x cells good own can =
      took st leads cells x m now cmd good own
  deliver-Matched m (compaction index bytes) x cells good own can =
      (cells, compacted st leads cells x m index bytes good)
  deliver-Matched m timeout x cells good own can =
      (cells, aside st leads cells x m _ good can (refl, refl, refl) (omega arith))
  deliver-Matched m start x cells good own can = (
    cells,
    aside st leads cells x m _ good can (election st (x.replica m))
        (event_term st start (x.replica m)),
  )
  deliver-Matched m (vote_answered votes majority resp) x cells good own can =
      (cells, quiet st leads cells x m _ good (vote_answer st (x.replica m) votes majority resp))
  deliver-Matched m (append_for peer) x cells good own can =
      (cells, asked st leads cells x m peer good own)
  deliver-Matched m (install_for peer) x cells good own can =
      (cells, quiet st leads cells x m _ good (snapshot_requested st (x.replica m) peer))
  deliver-Matched m (append_answered now peer req answer) x cells good own can =
      (cells, quiet st leads cells x m _ good (append_answer st (x.replica m) now peer req answer))
  deliver-Matched m (install_answered peer req answer) x cells good own can =
      (cells, quiet st leads cells x m _ good (install_answer st (x.replica m) peer req answer))
  deliver-Matched m pending_taken x cells good own can =
      (cells, quiet st leads cells x m _ good ((refl, refl, refl), inr (refl, λ role. role)))
  deliver-Matched m entry_taken x cells good own can =
      (cells, quiet st leads cells x m _ good (entry st (x.replica m)))
  deliver-Matched m (pending_sent now snap) x cells good own can =
      (cells, quiet st leads cells x m _ good ((refl, refl, refl), inr (refl, λ role. role)))
  deliver-Matched m (command_sent now) x cells good own can =
      (cells, quiet st leads cells x m _ good ((refl, refl, refl), inr (refl, λ role. role)))

  deliver_all-Matched :
      (es : List (String × Event)) (x : Network S) (cells : List Cell)
      → IsMatched leads cells x
      → ArePossible st leads es x
      → Matched (deliver_all st es x)
  unfolding deliver_all ArePossible
  deliver_all-Matched [] x cells good can = (cells, good)
  deliver_all-Matched ((m, e) ∷ es) x cells good can =
      let (more, good') = deliver-Matched m e x cells good can.0 can.1 in
      deliver_all-Matched es (deliver st m e x) more good' can.2

  -- Two logs that have an entry of the same term at an index are the same up to it.
  agree_below :
      (cells : List Cell) (x : Network S) (m k : String) (gap i j : ℕ) (e d : LogEntry)
      → IsMatched leads cells x
      → i ≡ j + gap
      → entry_at (x.replica m).node i ≡ some e
      → entry_at (x.replica k).node i ≡ some d
      → e.term ≡ d.term
      → (e' d' : LogEntry) → entry_at (x.replica m).node j ≡ some e'
      → entry_at (x.replica k).node j ≡ some d'
      → e' ≡ d'
  agree_below cells x m k zero i j e d good span read read' same e' d' own own' =
      let a = NodeChain-at (Recorded cells) (x.replica m).node i e (good.chains m) read in
      let b = NodeChain-at (Recorded cells) (x.replica k).node i d (good.chains k) read' in
      let here : i ≡ j = omega arith in
      let (terms, entries) = good.functional i _ _ e d a.1 b.1 same in
      cc (read, read', own, own', here, entries)
  agree_below cells x m k (suc gap) i j e d good span read read' same e' d' own own' =
      let n = (x.replica m).node in
      let n' = (x.replica k).node in
      let a = NodeChain-at (Recorded cells) n i e (good.chains m) read in
      let b = NodeChain-at (Recorded cells) n' i d (good.chains k) read' in
      let (terms, entries) = good.functional i _ _ e d a.1 b.1 same in
      let low = NodeChain-at (Recorded cells) n j e' (good.chains m) own in
      let low' = NodeChain-at (Recorded cells) n' j d' (good.chains k) own' in
      let (f, before) =
        entry_at-some n (i - 1) (omega (arith, low.0)) (omega (arith, entry_at-le-last n i read)) in
      let (g, before') =
        entry_at-some n' (i - 1) (omega (arith, low'.0))
          (omega (arith, entry_at-le-last n' i read')) in
      agree_below cells x m k gap (i - 1) j f g good (omega arith) before before'
        (sym (log_term-entry_at n (i - 1) f before)
          ∙ terms
          ∙ log_term-entry_at n' (i - 1) g before')
        e' d' own own'

  nothing_recorded :
      (x : Network S)
      → ((member : String) → (x.replica member).node.log ≡ [])
      → x.sent ≡ []
      → IsMatched leads [] x
  unfolding Recorded Chain WasSent
  nothing_recorded x fresh silent = record {
    functional = λ i p q e d a b same. elim a [ ];
    chains = λ m. rw (fresh m) tt;
    requests = λ r was. elim (rw silent at was) [ ];
    covered = λ i p e known. elim known [ ];
  }

  -- Members start with empty logs, and no request has been sent. In any run where a leader leads
  -- only terms that are assigned to it, an AppendEntries is delivered to another member than its
  -- sender (late, repeatedly, in any order or never), one that begins before the receiver's
  -- snapshot has the snapshot's term at the snapshot's index, no snapshot is installed and no
  -- election timer runs at a leader: if two logs have an entry of the same term at an index, then
  -- the entries that both have at that index or below it are the same.
  pub log_matching :
      (es : List (String × Event)) (x : Network S) (m k : String) (i j : ℕ) (e d e' d' : LogEntry)
      → ((member : String) → (x.replica member).node.log ≡ [])
      → x.sent ≡ []
      → ArePossible st leads es x
      → entry_at ((deliver_all st es x).replica m).node i ≡ some e
      → entry_at ((deliver_all st es x).replica k).node i ≡ some d
      → e.term ≡ d.term
      → j ≤ i
      → entry_at ((deliver_all st es x).replica m).node j ≡ some e'
      → entry_at ((deliver_all st es x).replica k).node j ≡ some d'
      → e' ≡ d'
  log_matching es x m k i j e d e' d' fresh silent can read read' same below own own' =
      let start_good : IsMatched leads [] x = nothing_recorded x fresh silent in
      let (cells, good) = deliver_all-Matched es x [] start_good can in
      agree_below cells (deliver_all st es x) m k (i - j) i j e d good (omega arith) read read' same
        e' d' own own'
