-- ===== src/Raft/Chain/Append.antt =====
-- An AppendEntries leaves a log whose entries are known, if those of the log and of the request were.
use consensus_lab.Base.{ℕ, ◌+◌, ◌≤◌, ◌≡◌, refl, ap, ◌∙◌, none, some, Option, ltb, if_cases, arith}
use consensus_lab.Raft.Types.{AppendEntriesRequest, AppendEntriesResponse}
use consensus_lab.Raft.Storage.{Storage}
use consensus_lab.Raft.Node.{Node, last_log_index}
use consensus_lab.Raft.Action.{Replica, Outcome, Action, ok, err, panic, continue}
use consensus_lab.Raft.Append.{
  merge_entries, check_prev, append_term_update, append_current, after_check, commit_update,
  handle_append_entries,
}
use consensus_lab.Raft.Append.Frame.{check_prev_frame}
use consensus_lab.Raft.Append.Stages.{as_follower}
use consensus_lab.Raft.Chain.{Known, Chain, NodeChain}
use consensus_lab.Raft.Chain.Linked.{Linked, Fits, passed_within, check_prev-Linked}
use consensus_lab.Raft.Chain.Merge.{merge-NodeChain}

module _ {S A B : Type 0} (K : Known) where
  continue-keeps :
      (o : Outcome A) (f : A → Action S B) (t : Replica S)
      → NodeChain K t.node
      → ((a : A) → o ≡ ok a → NodeChain K (f a t).1.node)
      → NodeChain K (continue o f t).1.node
  continue-keeps (ok a) f t own next = next a refl
  continue-keeps (err e) f t own next = own
  continue-keeps panic f t own next = own

-- What the term update and the commit update leave alone.
abbrev pub SameLog : Node → Node → Type 0
SameLog a b =
    (b.log ≡ a.log) × (b.snapshot_index ≡ a.snapshot_index) × (b.snapshot_term ≡ a.snapshot_term)

module _ (K : Known) where
  pub SameLog-NodeChain : (a b : Node) → SameLog a b → NodeChain K a → NodeChain K b
  SameLog-NodeChain a b kept own = rw (kept.0, kept.1, kept.2) own

module _ {S : Type 0} (st : Storage S) (K : Known) where
  commit_same :
      (now : ℕ) (req : AppendEntriesRequest) (s : Replica S)
      → SameLog s.node (commit_update st now req s).1.node
  unfolding commit_update
  commit_same now req s = ground arith

  term_same :
      (req : AppendEntriesRequest) (s : Replica S)
      → SameLog s.node (append_term_update st req s).1.node
  unfolding append_term_update
  term_same req s = ground arith

  after_check-NodeChain :
      (now : ℕ) (req : AppendEntriesRequest) (refusal : Option AppendEntriesResponse)
      (s : Replica S)
      → (refusal ≡ none
          → (req.prev_log_index ≤ last_log_index s.node)
            × Linked s.node req.prev_log_index req.prev_log_term req.entries)
      → Chain K req.prev_log_index req.prev_log_term req.entries
      → NodeChain K s.node
      → NodeChain K (after_check st now req refusal s).1.node
  unfolding after_check
  after_check-NodeChain now req (some r) s linked known own = own
  after_check-NodeChain now req none s linked known own =
      let (within, link) = linked refl in
      let t = (merge_entries st (req.prev_log_index + 1) req.entries s).1 in
      let merged =
        merge-NodeChain st K req.prev_log_index req.prev_log_term req.entries s within link known
          own in
      continue-keeps K (merge_entries st (req.prev_log_index + 1) req.entries s).0 _ t merged λ _ _.
        continue-keeps K (commit_update st now req t).0 _ (commit_update st now req t).1
          (SameLog-NodeChain K t.node (commit_update st now req t).1.node (commit_same now req t)
            merged)
          (λ _ _.
            SameLog-NodeChain K t.node (commit_update st now req t).1.node (commit_same now req t)
              merged)

  append_body :
      (now : ℕ) (req : AppendEntriesRequest) (s : Replica S)
      → Fits s.node req
      → Chain K req.prev_log_index req.prev_log_term req.entries
      → NodeChain K s.node
      → NodeChain K (append_current st now req s).1.node
  unfolding append_current
  append_body now req s fits known own =
      let u = as_follower s in
      let t = (check_prev req u).1 in
      let checked : NodeChain K t.node = rw (check_prev_frame req u) own in
      continue-keeps K (check_prev req u).0 _ t checked λ refusal answered.
        after_check-NodeChain now req refusal t
          (λ passed.
            let ok_none : (check_prev req u).0 ≡ ok none = answered ∙ ap (λ r. ok r) passed in
            rw (check_prev_frame req u)
              (passed_within req u ok_none, check_prev-Linked req u fits ok_none))
          known checked

  -- The handler keeps the chain.
  pub handle_append_entries-NodeChain :
      (now : ℕ) (req : AppendEntriesRequest) (s : Replica S)
      → Fits s.node req
      → Chain K req.prev_log_index req.prev_log_term req.entries
      → NodeChain K s.node
      → NodeChain K (handle_append_entries st now req s).1.node
  unfolding handle_append_entries
  handle_append_entries-NodeChain now req s fits known own =
      let Kept = λ (m : Action S AppendEntriesResponse). NodeChain K (m s).1.node in
      let t = (append_term_update st req s).1 in
      let kept = term_same req s in
      let start = SameLog-NodeChain K s.node t.node kept own in
      if_cases Kept s.node.degraded (λ _. own)
        λ _.
          if_cases Kept (ltb req.term s.node.current_term) (λ _. own)
            λ _.
              continue-keeps K (append_term_update st req s).0 _ t start
                (λ _ _. append_body now req t (rw (kept.1, kept.2) fits) known start)
