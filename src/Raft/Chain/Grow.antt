-- ===== src/Raft/Chain/Grow.antt =====
-- A leader's log as a chain: the commands that it takes, the entries that it compacts, and the requests
-- that it builds.
use consensus_lab.Base.{
  ℕ, ◌+◌, ◌-◌, ◌≤◌, ◌<◌, ◌≡◌, ◌⊎◌, sym, ap, ◌∙◌, none, some, Option-cases, String, Bool, ◌==◌, true,
  [], ◌∷◌, ◌++◌, drop, Bool-cases, inl, inr, arith,
}
use consensus_lab.Raft.Types.{Bytes, LogEntry, leader, AppendEntriesRequest}
use consensus_lab.Raft.Storage.{Storage}
use consensus_lab.Raft.Node.{Node, update, last_log_term, last_log_index, entry_at}
use consensus_lab.Raft.Action.{Replica, ok, persist_append_log}
use consensus_lab.Raft.Commit.{advance_commit_index}
use consensus_lab.Raft.Command.{start_command, command_appended, command_entry, take_snapshot}
use consensus_lab.Raft.Command.Accepted.{take-append}
use consensus_lab.Raft.Node.Index.{entry_at-some}
use consensus_lab.Raft.Replicate.{build_append_entries, append_entries_request_for_peer}
use consensus_lab.Raft.Chain.{
  Known, Chain, NodeChain, log_term, Chain-append, Chain-drop, log_term-entry_at, log_term-base,
}
use consensus_lab.Raft.Chain.Append.{SameLog, SameLog-NodeChain}

module _ {S : Type 0} (st : Storage S) where
  appended_same : (now : ℕ) (s : Replica S) → SameLog s.node (command_appended st now s).1.node
  unfolding command_appended advance_commit_index
  appended_same now s = ground arith

  -- A command leaves the log as it is, or a leader has put the command's entry at its end.
  pub start_command_grows :
      (now : ℕ) (cmd : Bytes) (s : Replica S)
      → let after = (start_command st now cmd s).1.node in
        SameLog s.node after
        ⊎ ((s.node.role ≡ leader)
            × (after.log ≡ s.node.log ++ command_entry s.node cmd ∷ [])
            × (after.snapshot_index ≡ s.node.snapshot_index)
            × (after.snapshot_term ≡ s.node.snapshot_term))
  unfolding start_command
  start_command_grows now cmd s =
      let entries = command_entry s.node cmd ∷ [] in
      let grown : Replica S = record s { node = record s.node { log = s.node.log ++ entries } } in
      let saved = persist_append_log st entries grown in
      ground (arith, take-append s.node.log entries, appended_same now saved.1)

  pub start_command-NodeChain :
      (K : Known) (now : ℕ) (cmd : Bytes) (s : Replica S)
      → (s.node.role ≡ leader
          → K (last_log_index s.node + 1) (last_log_term s.node) (command_entry s.node cmd))
      → NodeChain K s.node
      → NodeChain K (start_command st now cmd s).1.node
  unfolding Chain last_log_index last_log_term
  start_command-NodeChain K now cmd s known own = elim (start_command_grows now cmd s) [
    | inl kept ↦ SameLog-NodeChain K s.node (start_command st now cmd s).1.node kept own
    | inr (role, log, base, term) ↦
        rw (log, base, term)
          (Chain-append K s.node.snapshot_index s.node.snapshot_term s.node.log _ own
            (known role, tt))
  ]

  compaction_missing :
      (index : ℕ) (bytes : Bytes) (s : Replica S)
      → entry_at s.node index ≡ none
      → SameLog s.node (take_snapshot st index bytes s).1.node
  unfolding take_snapshot
  compaction_missing index bytes s missing = ground arith

  compaction_present :
      (index : ℕ) (bytes : Bytes) (s : Replica S) (e : LogEntry)
      → entry_at s.node index ≡ some e
      → let after = (take_snapshot st index bytes s).1.node in
        SameLog s.node after
        ⊎ ((s.node.snapshot_index < index)
            × (after.log ≡ drop (index - s.node.snapshot_index) s.node.log)
            × (after.snapshot_index ≡ index)
            × (after.snapshot_term ≡ e.term))
  unfolding take_snapshot
  compaction_present index bytes s e read = ground arith

  dropped :
      (K : Known) (n after : Node) (index : ℕ) (e : LogEntry)
      → entry_at n index ≡ some e
      → n.snapshot_index < index
      → after.log ≡ drop (index - n.snapshot_index) n.log
      → after.snapshot_index ≡ index
      → after.snapshot_term ≡ e.term
      → NodeChain K n
      → NodeChain K after
  unfolding log_term
  dropped K n after index e read later log base term own =
      let k = index - n.snapshot_index in
      let here : n.snapshot_index + k ≡ index = omega arith in
      rw (log, base, term)
        (rw (here, log_term-entry_at n index e read) at
          (Chain-drop K n.snapshot_index n.snapshot_term k n.log own))

  -- A compaction keeps the chain: it cuts the log at an entry whose term the snapshot keeps.
  pub take_snapshot-NodeChain :
      (K : Known) (index : ℕ) (bytes : Bytes) (s : Replica S)
      → NodeChain K s.node
      → NodeChain K (take_snapshot st index bytes s).1.node
  take_snapshot-NodeChain K index bytes s own =
      let after = (take_snapshot st index bytes s).1.node in
      elim (Option-cases (entry_at s.node index)) [
        | inl missing ↦
            SameLog-NodeChain K s.node after (compaction_missing index bytes s missing) own
        | inr (e, read) ↦ elim (compaction_present index bytes s e read) [
          | inl kept ↦ SameLog-NodeChain K s.node after kept own
          | inr (later, log, base, term) ↦
              dropped K s.node after index e read later log base term own
        ]
      ]

module _ {S : Type 0} (peer : String) (s : Replica S) where
  build_cases :
      (req : AppendEntriesRequest)
      → (build_append_entries peer s).0 ≡ ok req
      → (req.term ≡ s.node.current_term)
        × (req.leader_id ≡ s.node.id)
        × ((req.entries ≡ [])
            ⊎ ((s.node.snapshot_index ≤ req.prev_log_index)
                × (req.prev_log_index ≤ last_log_index s.node)
                × (req.entries ≡ drop (req.prev_log_index - s.node.snapshot_index) s.node.log)))
  unfolding build_append_entries
  build_cases req built = ground arith

  build_term_at_snapshot :
      (req : AppendEntriesRequest)
      → (build_append_entries peer s).0 ≡ ok req
      → req.prev_log_index ≡ s.node.snapshot_index
      → req.prev_log_term ≡ s.node.snapshot_term
  unfolding build_append_entries
  build_term_at_snapshot req built here = ground arith

  build_term_later :
      (req : AppendEntriesRequest) (e : LogEntry)
      → (build_append_entries peer s).0 ≡ ok req
      → s.node.snapshot_index < req.prev_log_index
      → entry_at s.node req.prev_log_index ≡ some e
      → req.prev_log_term ≡ e.term
  unfolding build_append_entries
  build_term_later req e built later read = ground arith

  build_term :
      (req : AppendEntriesRequest)
      → (build_append_entries peer s).0 ≡ ok req
      → s.node.snapshot_index ≤ req.prev_log_index
      → req.prev_log_index ≤ last_log_index s.node
      → req.prev_log_term ≡ log_term s.node req.prev_log_index
  build_term req built above within =
      elim (Bool-cases (s.node.snapshot_index == req.prev_log_index)) [
        | inl here ↦
            let e : req.prev_log_index ≡ s.node.snapshot_index = ground arith in
            build_term_at_snapshot req built e ∙ sym (ap (log_term s.node) e ∙ log_term-base s.node)
        | inr apart ↦
            let later : s.node.snapshot_index < req.prev_log_index = ground arith in
            let (e, read) = entry_at-some s.node req.prev_log_index later within in
            build_term_later req e built later read
            ∙ sym (log_term-entry_at s.node req.prev_log_index e read)
      ]

  -- The request that a leader builds is a piece of its log.
  pub build-Chain :
      (K : Known) (req : AppendEntriesRequest)
      → (build_append_entries peer s).0 ≡ ok req
      → NodeChain K s.node
      → Chain K req.prev_log_index req.prev_log_term req.entries
  unfolding log_term
  build-Chain K req built own =
      let (term, id, cases) = build_cases req built in
      elim cases [
        | inl empty ↦ rw empty (unfold Chain in tt)
        | inr (above, within, entries) ↦
            let k = req.prev_log_index - s.node.snapshot_index in
            let here : s.node.snapshot_index + k ≡ req.prev_log_index = omega arith in
            rw (entries, build_term req built above within)
              (rw here at
                (Chain-drop K s.node.snapshot_index s.node.snapshot_term k s.node.log own))
      ]

module _ {S : Type 0} (peer : String) (s : Replica S) where
  abbrev marked : Replica S
  marked = record s {
    node = record s.node { replicate_in_flight = update s.node.replicate_in_flight peer true };
  }

  requested_built :
      (req : AppendEntriesRequest) (leads : Bool)
      → (append_entries_request_for_peer peer s).0 ≡ ok (some req, leads)
      → (s.node.role ≡ leader) × ((build_append_entries peer marked).0 ≡ ok req)
  unfolding append_entries_request_for_peer
  requested_built req leads sent = ground arith

  -- A request that is sent comes from a leader, in its term, and is a piece of its log.
  pub request-Chain :
      (K : Known) (req : AppendEntriesRequest) (leads : Bool)
      → (append_entries_request_for_peer peer s).0 ≡ ok (some req, leads)
      → NodeChain K s.node
      → (s.node.role ≡ leader)
        × (req.term ≡ s.node.current_term)
        × (req.leader_id ≡ s.node.id)
        × Chain K req.prev_log_index req.prev_log_term req.entries
  request-Chain K req leads sent own =
      let (role, built) = requested_built req leads sent in
      let (term, id, rest) = build_cases peer marked req built in
      (role, term, id, build-Chain peer marked K req built own)
