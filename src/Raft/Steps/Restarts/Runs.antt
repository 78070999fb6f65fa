-- ===== src/Raft/Steps/Restarts/Runs.antt =====
-- Runs of a replica that is restarted from its storage in between.
use consensus_lab.Base.{◌≡◌, ◌≢◌, inr, refl, sym, ap, true, String, List, [], ◌∷◌, arith}
use consensus_lab.Raft.Types.{HardState, PersistentState, RequestVoteRequest, RequestVoteResponse}
use consensus_lab.Raft.Storage.{Storage, IsDurable, IsAtomic}
use consensus_lab.Raft.Node.{Node, hard_state}
use consensus_lab.Raft.Action.{Replica, Outcome, ok, err, panic}
use consensus_lab.Raft.Vote.{handle_request_vote}
use consensus_lab.Raft.Vote.Safety.{granted_durable}
use consensus_lab.Raft.Restart.{new_node}
use consensus_lab.Raft.Restart.Vote.{restored_vote, new_node_lem}
use consensus_lab.Raft.Steps.{
  Event, request_vote, append_entries, install_snapshot, command, compaction, timeout, start,
  vote_answered, append_for, install_for, append_answered, install_answered, pending_taken,
  entry_taken, pending_sent, command_sent, after,
}
use consensus_lab.Raft.Election.{election_timeout}
use consensus_lab.Raft.Apply.{take_pending, snapshot_sent, take_entry, entry_sent}
use consensus_lab.Raft.Replicate.{
  append_entries_request_for_peer, install_snapshot_request_for_peer,
}
use consensus_lab.Raft.Steps.Restarts.{Vouched, Durably, Durably-trans}
use consensus_lab.Raft.Steps.Restarts.Handlers.{
  election, vote, compacted, vote_answer, install_answer,
}
use consensus_lab.Raft.Steps.Restarts.Followers.{install_handled, append_handled}
use consensus_lab.Raft.Steps.Restarts.Leaders.{new_command, append_answer}

-- what happens to a replica: an event, or the end of its process and a start with the given id and peers
pub data Happening : Type 0 where
  event : Event → Happening
  restart : String → List String → Happening

-- A replica that does not start stays down: nothing of it changes.
abbrev pub started : {S : Type 0} → Outcome Node → Replica S → Replica S
started (ok n) s = record s { node = n }
started (err e) s = s
started panic s = s

module _ {S : Type 0} (st : Storage S) where
  unfoldable pub happen : Happening → Replica S → Replica S
  unfolding after
  happen (event e) s = after st e s
  happen (restart id peers) s = started (new_node st id peers s.disk) s

  unfoldable pub run_on : List Happening → Replica S → Replica S
  unfolding happen
  run_on [] s = s
  run_on (h ∷ hs) s = run_on hs (happen h s)

module _ {S : Type 0} (st : Storage S) (stored : S → PersistentState) (s : Replica S) where
  requested :
      (peer : String)
      → Vouched stored s
      → Durably stored s (append_entries_request_for_peer peer s).1
  unfolding append_entries_request_for_peer
  requested peer base = ground arith

  snapshot_requested :
      (peer : String)
      → Vouched stored s
      → Durably stored s (install_snapshot_request_for_peer peer s).1
  unfolding install_snapshot_request_for_peer
  snapshot_requested peer base = ground arith

  entry : Vouched stored s → Durably stored s (take_entry s).1
  unfolding take_entry
  entry base = ground arith

module _ {S : Type 0} (st : Storage S) (stored : S → PersistentState) where
  after-Durably :
      (e : Event) (s : Replica S)
      → IsDurable st stored
      → IsAtomic st stored
      → Vouched stored s
      → Durably stored s (after st e s)
  unfolding after election_timeout take_pending snapshot_sent entry_sent
  after-Durably (request_vote req) s durable atomic base = vote st stored s req durable atomic base
  after-Durably (append_entries now req) s durable atomic base =
      append_handled st stored now req s durable atomic base
  after-Durably (install_snapshot req) s durable atomic base =
      install_handled st stored req s durable atomic base
  after-Durably (command now cmd) s durable atomic base =
      new_command st stored now cmd s durable atomic base
  after-Durably (compaction index bytes) s durable atomic base =
      compacted st stored s index bytes durable atomic base
  after-Durably timeout s durable atomic base = (base, inr (refl, inr refl))
  after-Durably start s durable atomic base = election st stored s durable atomic base
  after-Durably (vote_answered votes majority resp) s durable atomic base =
      vote_answer st stored s votes majority resp durable atomic base
  after-Durably (append_for peer) s durable atomic base = requested st stored s peer base
  after-Durably (install_for peer) s durable atomic base = snapshot_requested st stored s peer base
  after-Durably (append_answered now peer req answer) s durable atomic base =
      append_answer st stored now peer req answer s durable atomic base
  after-Durably (install_answered peer req answer) s durable atomic base =
      install_answer st stored s peer req answer durable atomic base
  after-Durably pending_taken s durable atomic base = (base, inr (refl, inr refl))
  after-Durably entry_taken s durable atomic base = entry st stored s base
  after-Durably (pending_sent now snap) s durable atomic base = (base, inr (refl, inr refl))
  after-Durably (command_sent now) s durable atomic base = (base, inr (refl, inr refl))

  -- A restart brings the stored vote back.
  pub happen-Durably :
      (h : Happening) (s : Replica S)
      → IsDurable st stored
      → IsAtomic st stored
      → Vouched stored s
      → Durably stored s (happen st h s)
  unfolding happen
  happen-Durably (event e) s durable atomic base = after-Durably e s durable atomic base
  happen-Durably (restart id peers) s durable atomic base =
      let (term, voted) = restored_vote id peers (stored s.disk) in
      rw (new_node_lem st stored id peers s.disk durable)
        (inr (sym term, inr voted), inr (refl, inr refl))

  pub run_on-Durably :
      (hs : List Happening) (s : Replica S)
      → IsDurable st stored
      → IsAtomic st stored
      → Vouched stored s
      → Durably stored s (run_on st hs s)
  unfolding run_on
  run_on-Durably [] s durable atomic base = (base, inr (refl, inr refl))
  run_on-Durably (h ∷ hs) s durable atomic base =
      let step = happen-Durably h s durable atomic base in
      Durably-trans stored s (happen st h s) (run_on st hs (happen st h s)) step
        (run_on-Durably hs (happen st h s) durable atomic step.0)

  -- On a storage whose calls take effect when they return no error, and have no effect when they
  -- return one, a replica grants at most one candidate its vote in a term, whatever happens between
  -- two granted requests of the term, restarts included, provided the first candidate's id is not
  -- empty.
  pub one_vote_across_restarts :
      (s : Replica S) (hs : List Happening) (first second : RequestVoteRequest)
      (answer answer' : RequestVoteResponse)
      → IsDurable st stored
      → IsAtomic st stored
      → first.candidate_id ≢ ""
      → second.term ≡ first.term
      → (handle_request_vote st first s).0 ≡ ok answer
      → answer.vote_granted ≡ true
      → (handle_request_vote st second (run_on st hs (handle_request_vote st first s).1)).0
        ≡ ok answer'
      → answer'.vote_granted ≡ true
      → second.candidate_id ≡ first.candidate_id
  unfolding hard_state
  one_vote_across_restarts s hs first second answer answer' durable atomic named same r g r' g' =
      let a = (handle_request_vote st first s).1 in
      let t = run_on st hs a in
      let (saved, vote_a, term_a, newer, current) =
        granted_durable st first s stored answer durable r g in
      let (saved', vote_b, term_b, newer', current') =
        granted_durable st second t stored answer' durable r' g' in
      let vouched : Vouched stored a = inr (
        ap (λ (h : HardState). h.current_term) saved,
        inr (sym (ap (λ (h : HardState). h.voted_for) saved)),
      ) in
      let kept = run_on-Durably hs a durable atomic vouched in
      let last = vote st stored t second durable atomic kept.0 in
      let (below, whole) = Durably-trans stored a t (handle_request_vote st second t).1 kept last in
      ground arith
