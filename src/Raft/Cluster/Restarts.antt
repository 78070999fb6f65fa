-- ===== src/Raft/Cluster/Restarts.antt =====
-- Elections among replicas that are restarted in between. What counts is the vote on the storage.
use consensus_lab.Base.{
  ℕ, ◌≤◌, ◌≡◌, ◌≢◌, sym, inl, inr, refl, true, String, str_eq, ◌==◌, Bool, ◌&&◌, ◌||◌, ◌++◌, List,
  [], ◌∷◌, eq_iff, Bool-cases, arith,
}
use consensus_lab.Raft.Types.{HardState, PersistentState, RequestVoteRequest, RequestVoteResponse}
use consensus_lab.Raft.Storage.{Storage, IsDurable, IsAtomic}
use consensus_lab.Raft.Node.{Node, quorum_size}
use consensus_lab.Raft.Action.{Replica, ok}
use consensus_lab.Raft.Vote.{handle_request_vote}
use consensus_lab.Raft.Vote.Safety.{granted_durable}
use consensus_lab.Raft.Steps.{request_vote, after}
use consensus_lab.Raft.Steps.Restarts.{Stands, Vouched}
use consensus_lab.Raft.Steps.Restarts.Runs.{Happening, event, happen, run_on, happen-Durably}
use consensus_lab.Raft.Cluster.{count}
use consensus_lab.Raft.Cluster.Elections.{count_common}

-- the storage has the vote of the term for the candidate
unfoldable pub has_vote : ℕ → String → HardState → Bool
has_vote term id h = h.current_term == term && str_eq h.voted_for id

abbrev pub KeptBy : HardState → HardState → Type 0
KeptBy h k = Stands h.current_term h.voted_for k.current_term k.voted_for

has_vote_same :
    (term : ℕ) (a b : String) (h k : HardState)
    → KeptBy h k
    → a ≢ ""
    → has_vote term a h ≡ true
    → has_vote term b k ≡ true
    → a ≡ b
unfolding has_vote
has_vote_same term a b h k order named first second =
    ground (arith, eq_iff h.voted_for a, eq_iff k.voted_for b)

module _ {S : Type 0} (st : Storage S) (stored : S → PersistentState) where
  -- somewhere in its run the replica's storage has the vote
  unfoldable pub stored_in_run : ℕ → String → List Happening → Replica S → Bool
  unfolding has_vote
  stored_in_run term id [] s = has_vote term id (stored s.disk).hard
  stored_in_run term id (h ∷ hs) s =
      has_vote term id (stored s.disk).hard || stored_in_run term id hs (happen st h s)

  unfoldable pub stored_votes :
      (String → List Happening) → (String → Replica S) → ℕ → String → List String → ℕ
  stored_votes runs initial term id = count (λ m. stored_in_run term id (runs m) (initial m))

  later_stored :
      (term : ℕ) (a b : String) (h : HardState) (hs : List Happening) (s : Replica S)
      → IsDurable st stored
      → IsAtomic st stored
      → Vouched stored s
      → KeptBy h (stored s.disk).hard
      → a ≢ ""
      → has_vote term a h ≡ true
      → stored_in_run term b hs s ≡ true
      → a ≡ b
  unfolding stored_in_run
  later_stored term a b h [] s durable atomic base order named first second =
      has_vote_same term a b h (stored s.disk).hard order named first second
  later_stored term a b h (e ∷ hs) s durable atomic base order named first second =
      elim (Bool-cases (has_vote term b (stored s.disk).hard)) [
        | inl now ↦ has_vote_same term a b h (stored s.disk).hard order named first now
        | inr other ↦
            let step = happen-Durably st stored e s durable atomic base in
            let order' : KeptBy h (stored (happen st e s).disk).hard = ground (arith, step.1) in
            later_stored term a b h hs (happen st e s) durable atomic step.0 order' named first
              (ground arith)
      ]

  -- A storage has the vote for one candidate in a term of a run.
  stored_in_run_same :
      (term : ℕ) (a b : String) (hs : List Happening) (s : Replica S)
      → IsDurable st stored
      → IsAtomic st stored
      → Vouched stored s
      → a ≢ ""
      → b ≢ ""
      → stored_in_run term a hs s ≡ true
      → stored_in_run term b hs s ≡ true
      → a ≡ b
  unfolding stored_in_run
  stored_in_run_same term a b [] s durable atomic base named named' first second =
      has_vote_same term a b (stored s.disk).hard (stored s.disk).hard (inr (refl, inr refl)) named
        first second
  stored_in_run_same term a b (e ∷ hs) s durable atomic base named named' first second =
      let own = (stored s.disk).hard in
      elim (Bool-cases (has_vote term a own)) [
        | inl now ↦
            later_stored term a b own (e ∷ hs) s durable atomic base (inr (refl, inr refl)) named
              now second
        | inr other ↦ elim (Bool-cases (has_vote term b own)) [
          | inl now ↦ sym (
              later_stored term b a own (e ∷ hs) s durable atomic base (inr (refl, inr refl)) named'
                now first)
          | inr other' ↦
              stored_in_run_same term a b hs (happen st e s) durable atomic
                (happen-Durably st stored e s durable atomic base).0 named named' (ground arith)
                (ground arith)
        ]
      ]

  -- On storages whose calls take effect when they return no error, and have no effect when they
  -- return one, at most one candidate of a term has the votes of a quorum of a configuration's
  -- members on their storages, in whatever way the members' runs go, restarts included; the members
  -- start with a stored vote that stands in the node, and the ids of the two candidates are not
  -- empty.
  pub one_candidate_across_restarts :
      (runs : String → List Happening) (initial : String → Replica S) (n : Node) (term : ℕ)
      (a b : String)
      → IsDurable st stored
      → IsAtomic st stored
      → ((m : String) → Vouched stored (initial m))
      → a ≢ ""
      → b ≢ ""
      → quorum_size n ≤ stored_votes runs initial term a n.config.members
      → quorum_size n ≤ stored_votes runs initial term b n.config.members
      → a ≡ b
  unfolding stored_votes quorum_size
  one_candidate_across_restarts runs initial n term a b durable atomic base named named' many
        many' =
      let (m, held, held') =
        count_common (λ m. stored_in_run term a (runs m) (initial m))
          (λ m. stored_in_run term b (runs m) (initial m)) n.config.members (omega arith) in
      stored_in_run_same term a b (runs m) (initial m) durable atomic (base m) named named' held
        held'

  stored_in_run-has_vote :
      (term : ℕ) (id : String) (hs : List Happening) (s : Replica S)
      → has_vote term id (stored s.disk).hard ≡ true
      → stored_in_run term id hs s ≡ true
  unfolding stored_in_run
  stored_in_run-has_vote term id [] s held = held
  stored_in_run-has_vote term id (h ∷ hs) s held = rw held refl

  -- A vote that is granted in the run of a replica with a durable storage is counted for the
  -- candidate of the request.
  pub granted-stored_in_run :
      (before later : List Happening) (req : RequestVoteRequest) (s : Replica S)
      (resp : RequestVoteResponse)
      → IsDurable st stored
      → (handle_request_vote st req (run_on st before s)).0 ≡ ok resp
      → resp.vote_granted ≡ true
      → stored_in_run req.term req.candidate_id (before ++ event (request_vote req) ∷ later) s
        ≡ true
  unfolding run_on stored_in_run happen after has_vote
  granted-stored_in_run [] later req s resp durable returned granted =
      let t = (handle_request_vote st req s).1 in
      let (saved, vote, term, newer, current) =
        granted_durable st req s stored resp durable returned granted in
      let held : has_vote req.term req.candidate_id (stored t.disk).hard ≡ true =
        ground (arith, eq_iff (stored t.disk).hard.voted_for req.candidate_id) in
      ground (arith, stored_in_run-has_vote req.term req.candidate_id later t held)
  granted-stored_in_run (h ∷ before) later req s resp durable returned granted =
      ground (
        arith,
        granted-stored_in_run before later req (happen st h s) resp durable returned granted,
      )
