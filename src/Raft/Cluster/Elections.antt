-- ===== src/Raft/Cluster/Elections.antt =====
-- At most one candidate of a term collects the votes of a majority.
use consensus_lab.Base.{
  ℕ, ◌+◌, ◌≤◌, ◌<◌, ◌≡◌, ◌≢◌, sym, inl, inr, refl, true, String, Bool, ◌++◌, List, [], ◌∷◌, length,
  eq_iff, Bool-cases, arith,
}
use consensus_lab.Raft.Types.{RequestVoteRequest, RequestVoteResponse}
use consensus_lab.Raft.Storage.{Storage}
use consensus_lab.Raft.Node.{Node, quorum_size}
use consensus_lab.Raft.Action.{Replica, ok}
use consensus_lab.Raft.Vote.{handle_request_vote}
use consensus_lab.Raft.Vote.Safety.{granted_recorded}
use consensus_lab.Raft.Steps.{Event, request_vote, after, run}
use consensus_lab.Raft.Steps.Terms.{TermOrder, after-TermOrder}
use consensus_lab.Raft.Cluster.{holds_vote, count, votes_in_run, votes_of}

-- Two sets of more than half the members meet.
pub count_common :
    (p q : String → Bool) (members : List String)
    → length members < count p members + count q members
    → (m : String) × (p m ≡ true) × (q m ≡ true)
unfolding count
count_common p q [] many = absurd (omega arith)
count_common p q (m ∷ members) many = elim (Bool-cases (p m)) [
  | inl held ↦ elim (Bool-cases (q m)) [
    | inl held' ↦ (m, held, held')
    | inr other' ↦ count_common p q members (ground arith)
  ]
  | inr other ↦ count_common p q members (ground arith)
]

-- A vote that a node held earlier is the only one of the term that it can hold later.
holds_vote_same :
    (term : ℕ) (a b : String) (earlier later : Node)
    → TermOrder earlier later
    → a ≢ ""
    → holds_vote term a earlier ≡ true
    → holds_vote term b later ≡ true
    → a ≡ b
unfolding holds_vote
holds_vote_same term a b earlier later order named first second =
    ground (arith, eq_iff earlier.voted_for a, eq_iff later.voted_for b)

module _ {S : Type 0} (st : Storage S) where
  TermOrder-step :
      (n : Node) (e : Event) (s : Replica S) → TermOrder n s.node → TermOrder n (after st e s).node
  TermOrder-step n e s order = ground (arith, after-TermOrder st e s)

  later_vote :
      (term : ℕ) (a b : String) (n : Node) (es : List Event) (s : Replica S)
      → TermOrder n s.node
      → a ≢ ""
      → holds_vote term a n ≡ true
      → votes_in_run st term b es s ≡ true
      → a ≡ b
  unfolding votes_in_run
  later_vote term a b n [] s order named first second =
      holds_vote_same term a b n s.node order named first second
  later_vote term a b n (e ∷ es) s order named first second =
      elim (Bool-cases (holds_vote term b s.node)) [
        | inl now ↦ holds_vote_same term a b n s.node order named first now
        | inr other ↦
            later_vote term a b n es (after st e s) (TermOrder-step n e s order) named first
              (ground arith)
      ]

  -- A replica votes for one candidate in a term of its run.
  votes_in_run_same :
      (term : ℕ) (a b : String) (es : List Event) (s : Replica S)
      → a ≢ ""
      → b ≢ ""
      → votes_in_run st term a es s ≡ true
      → votes_in_run st term b es s ≡ true
      → a ≡ b
  unfolding votes_in_run
  votes_in_run_same term a b [] s named named' first second =
      holds_vote_same term a b s.node s.node (inr (refl, inr refl)) named first second
  votes_in_run_same term a b (e ∷ es) s named named' first second =
      elim (Bool-cases (holds_vote term a s.node)) [
        | inl now ↦ later_vote term a b s.node (e ∷ es) s (inr (refl, inr refl)) named now second
        | inr other ↦ elim (Bool-cases (holds_vote term b s.node)) [
          | inl now ↦
              sym (later_vote term b a s.node (e ∷ es) s (inr (refl, inr refl)) named' now first)
          | inr other' ↦
              votes_in_run_same term a b es (after st e s) named named' (ground arith)
                (ground arith)
        ]
      ]

  -- At most one candidate of a term gets the votes of a quorum of a configuration's members, in
  -- whatever way the members' runs go, short of a restart; the ids of the two candidates are not
  -- empty.
  pub one_candidate_per_term :
      (events : String → List Event) (initial : String → Replica S) (n : Node) (term : ℕ)
      (a b : String)
      → a ≢ ""
      → b ≢ ""
      → quorum_size n ≤ votes_of st events initial term a n.config.members
      → quorum_size n ≤ votes_of st events initial term b n.config.members
      → a ≡ b
  unfolding votes_of quorum_size
  one_candidate_per_term events initial n term a b named named' many many' =
      let (m, held, held') =
        count_common (λ m. votes_in_run st term a (events m) (initial m))
          (λ m. votes_in_run st term b (events m) (initial m)) n.config.members (omega arith) in
      votes_in_run_same term a b (events m) (initial m) named named' held held'

  votes_in_run-holds_vote :
      (term : ℕ) (id : String) (es : List Event) (s : Replica S)
      → holds_vote term id s.node ≡ true
      → votes_in_run st term id es s ≡ true
  unfolding votes_in_run
  votes_in_run-holds_vote term id [] s held = held
  votes_in_run-holds_vote term id (e ∷ es) s held = rw held refl

  granted-holds_vote :
      (req : RequestVoteRequest) (s : Replica S) (resp : RequestVoteResponse)
      → (handle_request_vote st req s).0 ≡ ok resp
      → resp.vote_granted ≡ true
      → holds_vote req.term req.candidate_id (handle_request_vote st req s).1.node ≡ true
  unfolding holds_vote
  granted-holds_vote req s resp returned granted =
      let n = (handle_request_vote st req s).1.node in
      ground (
        arith,
        granted_recorded st req s resp returned granted,
        eq_iff n.voted_for req.candidate_id,
      )

  -- A vote that a replica grants in its run is counted for the candidate of the request.
  pub granted-votes_in_run :
      (before later : List Event) (req : RequestVoteRequest) (s : Replica S)
      (resp : RequestVoteResponse)
      → (handle_request_vote st req (run st before s)).0 ≡ ok resp
      → resp.vote_granted ≡ true
      → votes_in_run st req.term req.candidate_id (before ++ request_vote req ∷ later) s ≡ true
  unfolding run votes_in_run after
  granted-votes_in_run [] later req s resp returned granted = ground (
    arith,
    votes_in_run-holds_vote req.term req.candidate_id later (handle_request_vote st req s).1
        (granted-holds_vote req s resp returned granted),
  )
  granted-votes_in_run (e ∷ before) later req s resp returned granted =
      ground (arith, granted-votes_in_run before later req (after st e s) resp returned granted)
