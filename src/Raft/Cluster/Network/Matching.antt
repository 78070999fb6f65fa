-- ===== src/Raft/Cluster/Network/Matching.antt =====
-- Log matching: what the logs of the members have in common.
use consensus_lab.Base.{
  ℕ, ◌+◌, ◌≤◌, ◌<◌, ◌≡◌, ◌≢◌, ◌⊎◌, inl, inr, sym, ap, ◌∙◌, String, str_eq, eq_iff, Bool-cases, List,
  [], ◌∷◌, arith,
}
use consensus_lab.Raft.Types.{LogEntry, leader}
use consensus_lab.Raft.Node.{Node, update, last_log_index, last_log_term}
use consensus_lab.Raft.Action.{Replica}
use consensus_lab.Raft.Chain.{Known, Chain, NodeChain, Chain-weaken}
use consensus_lab.Raft.Chain.Events.{LeadsOn}
use consensus_lab.Raft.Cluster.Network.{Sent, Network, WasSent}

-- an entry that a leader has put at an index of its log, after an entry of a term
pub record Cell : Type 0 where
  pub index : ℕ
  pub prev_term : ℕ
  pub entry : LogEntry

unfoldable pub Recorded : List Cell → Known
Recorded [] i p e = ⊥
Recorded (c ∷ cells) i p e =
    (c ≡ record { index = i; prev_term = p; entry = e }) ⊎ Recorded cells i p e

-- An index and a term tell the entry and the term of the one before it.
abbrev pub IsFunctional : List Cell → Type 0
IsFunctional cells =
    (i p q : ℕ) (e d : LogEntry)
    → Recorded cells i p e
    → Recorded cells i q d
    → e.term ≡ d.term
    → (p ≡ q) × (e ≡ d)

-- The node has seen a newer term, or leads the term with a log that reaches to the index.
abbrev pub Covers : Node → ℕ → ℕ → Type 0
Covers n t i =
    (t < n.current_term) ⊎ ((n.current_term ≡ t) × (n.role ≡ leader) × (i ≤ last_log_index n))

-- The requests are pieces of leaders' logs.
abbrev pub AreRecorded : (ℕ → String) → List Cell → List Sent → Type 0
AreRecorded leads cells sent =
    (r : Sent)
    → WasSent r sent
    → (r.sender ≡ leads r.request.term)
      × Chain (Recorded cells) r.request.prev_log_index r.request.prev_log_term r.request.entries

pub record IsMatched {S : Type 0} (leads : ℕ → String) (cells : List Cell) (x : Network S)
    : Type 0 where
  pub functional : IsFunctional cells
  pub chains : (m : String) → NodeChain (Recorded cells) (x.replica m).node
  pub requests : AreRecorded leads cells x.sent
  pub covered :
      (i p : ℕ) (e : LogEntry)
      → Recorded cells i p e
      → Covers (x.replica (leads e.term)).node e.term i

abbrev pub Carries : Node → Node → Type 0
Carries a b = (t i : ℕ) → Covers a t i → Covers b t i

pub Carries-LeadsOn : (a b : Node) → LeadsOn a b → last_log_index a ≤ last_log_index b → Carries a b
Carries-LeadsOn a b on longer t i (inl newer) = inl (omega (arith, on))
Carries-LeadsOn a b (inl newer') longer t i (inr (own, role, within)) = inl (omega arith)
Carries-LeadsOn a b (inr (same, stays)) longer t i (inr (own, role, within)) =
    inr (omega arith, stays role, omega arith)

-- A node that does not lead covers only older terms.
pub Carries-ne-leader :
    (a b : Node) → a.role ≢ leader → a.current_term ≤ b.current_term → Carries a b
Carries-ne-leader a b apart later t i (inl newer) = inl (omega arith)
Carries-ne-leader a b apart later t i (inr (own, role, within)) = absurd (apart role)

module _ {S : Type 0} where
  update_cases :
      (P : Replica S → Type 0) (f : String → Replica S) (m k : String) (t : Replica S)
      → P (f k)
      → (k ≡ m → P t)
      → P (update f m t k)
  update_cases P f m k t old new = elim (Bool-cases (str_eq k m)) [
    | inl here ↦ rw here (new ((eq_iff k m).0 here))
    | inr other ↦ rw other old
  ]

  -- An event that records no new entry.
  pub settled :
      (leads : ℕ → String) (cells : List Cell) (x : Network S) (m : String) (t : Replica S)
      (sent : List Sent)
      → IsMatched leads cells x
      → NodeChain (Recorded cells) t.node
      → Carries (x.replica m).node t.node
      → AreRecorded leads cells sent
      → IsMatched leads cells (record { replica = update x.replica m t; sent = sent })
  settled leads cells x m t sent good own carries requests = record {
    functional = good.functional;
    chains = λ k.
        update_cases (λ r. NodeChain (Recorded cells) r.node) x.replica m k t (good.chains k)
          (λ here. own);
    requests = requests;
    covered = λ i p e known.
        update_cases (λ r. Covers r.node e.term i) x.replica m (leads e.term) t
          (good.covered i p e known)
          (λ here. carries e.term i (rw here at (good.covered i p e known)));
  }

-- the cell of an entry that is put behind a node's log
abbrev pub next_cell : Node → LogEntry → Cell
next_cell n e = record { index = last_log_index n + 1; prev_term = last_log_term n; entry = e }

IsFunctional-next :
    (n : Node) (new : LogEntry) (cells : List Cell)
    → n.current_term ≡ new.term
    → ((i p : ℕ) (e : LogEntry) → Recorded cells i p e → e.term ≡ new.term → i ≤ last_log_index n)
    → IsFunctional cells
    → IsFunctional (next_cell n new ∷ cells)
unfolding Recorded
IsFunctional-next n new cells own short old i p q e d (inl a) (inl b) same = (cc, cc)
IsFunctional-next n new cells own short old i p q e d (inl a) (inr b) same =
    let here : last_log_index n + 1 ≡ i = ap (λ (c : Cell). c.index) a in
    let it : new ≡ e = ap (λ (c : Cell). c.entry) a in
    let term : d.term ≡ new.term = cc in absurd (omega (arith, here, short i q d b term))
IsFunctional-next n new cells own short old i p q e d (inr a) (inl b) same =
    let here : last_log_index n + 1 ≡ i = ap (λ (c : Cell). c.index) b in
    let it : new ≡ d = ap (λ (c : Cell). c.entry) b in
    let term : e.term ≡ new.term = cc in absurd (omega (arith, here, short i p e a term))
IsFunctional-next n new cells own short old i p q e d (inr a) (inr b) same = old i p q e d a b same

Covers-short : (n : Node) (t i : ℕ) → n.current_term ≡ t → Covers n t i → i ≤ last_log_index n
Covers-short n t i own (inl newer) = absurd (omega arith)
Covers-short n t i own (inr (same, role, within)) = within

Covers-next :
    (n after : Node) (t : ℕ)
    → n.role ≡ leader
    → n.current_term ≡ t
    → LeadsOn n after
    → last_log_index after ≡ last_log_index n + 1
    → Covers after t (last_log_index n + 1)
Covers-next n after t role own (inl newer) longer = inl (omega arith)
Covers-next n after t role own (inr (same, stays)) longer =
    inr (same ∙ own, stays role, omega arith)

module _ {S : Type 0} where
  update_same :
      (P : Replica S → Type 0) (f : String → Replica S) (m k : String) (t : Replica S)
      → k ≡ m
      → P t
      → P (update f m t k)
  update_same P f m k t here new = rw ((eq_iff k m).1 here) new

  covered_next :
      (leads : ℕ → String) (cells : List Cell) (x : Network S) (m : String) (t : Replica S)
      (new : LogEntry)
      → IsMatched leads cells x
      → (x.replica m).node.role ≡ leader
      → leads (x.replica m).node.current_term ≡ m
      → new.term ≡ (x.replica m).node.current_term
      → LeadsOn (x.replica m).node t.node
      → last_log_index t.node ≡ last_log_index (x.replica m).node + 1
      → (i p : ℕ) (e : LogEntry) → Recorded (next_cell (x.replica m).node new ∷ cells) i p e
      → Covers (update x.replica m t (leads e.term)).node e.term i
  unfolding Recorded
  covered_next leads cells x m t new good role own term on longer i p e (inl c) =
      let here : last_log_index (x.replica m).node + 1 ≡ i = ap (λ (c : Cell). c.index) c in
      let it : new ≡ e = ap (λ (c : Cell). c.entry) c in
      let holder : leads e.term ≡ m =
        ap (λ (d : LogEntry). leads d.term) (sym it) ∙ ap leads term ∙ own in
      let own_term : (x.replica m).node.current_term ≡ e.term =
        sym term ∙ ap (λ (d : LogEntry). d.term) it in
      update_same (λ r. Covers r.node e.term i) x.replica m (leads e.term) t holder
        (rw here at (Covers-next (x.replica m).node t.node e.term role own_term on longer))
  covered_next leads cells x m t new good role own term on longer i p e (inr old) =
      let n = (x.replica m).node in
      update_cases (λ r. Covers r.node e.term i) x.replica m (leads e.term) t
        (good.covered i p e old)
        (λ here.
          Carries-LeadsOn n t.node on (omega (arith, longer)) e.term i
            (rw here at (good.covered i p e old)))

  -- A leader puts an entry of its term behind its log.
  pub grown :
      (leads : ℕ → String) (cells : List Cell) (x : Network S) (m : String) (t : Replica S)
      (new : LogEntry)
      → IsMatched leads cells x
      → (x.replica m).node.role ≡ leader
      → leads (x.replica m).node.current_term ≡ m
      → new.term ≡ (x.replica m).node.current_term
      → NodeChain (Recorded (next_cell (x.replica m).node new ∷ cells)) t.node
      → LeadsOn (x.replica m).node t.node
      → last_log_index t.node ≡ last_log_index (x.replica m).node + 1
      → IsMatched leads
          (next_cell (x.replica m).node new ∷ cells)
          (record { replica = update x.replica m t; sent = x.sent })
  unfolding Recorded
  grown leads cells x m t new good role own term chain on longer =
      let n = (x.replica m).node in
      let more : List Cell = next_cell n new ∷ cells in
      let weaken = λ (base p : ℕ) (es : List LogEntry) (known : Chain (Recorded cells) base p es).
        Chain-weaken (Recorded cells) (Recorded more) base p es (λ i q e old. inr old) known in
      let short =
        λ (i p : ℕ) (e : LogEntry) (known : Recorded cells i p e) (same : e.term ≡ new.term).
          let holder : leads e.term ≡ m = ap leads (same ∙ term) ∙ own in
          Covers-short n e.term i (sym (same ∙ term)) (rw holder at (good.covered i p e known)) in
      record {
        functional = IsFunctional-next n new cells (sym term) short good.functional;
        chains = λ k.
            update_cases (λ r. NodeChain (Recorded more) r.node) x.replica m k t
              (weaken _ _ _ (good.chains k)) (λ here. chain);
        requests = λ r was. ((good.requests r was).0, weaken _ _ _ (good.requests r was).1);
        covered = covered_next leads cells x m t new good role own term on longer;
      }
