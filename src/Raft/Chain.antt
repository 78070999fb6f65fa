-- ===== src/Raft/Chain.antt =====
-- Logs as chains: what is known of each entry, its index and the term of the entry before it.
pub mod Linked
pub mod Merge
pub mod Append
pub mod Grow
pub mod Events
use consensus_lab.Base.{
  ℕ, zero, suc, ◌+◌, ◌-◌, ◌≤◌, ◌<◌, ◌≡◌, refl, sym, ap, ◌∙◌, some, List, [], ◌∷◌, ◌++◌, length,
  take, drop, get_elem?, leb, Bool-cases, inl, inr, arith,
}
use consensus_lab.Raft.Types.{LogEntry}
use consensus_lab.Raft.Node.{Node, last_term_or, last_log_term, last_log_index, entry_at}

-- What holds of an index, the term of the entry before it, and the entry at the index.
abbrev pub Known : Type 1
Known = ℕ → ℕ → LogEntry → Type 0

-- `K` holds of every entry of a list that follows the index `base`, whose entry has the term `p`.
unfoldable pub Chain : Known → ℕ → ℕ → List LogEntry → Type 0
Chain K base p [] = Unit
Chain K base p (e ∷ es) = K (base + 1) p e × Chain K (base + 1) e.term es

abbrev pub NodeChain : Known → Node → Type 0
NodeChain K n = Chain K n.snapshot_index n.snapshot_term n.log

-- the term of the log's entry at an index that is not before the snapshot
unfoldable pub log_term : Node → ℕ → ℕ
unfolding last_term_or
log_term n i = last_term_or n.snapshot_term (take (i - n.snapshot_index) n.log)

pub Chain-append :
    (K : Known) (base p : ℕ) (es fs : List LogEntry)
    → Chain K base p es
    → Chain K (base + length es) (last_term_or p es) fs
    → Chain K base p (es ++ fs)
unfolding Chain last_term_or
Chain-append K base p [] fs own more = let e : base + 0 ≡ base = omega arith in rw e at more
Chain-append K base p (e ∷ es) fs own more =
    let shift : base + suc (length es) ≡ base + 1 + length es = omega arith in
    (own.0, Chain-append K (base + 1) e.term es fs own.1 (rw shift at more))

pub Chain-take :
    (K : Known) (base p k : ℕ) (es : List LogEntry) → Chain K base p es → Chain K base p (take k es)
unfolding Chain
Chain-take K base p zero es own = tt
Chain-take K base p (suc k) [] own = tt
Chain-take K base p (suc k) (e ∷ es) own = (own.0, Chain-take K (base + 1) e.term k es own.1)

pub Chain-drop :
    (K : Known) (base p k : ℕ) (es : List LogEntry)
    → Chain K base p es
    → Chain K (base + k) (last_term_or p (take k es)) (drop k es)
unfolding Chain last_term_or
Chain-drop K base p zero es own = let e : base + 0 ≡ base = omega arith in rw e own
Chain-drop K base p (suc k) [] own = tt
Chain-drop K base p (suc k) (e ∷ es) own =
    let shift : base + suc k ≡ base + 1 + k = omega arith in
    rw shift (Chain-drop K (base + 1) e.term k es own.1)

pub Chain-weaken :
    (K L : Known) (base p : ℕ) (es : List LogEntry)
    → ((i q : ℕ) (e : LogEntry) → K i q e → L i q e)
    → Chain K base p es
    → Chain L base p es
unfolding Chain
Chain-weaken K L base p [] more own = tt
Chain-weaken K L base p (e ∷ es) more own =
    (more (base + 1) p e own.0, Chain-weaken K L (base + 1) e.term es more own.1)

Chain-at :
    (K : Known) (base p : ℕ) (es : List LogEntry) (k : ℕ) (e : LogEntry)
    → Chain K base p es
    → get_elem? es k ≡ some e
    → K (base + 1 + k) (last_term_or p (take k es)) e
unfolding Chain last_term_or
Chain-at K base p [] k e own at = cc
Chain-at K base p (x ∷ es) zero e own at =
    let here : base + 1 + 0 ≡ base + 1 = omega arith in
    let same : x ≡ e = cc at in rw here (rw same at own.0)
Chain-at K base p (x ∷ es) (suc k) e own at =
    let shift : base + 1 + suc k ≡ base + 1 + 1 + k = omega arith in
    rw shift (Chain-at K (base + 1) x.term es k e own.1 at)

last_term_or-take :
    (p k : ℕ) (es : List LogEntry) (e : LogEntry)
    → get_elem? es k ≡ some e
    → last_term_or p (take (suc k) es) ≡ e.term
unfolding last_term_or
last_term_or-take p k [] e at = cc
last_term_or-take p zero (x ∷ es) e at =
    let same : x ≡ e = cc at in ap (λ (y : LogEntry). y.term) same
last_term_or-take p (suc k) (x ∷ es) e at = last_term_or-take x.term k es e at

-- What is known of the entry at an index of a node's log.
pub NodeChain-at :
    (K : Known) (n : Node) (i : ℕ) (e : LogEntry)
    → NodeChain K n
    → entry_at n i ≡ some e
    → (n.snapshot_index < i) × K i (log_term n (i - 1)) e
unfolding entry_at log_term
NodeChain-at K n i e own read = elim (Bool-cases (leb i n.snapshot_index)) [
  | inl before ↦ absurd (ground arith)
  | inr later ↦
      let k = i - n.snapshot_index - 1 in
      let inside : n.snapshot_index < i = ground arith in
      let here : n.snapshot_index + 1 + k ≡ i = omega arith in
      let at : get_elem? n.log k ≡ some e = ground arith in
      let count : i - 1 - n.snapshot_index ≡ k = omega arith in
      (inside, rw count (rw here at (Chain-at K n.snapshot_index n.snapshot_term n.log k e own at)))
]

-- The term of the log at an index with an entry is the entry's.
pub log_term-entry_at :
    (n : Node) (i : ℕ) (e : LogEntry) → entry_at n i ≡ some e → log_term n i ≡ e.term
unfolding entry_at log_term
log_term-entry_at n i e read = elim (Bool-cases (leb i n.snapshot_index)) [
  | inl before ↦ absurd (ground arith)
  | inr later ↦
      let k = i - n.snapshot_index - 1 in
      let inside : n.snapshot_index < i = ground arith in
      let at : get_elem? n.log k ≡ some e = ground arith in
      let count : i - n.snapshot_index ≡ suc k = omega arith in
      rw count (last_term_or-take n.snapshot_term k n.log e at)
]

pub log_term-base : (n : Node) → log_term n n.snapshot_index ≡ n.snapshot_term
unfolding log_term last_term_or
log_term-base n = let e : n.snapshot_index - n.snapshot_index ≡ 0 = omega arith in rw e refl

take_all : (es : List LogEntry) (k : ℕ) → length es ≤ k → take k es ≡ es
take_all [] zero long = refl
take_all [] (suc k) long = refl
take_all (e ∷ es) zero long = absurd (omega arith)
take_all (e ∷ es) (suc k) long = ap (λ l. e ∷ l) (take_all es k (omega arith))

pub log_term-last : (n : Node) → log_term n (last_log_index n) ≡ last_log_term n
unfolding log_term last_log_index last_log_term
log_term-last n =
    rw (take_all n.log (n.snapshot_index + length n.log - n.snapshot_index) (omega arith)) refl
