-- ===== src/Raft/Node/Terms.antt =====
-- Where the entries of a term stand.
use consensus_lab.Base.{
  ℕ, zero, suc, ◌+◌, ◌-◌, ◌≤◌, ◌<◌, ◌≡◌, inl, inr, refl, true, false, some, List, [], ◌∷◌,
  get_elem?, ◌==◌, Bool-cases, leb, arith,
}
use consensus_lab.Raft.Types.{LogEntry}
use consensus_lab.Raft.Node.{Node, entry_at, first_index_from, first_index_of_term}

-- The first entry of a term that occurs at or before position `k`.
first_index_from_lem :
    (base term : ℕ) (es : List LogEntry) (k : ℕ) (e : LogEntry)
    → get_elem? es k ≡ some e
    → e.term ≡ term
    → let first = first_index_from base term es in
      (base < first)
      × (first ≤ base + 1 + k)
      × ((x : LogEntry) × (get_elem? es (first - base - 1) ≡ some x) × (x.term ≡ term))
unfolding first_index_from
first_index_from_lem base term [] k e at eq = cc
first_index_from_lem base term (x ∷ es) zero e at eq =
    let here : base + 1 - base - 1 ≡ 0 = omega arith in
    let hit : (x.term == term) ≡ true = ground arith in
    rw hit (omega arith, omega arith, rw here (x, refl, ground arith))
first_index_from_lem base term (x ∷ es) (suc k) e at eq = elim (Bool-cases (x.term == term)) [
  | inl hit ↦
      let here : base + 1 - base - 1 ≡ 0 = omega arith in
      rw hit (omega arith, omega arith, rw here (x, refl, ground arith))
  | inr miss ↦
      let later = first_index_from_lem (base + 1) term es k e at eq in
      let first = first_index_from (base + 1) term es in
      let shift : first - base - 1 ≡ suc (first - (base + 1) - 1) = omega (arith, later.0) in
      rw miss (omega (arith, later.0), omega (arith, later.1), rw shift later.2)
]

-- The first entry of the term of an entry stands in the log, at or before that entry.
pub first_index_of_term_lem :
    (n : Node) (i : ℕ) (e : LogEntry)
    → entry_at n i ≡ some e
    → let first = first_index_of_term n e.term in
      (n.snapshot_index < first)
      × (first ≤ i)
      × ((x : LogEntry) × (entry_at n first ≡ some x) × (x.term ≡ e.term))
unfolding first_index_of_term entry_at
first_index_of_term_lem n i e read = elim (Bool-cases (leb i n.snapshot_index)) [
  | inl before ↦ ground arith
  | inr after ↦
      let found =
        first_index_from_lem n.snapshot_index e.term n.log (i - n.snapshot_index - 1) e
          (ground arith) refl in
      let first = first_index_from n.snapshot_index e.term n.log in
      let later : leb first n.snapshot_index ≡ false = ground (arith, found.0) in
      (found.0, ground (arith, found.1), rw later found.2)
]
