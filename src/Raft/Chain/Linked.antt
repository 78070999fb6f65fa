-- ===== src/Raft/Chain/Linked.antt =====
-- How the log and a list of entries that follows an index fit together.
use consensus_lab.Base.{
  ℕ, suc, ◌+◌, ◌-◌, ◌≤◌, ◌<◌, ◌≡◌, ◌⊎◌, refl, sym, ap, ◌∙◌, none, some, List, ◌∷◌, get_elem?, leb,
  leb→gt, leb→le, Bool-cases, Option-cases, ◌==◌, inl, inr, arith,
}
use consensus_lab.Raft.Types.{LogEntry, AppendEntriesRequest}
use consensus_lab.Raft.Node.{Node, last_log_index, entry_at}
use consensus_lab.Raft.Action.{Replica, ok}
use consensus_lab.Raft.Append.{check_prev}
use consensus_lab.Raft.Chain.{log_term, log_term-entry_at, log_term-base}

-- The entry that the list, which follows the index `i`, has at the snapshot's index is of the
-- snapshot's term.
abbrev pub AgreesAtSnapshot : Node → ℕ → List LogEntry → Type 0
AgreesAtSnapshot n i es =
    (e : LogEntry) → get_elem? es (n.snapshot_index - i - 1) ≡ some e → e.term ≡ n.snapshot_term

-- The log has an entry of the term `q` at the index `i`, or has replaced it by the snapshot.
abbrev pub Linked : Node → ℕ → ℕ → List LogEntry → Type 0
Linked n i q es =
    ((n.snapshot_index ≤ i) × (log_term n i ≡ q))
    ⊎ ((i < n.snapshot_index) × AgreesAtSnapshot n i es)

pub Linked-covered :
    (n : Node) (i q : ℕ) (e : LogEntry) (rest : List LogEntry)
    → i + 1 ≤ n.snapshot_index
    → Linked n i q (e ∷ rest)
    → Linked n (i + 1) e.term rest
Linked-covered n i q e rest old (inl (later, term)) = absurd (omega arith)
Linked-covered n i q e rest old (inr (before, agrees)) =
    elim (Bool-cases (leb n.snapshot_index (i + 1))) [
      | inl reached ↦
          let here : n.snapshot_index - i - 1 ≡ 0 = ground arith in
          let end : i + 1 ≡ n.snapshot_index = ground arith in
          let own : e.term ≡ n.snapshot_term = agrees e (rw here refl) in
          inl (omega (arith, end), ap (log_term n) end ∙ log_term-base n ∙ sym own)
      | inr short ↦
          let far = leb→gt n.snapshot_index (i + 1) short in
          let shift : n.snapshot_index - i - 1 ≡ suc (n.snapshot_index - (i + 1) - 1) =
            omega arith in
          inr (far, λ d at. agrees d (rw shift at))
    ]

pub Linked-term :
    (n : Node) (i q : ℕ) (es : List LogEntry)
    → n.snapshot_index ≤ i
    → Linked n i q es
    → log_term n i ≡ q
Linked-term n i q es later (inl (above, term)) = term
Linked-term n i q es later (inr (before, agrees)) = absurd (omega arith)

-- A request that begins before the snapshot has the snapshot's term at its index.
abbrev pub Fits : Node → AppendEntriesRequest → Type 0
Fits n req =
    req.prev_log_index < n.snapshot_index → AgreesAtSnapshot n req.prev_log_index req.entries

module _ {S : Type 0} (req : AppendEntriesRequest) (s : Replica S) where
  pub passed_within : (check_prev req s).0 ≡ ok none → req.prev_log_index ≤ last_log_index s.node
  unfolding check_prev
  passed_within passed = ground arith

  passed_at_snapshot :
      (check_prev req s).0 ≡ ok none
      → req.prev_log_index ≡ s.node.snapshot_index
      → req.prev_log_term ≡ s.node.snapshot_term
  unfolding check_prev
  passed_at_snapshot passed here = ground arith

  passed_later :
      (check_prev req s).0 ≡ ok none
      → s.node.snapshot_index < req.prev_log_index
      → (e : LogEntry) × (entry_at s.node req.prev_log_index ≡ some e)
        × (e.term ≡ req.prev_log_term)
  unfolding check_prev
  passed_later passed later = elim (Option-cases (entry_at s.node req.prev_log_index)) [
    | inl missing ↦ absurd (ground (arith, passed_within passed))
    | inr (e, read) ↦ (e, read, ground (arith, passed_within passed))
  ]

  -- A request that passes the check is linked to the log.
  pub check_prev-Linked :
      Fits s.node req
      → (check_prev req s).0 ≡ ok none
      → Linked s.node req.prev_log_index req.prev_log_term req.entries
  check_prev-Linked fits passed = elim (Bool-cases (leb s.node.snapshot_index req.prev_log_index)) [
    | inr short ↦ let far = leb→gt _ _ short in inr (far, fits far)
    | inl above ↦ elim (Bool-cases (s.node.snapshot_index == req.prev_log_index)) [
      | inl here ↦
          let e : req.prev_log_index ≡ s.node.snapshot_index = ground arith in
          inl (
            leb→le _ _ above,
            ap (log_term s.node) e ∙ log_term-base s.node ∙ sym (passed_at_snapshot passed e),
          )
      | inr apart ↦
          let later : s.node.snapshot_index < req.prev_log_index = ground arith in
          let (e, read, term) = passed_later passed later in
          inl (leb→le _ _ above, log_term-entry_at s.node req.prev_log_index e read ∙ term)
    ]
  ]
