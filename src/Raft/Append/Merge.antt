-- ===== src/Raft/Append/Merge.antt =====
-- The loop over the entries of a request: what the log holds afterwards, and what it has kept.
use consensus_lab.Base.{
  ℕ, zero, suc, ◌+◌, ◌≤◌, ◌<◌, ◌≡◌, ◌≢◌, ap, sym, ◌∙◌, ◌⊎◌, inl, inr, refl, some, List, [], ◌∷◌,
  get_elem?, arith, leb, leb→le, leb→gt, Bool-cases,
}
use consensus_lab.Raft.Types.{LogEntry}
use consensus_lab.Raft.Storage.{Storage}
use consensus_lab.Raft.Node.{Node, last_log_index, entry_at}
use consensus_lab.Raft.Node.Index.{
  entry_at-append_old, entry_at-append_new, entry_at-take, snapshot-le-last,
}
use consensus_lab.Raft.Action.{Replica, ok}
use consensus_lab.Raft.Append.{merge_entries, append_suffix, replace_suffix}
use consensus_lab.Raft.Append.Round.{
  cut, last_log_index-cut, append_suffix_cases, replace_suffix_cases, covered, same, beyond,
  differs, merge-Round,
}

-- The request's entries agree with the log up to the index `j`.
abbrev pub AgreesUpto : Node → ℕ → List LogEntry → ℕ → Type 0
AgreesUpto n index entries j =
    (k : ℕ) (e own : LogEntry)
    → index + k ≤ j
    → get_elem? entries k ≡ some e
    → entry_at n (index + k) ≡ some own
    → own.term ≡ e.term

AgreesUpto-tail :
    (n : Node) (index : ℕ) (e : LogEntry) (rest : List LogEntry) (j : ℕ)
    → AgreesUpto n index (e ∷ rest) j
    → AgreesUpto n (index + 1) rest j
AgreesUpto-tail n index e rest j h k x own within at read =
    let shift : index + 1 + k ≡ index + suc k = omega arith in
    h (suc k) x own (omega arith) at (ap (entry_at n) (sym shift) ∙ read)

-- A disagreement at `index` lies after `j`.
before_conflict :
    (n : Node) (index : ℕ) (e : LogEntry) (rest : List LogEntry) (j : ℕ) {own : LogEntry}
    → AgreesUpto n index (e ∷ rest) j
    → entry_at n index ≡ some own
    → own.term ≢ e.term
    → j < index
before_conflict n index e rest j {own} agrees read ne = elim (Bool-cases (leb index j)) [
  | inl h ↦
      let same : index + 0 ≡ index = omega arith in
      absurd
        (ne (agrees 0 e own (omega (arith, leb→le index j h)) refl (ap (entry_at n) same ∙ read)))
  | inr h ↦ leb→gt index j h
]

-- The entry `e` of the request stands at `index`: its own copy, or the old entry of its term.
abbrev pub Holds : Node → Node → ℕ → LogEntry → Type 0
Holds before after index e =
    (kept : LogEntry) × (entry_at after index ≡ some kept)
    × (kept.term ≡ e.term)
    × ((kept ≡ e) ⊎ (entry_at before index ≡ some kept))

first_copy :
    (before after : Node) (index : ℕ) {e : LogEntry}
    → entry_at after index ≡ some e
    → Holds before after index e
first_copy before after index {e} read = (e, read, refl, inl refl)

module _ {S : Type 0} (st : Storage S) where
  merge_entries-nil : (index : ℕ) (s : Replica S) → merge_entries st index [] s ≡ (ok tt, s)
  unfolding merge_entries
  merge_entries-nil index s = refl

  append_suffix_kept :
      (es : List LogEntry) (s : Replica S) (j : ℕ)
      → j ≤ last_log_index s.node
      → entry_at (append_suffix st es s).1.node j ≡ entry_at s.node j
  append_suffix_kept es s j within = elim (append_suffix_cases st es s) [
    | inl done ↦ rw done.0 (entry_at-append_old s.node es j within)
    | inr failed ↦ rw failed.0
  ]

  replace_suffix_kept :
      (index : ℕ) (es : List LogEntry) (s : Replica S) (j : ℕ)
      → s.node.snapshot_index < index
      → index ≤ last_log_index s.node
      → j < index
      → entry_at (replace_suffix st index es s).1.node j ≡ entry_at s.node j
  replace_suffix_kept index es s j after inside before =
      let kept = entry_at-take s.node index j before in
      let room = last_log_index-cut s.node index after inside in
      elim (replace_suffix_cases st index es s) [
        | inl done ↦
            rw done.0 (entry_at-append_old (cut s.node index) es j (omega (arith, room)) ∙ kept)
        | inr (inl failed) ↦ rw failed.0 kept
        | inr (inr failed) ↦ rw failed.0
      ]

  -- Up to the first disagreement nothing changes.
  pub merge_entries_kept :
      (index : ℕ) (entries : List LogEntry) (s : Replica S) (j : ℕ)
      → index ≤ last_log_index s.node + 1
      → j ≤ last_log_index s.node
      → AgreesUpto s.node index entries j
      → entry_at (merge_entries st index entries s).1.node j ≡ entry_at s.node j
  merge_entries_kept index [] s j start within agrees = rw merge_entries-nil
  merge_entries_kept index (e ∷ rest) s j start within agrees =
      let later = AgreesUpto-tail s.node index e rest j agrees in
      elim (merge-Round st index e rest s) [
        | covered old next ↦ rw next (
            merge_entries_kept (index + 1) rest s j (omega (arith, snapshot-le-last s.node)) within
              later)
        | same own inside read eq next ↦
            rw next (merge_entries_kept (index + 1) rest s j (omega arith) within later)
        | beyond after next ↦ rw next (append_suffix_kept (e ∷ rest) s j within)
        | differs own after inside read ne next ↦ rw next (
            replace_suffix_kept index (e ∷ rest) s j after inside
              (before_conflict s.node index e rest j agrees read ne))
      ]

  append_suffix_holds :
      (es : List LogEntry) (s : Replica S) (k : ℕ) (x : LogEntry)
      → (append_suffix st es s).0 ≡ ok tt
      → get_elem? es k ≡ some x
      → entry_at (append_suffix st es s).1.node (last_log_index s.node + 1 + k) ≡ some x
  append_suffix_holds es s k x returned at = elim (append_suffix_cases st es s) [
    | inl done ↦ rw done.0 (entry_at-append_new s.node es k ∙ at)
    | inr failed ↦ absurd (failed.1 returned)
  ]

  append_beyond :
      (index : ℕ) (es : List LogEntry) (s : Replica S) (k : ℕ) (x : LogEntry)
      → index ≤ last_log_index s.node + 1
      → last_log_index s.node < index
      → (append_suffix st es s).0 ≡ ok tt
      → get_elem? es k ≡ some x
      → entry_at (append_suffix st es s).1.node (index + k) ≡ some x
  append_beyond index es s k x start after returned at =
      let end : index ≡ last_log_index s.node + 1 = omega arith in
      rw end (append_suffix_holds es s k x returned at)

  replace_suffix_holds :
      (index : ℕ) (es : List LogEntry) (s : Replica S) (k : ℕ) (x : LogEntry)
      → s.node.snapshot_index < index
      → index ≤ last_log_index s.node
      → (replace_suffix st index es s).0 ≡ ok tt
      → get_elem? es k ≡ some x
      → entry_at (replace_suffix st index es s).1.node (index + k) ≡ some x
  replace_suffix_holds index es s k x after inside returned at =
      let start = last_log_index-cut s.node index after inside in
      elim (replace_suffix_cases st index es s) [
        | inl done ↦ rw done.0 (rw start at (entry_at-append_new (cut s.node index) es k) ∙ at)
        | inr (inl failed) ↦ absurd (failed.1 returned)
        | inr (inr failed) ↦ absurd (failed.1 returned)
      ]

  -- After the loop every entry of the request that the snapshot does not cover is in the log.
  pub merge_entries-Holds :
      (index : ℕ) (entries : List LogEntry) (s : Replica S) (k : ℕ) (x : LogEntry)
      → index ≤ last_log_index s.node + 1
      → (merge_entries st index entries s).0 ≡ ok tt
      → get_elem? entries k ≡ some x
      → s.node.snapshot_index < index + k
      → Holds s.node (merge_entries st index entries s).1.node (index + k) x
  merge_entries-Holds index [] s k x start returned at fresh = cc
  merge_entries-Holds index (e ∷ rest) s zero x start returned at fresh =
      elim (merge-Round st index e rest s) [
        | covered old next ↦ absurd (omega arith)
        | same own inside read eq next ↦
            let here : index + 0 ≡ index = omega arith in
            let kept =
              merge_entries_kept (index + 1) rest s index (omega arith) inside
                (λ k' y own' before. absurd (omega arith)) in
            rw (next, here) (own, kept ∙ read, ground arith, inr read)
        | beyond after next ↦ rw next (
            first_copy _ _ _
              (append_beyond index (e ∷ rest) s zero x start after (rw next at returned) at))
        | differs own after inside read ne next ↦ rw next (
            first_copy _ _ _ (
              replace_suffix_holds index (e ∷ rest) s zero x after inside (rw next at returned) at))
      ]
  merge_entries-Holds index (e ∷ rest) s (suc k) x start returned at fresh =
      let shift : index + suc k ≡ index + 1 + k = omega arith in
      elim (merge-Round st index e rest s) [
        | covered old next ↦
            rw (next, shift)
              (merge_entries-Holds (index + 1) rest s k x (omega (arith, snapshot-le-last s.node))
                (rw next at returned) at (omega arith))
        | same own inside read eq next ↦
            rw (next, shift)
              (merge_entries-Holds (index + 1) rest s k x (omega arith) (rw next at returned) at
                (omega arith))
        | beyond after next ↦ rw next (
            first_copy _ _ _
              (append_beyond index (e ∷ rest) s (suc k) x start after (rw next at returned) at))
        | differs own after inside read ne next ↦ rw next (
            first_copy _ _ _ (
              replace_suffix_holds index (e ∷ rest) s (suc k) x after inside (rw next at returned)
                at))
      ]
