-- ===== src/Raft/Append/Round.antt =====
-- One round of the loop over the entries of a request.
use consensus_lab.Base.{
  ℕ, ◌+◌, ◌-◌, ◌≤◌, ◌<◌, ◌≡◌, ◌≢◌, ◌⊎◌, refl, none, some, Option, List, ◌∷◌, ◌++◌, take,
  length-take, arith, leb, ltb, leb→le, leb→gt, ltb→lt, ltb→ge, ◌==◌, if◌then◌else◌, if_cases,
}
use consensus_lab.Raft.Types.{LogEntry}
use consensus_lab.Raft.Storage.{Storage}
use consensus_lab.Raft.Storage.Memory.Durable.{clone_log_entries_lem}
use consensus_lab.Raft.Node.{Node, last_log_index, entry_at}
use consensus_lab.Raft.Node.Index.{entry_at-ne-none}
use consensus_lab.Raft.Action.{Action, Outcome, Replica, ok, at_entry, ◌>>=◌}
use consensus_lab.Raft.Append.{merge_entries, append_suffix, replace_suffix}

-- the log before `index`
abbrev pub cut : Node → ℕ → Node
cut n index = record n { log = take (index - n.snapshot_index - 1) n.log }

abbrev pub extend : Node → List LogEntry → Node
extend n es = record n { log = n.log ++ es }

pub last_log_index-cut :
    (n : Node) (index : ℕ)
    → n.snapshot_index < index
    → index ≤ last_log_index n
    → last_log_index (cut n index) + 1 ≡ index
unfolding last_log_index
last_log_index-cut n index after within =
    omega (arith, length-take (index - n.snapshot_index - 1) n.log)

module _ {S : Type 0} (st : Storage S) where
  pub append_suffix_cases :
      (es : List LogEntry) (s : Replica S)
      → let r = append_suffix st es s in
        ((r.1.node ≡ extend s.node es) × (r.0 ≡ ok tt)) ⊎ ((r.1.node ≡ s.node) × (¬ (r.0 ≡ ok tt)))
  unfolding append_suffix
  append_suffix_cases es s = ground (arith, clone_log_entries_lem es)

  pub replace_suffix_cases :
      (index : ℕ) (es : List LogEntry) (s : Replica S)
      → let r = replace_suffix st index es s in
        ((r.1.node ≡ extend (cut s.node index) es) × (r.0 ≡ ok tt))
        ⊎ ((r.1.node ≡ cut s.node index) × (¬ (r.0 ≡ ok tt)))
        ⊎ ((r.1.node ≡ s.node) × (¬ (r.0 ≡ ok tt)))
  unfolding replace_suffix append_suffix
  replace_suffix_cases index es s = ground (arith, clone_log_entries_lem es)

module _ {S : Type 0} (st : Storage S) (index : ℕ) (e : LogEntry) (rest : List LogEntry) where
  -- What one round of the loop does with the entry `e` at `index`.
  pub data Round (s : Replica S) (r : Outcome (Unit {0}) × Replica S) : Type 0 where
    covered : index ≤ s.node.snapshot_index → r ≡ merge_entries st (index + 1) rest s → Round s r
    same :
        (own : LogEntry)
        → index ≤ last_log_index s.node
        → entry_at s.node index ≡ some own
        → own.term ≡ e.term
        → r ≡ merge_entries st (index + 1) rest s
        → Round s r
    beyond : last_log_index s.node < index → r ≡ append_suffix st (e ∷ rest) s → Round s r
    differs :
        (own : LogEntry)
        → s.node.snapshot_index < index
        → index ≤ last_log_index s.node
        → entry_at s.node index ≡ some own
        → own.term ≢ e.term
        → r ≡ replace_suffix st index (e ∷ rest) s
        → Round s r

  Round-present :
      (o : Option LogEntry) (s : Replica S)
      → entry_at s.node index ≡ o
      → s.node.snapshot_index < index
      → index ≤ last_log_index s.node
      → Round s (
          (at_entry o >>= λ own.
          if own.term == e.term
          then merge_entries st (index + 1) rest
          else replace_suffix st index (e ∷ rest))
            s)
  Round-present none s read after within = absurd (entry_at-ne-none s.node index after within read)
  Round-present (some own) s read after within =
      if_cases (λ (m : Action S (Unit {0})). Round s (m s)) (own.term == e.term)
        (λ h. same own within read (ground arith) refl)
        (λ h. differs own after within read (ground arith) refl)

  pub merge-Round : (s : Replica S) → Round s (merge_entries st index (e ∷ rest) s)
  unfolding merge_entries
  merge-Round s =
      let At = λ (m : Action S (Unit {0})). Round s (m s) in
      if_cases At (leb index s.node.snapshot_index) (λ h. covered (leb→le _ _ h) refl)
        λ after.
          if_cases At (ltb (last_log_index s.node) index) (λ h. beyond (ltb→lt _ _ h) refl)
            λ within.
              Round-present (entry_at s.node index) s refl (leb→gt _ _ after) (ltb→ge _ _ within)
