-- ===== src/Raft/Chain/Merge.antt =====
-- The loop over the entries of an AppendEntries keeps a log of known entries.
use consensus_lab.Base.{
  ℕ, ◌+◌, ◌-◌, ◌≤◌, ◌<◌, ◌≡◌, refl, sym, ap, ◌∙◌, List, [], ◌∷◌, leb, leb→gt, leb→le, Bool-cases,
  inl, inr, arith,
}
use consensus_lab.Raft.Types.{LogEntry}
use consensus_lab.Raft.Storage.{Storage}
use consensus_lab.Raft.Node.{Node, last_log_term, last_log_index}
use consensus_lab.Raft.Node.Index.{snapshot-le-last, entry_at-none_before}
use consensus_lab.Raft.Action.{Replica}
use consensus_lab.Raft.Append.{merge_entries, append_suffix, replace_suffix}
use consensus_lab.Raft.Append.Round.{
  cut, extend, last_log_index-cut, append_suffix_cases, replace_suffix_cases, covered, same, beyond,
  differs, merge-Round,
}
use consensus_lab.Raft.Chain.{
  Known, Chain, NodeChain, log_term, Chain-append, Chain-take, log_term-entry_at, log_term-last,
}
use consensus_lab.Raft.Chain.Linked.{Linked, Linked-covered, Linked-term}

NodeChain-extend :
    (K : Known) (n : Node) (es : List LogEntry)
    → NodeChain K n
    → Chain K (last_log_index n) (last_log_term n) es
    → NodeChain K (extend n es)
unfolding last_log_index last_log_term
NodeChain-extend K n es own more = Chain-append K n.snapshot_index n.snapshot_term n.log es own more

cut-last : (n : Node) (i : ℕ) → last_log_term (cut n (i + 1)) ≡ log_term n i
unfolding last_log_term log_term
cut-last n i =
    let e : i + 1 - n.snapshot_index - 1 ≡ i - n.snapshot_index = omega arith in rw e refl

module _ {S : Type 0} (st : Storage S) (K : Known) where
  suffix-NodeChain :
      (es : List LogEntry) (s : Replica S)
      → NodeChain K s.node
      → Chain K (last_log_index s.node) (last_log_term s.node) es
      → NodeChain K (append_suffix st es s).1.node
  suffix-NodeChain es s own more = elim (append_suffix_cases st es s) [
    | inl done ↦ rw done.0 (NodeChain-extend K s.node es own more)
    | inr failed ↦ rw failed.0 own
  ]

  replaced-NodeChain :
      (i : ℕ) (es : List LogEntry) (s : Replica S)
      → s.node.snapshot_index < i + 1
      → i + 1 ≤ last_log_index s.node
      → NodeChain K s.node
      → Chain K i (log_term s.node i) es
      → NodeChain K (replace_suffix st (i + 1) es s).1.node
  replaced-NodeChain i es s after inside own more =
      let n = s.node in
      let short : NodeChain K (cut n (i + 1)) =
        Chain-take K n.snapshot_index n.snapshot_term (i + 1 - n.snapshot_index - 1) n.log own in
      let end : last_log_index (cut n (i + 1)) ≡ i =
        omega (arith, last_log_index-cut n (i + 1) after inside) in
      let more' : Chain K (last_log_index (cut n (i + 1))) (last_log_term (cut n (i + 1))) es =
        rw (end, cut-last n i) more in
      elim (replace_suffix_cases st (i + 1) es s) [
        | inl done ↦ rw done.0 (NodeChain-extend K (cut n (i + 1)) es short more')
        | inr (inl failed) ↦ rw failed.0 short
        | inr (inr failed) ↦ rw failed.0 own
      ]

  -- The loop, from the entry after the index `i`.
  pub merge-NodeChain :
      (i q : ℕ) (es : List LogEntry) (s : Replica S)
      → i ≤ last_log_index s.node
      → Linked s.node i q es
      → Chain K i q es
      → NodeChain K s.node
      → NodeChain K (merge_entries st (i + 1) es s).1.node
  unfolding Chain
  merge-NodeChain i q [] s within linked known own = unfold merge_entries in own
  merge-NodeChain i q (e ∷ rest) s within linked known own =
      elim (merge-Round st (i + 1) e rest s) [
        | covered old next ↦ rw next (
            merge-NodeChain (i + 1) e.term rest s (omega (arith, old, snapshot-le-last s.node))
              (Linked-covered s.node i q e rest old linked) known.1 own)
        | same mine inside read eq next ↦
            let above : s.node.snapshot_index ≤ i + 1 =
              elim (Bool-cases (leb (i + 1) s.node.snapshot_index)) [
                | inl low ↦ cc (read, entry_at-none_before s.node (i + 1) (leb→le _ _ low))
                | inr high ↦ omega (arith, leb→gt _ _ high)
              ] in
            rw next (
              merge-NodeChain (i + 1) e.term rest s inside
                (inl (above, log_term-entry_at s.node (i + 1) mine read ∙ eq)) known.1 own)
        | beyond after next ↦
            let end : last_log_index s.node ≡ i = omega arith in
            let own_term : last_log_term s.node ≡ q =
              sym (log_term-last s.node)
              ∙ ap (log_term s.node) end
              ∙ Linked-term s.node i q (e ∷ rest) (omega (arith, snapshot-le-last s.node)) linked in
            rw next (suffix-NodeChain (e ∷ rest) s own (rw (end, own_term) known))
        | differs mine after inside read ne next ↦
            let term = Linked-term s.node i q (e ∷ rest) (omega arith) linked in
            rw next (replaced-NodeChain i (e ∷ rest) s after inside own (rw term known))
      ]
