-- ===== src/Raft/Commit/Rule.antt =====
-- The commit rule: which index a leader commits.
use consensus_lab.Base.{
  ℕ, zero, suc, ◌+◌, ◌-◌, ◌≤◌, ◌<◌, max, ◌≡◌, ◌⊎◌, inl, inr, refl, none, some, Option, leb, leb→le,
  leb→gt, if_cases, true, false, String, List, [], ◌∷◌, length, ◌*◌, ◌↔◌, ap, ◌≢◌, ◌==◌,
  Option-cases, Bool-cases, arith,
}
use consensus_lab.Raft.Types.{LogEntry}
use consensus_lab.Raft.Storage.{Storage}
use consensus_lab.Raft.Node.{Node, quorum_size, last_log_index, entry_at}
use consensus_lab.Raft.Node.Index.{entry_at-ne-none}
use consensus_lab.Raft.Action.{Replica, Outcome, ok, panic}
use consensus_lab.Raft.Commit.{count_peers, votes_for, find_commit, advance_commit_index}

-- the peers that are known to hold the entry at `i`
abbrev pub holders : Node → ℕ → List String → List String
holders n i [] = []
holders n i (peer ∷ peers) = elim (leb i (n.match_index peer)) [
  | true ↦ peer ∷ holders n i peers
  | false ↦ holders n i peers
]

-- The entry at `i` is of the leader's own term, and the leader and the peers that hold it are more
-- than half of the members.
abbrev pub IsCommittable : Node → ℕ → Type 0
IsCommittable n i =
    (e : LogEntry) × (entry_at n i ≡ some e)
    × (e.term ≡ n.current_term)
    × (length n.config.members < 2 * (1 + length (holders n i n.peers)))

count_peers-holders :
    (n : Node) (i : ℕ) (peers : List String)
    → count_peers n.match_index i peers ≡ length (holders n i peers)
unfolding count_peers
count_peers-holders n i [] = refl
count_peers-holders n i (peer ∷ peers) = elim (Bool-cases (leb i (n.match_index peer))) [
  | inl held ↦ rw (held, holders) (ap suc (count_peers-holders n i peers))
  | inr other ↦ rw (other, holders) (count_peers-holders n i peers)
]

quorum-majority :
    (n : Node) (i : ℕ)
    → (quorum_size n ≤ votes_for n i)
      ↔ (length n.config.members < 2 * (1 + length (holders n i n.peers)))
unfolding quorum_size votes_for
quorum-majority n i = (
  λ enough. omega (arith, enough, count_peers-holders n i n.peers),
  λ more. omega (arith, more, count_peers-holders n i n.peers),
)

-- What the loop finds with `k` rounds left.
record Finds (n : Node) (k : ℕ) (r : Outcome (Option ℕ)) : Type 0 where
  sound :
      (r ≡ ok none)
      ⊎ ((c : ℕ) × (r ≡ ok (some c))
          × (n.commit_index < c)
          × (c ≤ n.commit_index + k)
          × IsCommittable n c)
  greatest :
      (j : ℕ)
      → n.commit_index < j
      → j ≤ n.commit_index + k
      → IsCommittable n j
      → (c : ℕ) × (r ≡ ok (some c)) × (j ≤ c)

Finds-skip :
    (n : Node) (k : ℕ) (r : Outcome (Option ℕ))
    → ¬ IsCommittable n (n.commit_index + suc k)
    → Finds n k r
    → Finds n (suc k) r
Finds-skip n k r refuted before = record {
  sound = elim before.sound [
    | inl nothing ↦ inl nothing
    | inr (c, found, above, below, good) ↦ inr (c, found, above, omega arith, good)
  ];
  greatest = λ j above below good. elim (Bool-cases (leb j (n.commit_index + k))) [
    | inl earlier ↦ before.greatest j above (leb→le _ _ earlier) good
    | inr last ↦
        let top : j ≡ n.commit_index + suc k = omega (arith, leb→gt _ _ last) in
        absurd (refuted (rw top at good))
  ];
}

find_commit_lem :
    (n : Node) (k : ℕ)
    → n.snapshot_index ≤ n.commit_index
    → n.commit_index + k ≤ max (last_log_index n) n.commit_index
    → Finds n k (find_commit n k)
unfolding find_commit
find_commit_lem n zero base within = record {
  sound = inl refl;
  greatest = λ j above below _. absurd (omega arith);
}
find_commit_lem n (suc k) base within =
    let before = find_commit_lem n k base (omega arith) in
    let candidate = n.commit_index + suc k in
    elim (Option-cases (entry_at n candidate)) [
      | inl out ↦ absurd (entry_at-ne-none n candidate (omega arith) (omega arith) out)
      | inr (e, read) ↦
          rw (read, find_commit)
            (if_cases (Finds n (suc k)) (e.term == n.current_term)
              (λ current.
                if_cases (Finds n (suc k)) (leb (quorum_size n) (votes_for n candidate))
                  (λ enough. record {
                    sound = inr (
                      candidate,
                      refl,
                      omega arith,
                      omega arith,
                      (e, read, ground arith, (quorum-majority n candidate).0 (leb→le _ _ enough)),
                    );
                    greatest = λ j above below good. (candidate, refl, below);
                  })
                  (λ few.
                    Finds-skip n k (find_commit n k)
                      (λ good.
                        omega (arith, leb→gt _ _ few, (quorum-majority n candidate).1 good.3))
                      before))
              (λ other.
                Finds-skip n k (find_commit n k) (λ good. ground (arith, good.1, good.2, read))
                  before))
    ]

module _ {S : Type 0} (st : Storage S) (now : ℕ) (s : Replica S) where
  abbrev rounds : ℕ
  rounds = last_log_index s.node - s.node.commit_index

  found :
      s.node.snapshot_index ≤ s.node.commit_index → Finds s.node rounds (find_commit s.node rounds)
  found base = find_commit_lem s.node rounds base (omega arith)

  advance_none :
      find_commit s.node rounds ≡ ok none
      → let r = advance_commit_index st now s in
        (r.0 ≢ panic) × (r.1.node.commit_index ≡ s.node.commit_index)
  unfolding advance_commit_index
  advance_none nothing = ground arith

  advance_some :
      (c : ℕ)
      → find_commit s.node rounds ≡ ok (some c)
      → let r = advance_commit_index st now s in (r.0 ≢ panic) × (r.1.node.commit_index ≡ c)
  unfolding advance_commit_index
  advance_some c some_c = ground arith

  -- With the snapshot not beyond the commit index, the leader's commit step never panics, and the
  -- commit index stays or moves forward to an index of the log whose entry is of the leader's own
  -- term and is held by the leader and peers that together are more than half of the
  -- configuration's members.
  pub advance_commit_index-IsCommittable :
      s.node.snapshot_index ≤ s.node.commit_index
      → let r = advance_commit_index st now s in
        (r.0 ≢ panic)
        × ((r.1.node.commit_index ≡ s.node.commit_index)
            ⊎ ((s.node.commit_index < r.1.node.commit_index)
                × (r.1.node.commit_index ≤ last_log_index s.node)
                × IsCommittable s.node r.1.node.commit_index))
  advance_commit_index-IsCommittable base = elim (found base).sound [
    | inl nothing ↦ let r = advance_none nothing in (r.0, inl r.1)
    | inr (c, some_c, above, within, good) ↦
        let r = advance_some c some_c in (r.0, inr (rw (r.1) (above, omega arith, good)))
  ]

  -- With the snapshot not beyond the commit index, the new commit index is at or above every index
  -- of the log that was above the old one and whose entry is of the leader's own term and held by
  -- more than half of the configuration's members.
  pub advance_commit_index_greatest :
      (j : ℕ)
      → s.node.snapshot_index ≤ s.node.commit_index
      → s.node.commit_index < j
      → j ≤ last_log_index s.node
      → IsCommittable s.node j
      → j ≤ (advance_commit_index st now s).1.node.commit_index
  advance_commit_index_greatest j base above within good =
      let (c, some_c, top) = (found base).greatest j above (omega arith) good in
      rw ((advance_some c some_c).1) top
