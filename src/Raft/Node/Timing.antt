-- ===== src/Raft/Node/Timing.antt =====
-- internal/consensus/raft/metrics_timing.go: when the indices of the log were started and committed.
-- A time is a number of nanoseconds. The latencies that are observed go to the metrics sink only.
use consensus_lab.Base.{
  ℕ, zero, suc, ◌+◌, ◌-◌, leb, ◌==◌, Bool, false, ◌||◌, if◌then◌else◌, List, [], ◌∷◌, length,
}
use consensus_lab.Raft.Node.{Node}

abbrev pub SeenAt : Type 0
SeenAt = List (ℕ × ℕ)

pub has_index : ℕ → SeenAt → Bool
has_index i [] = false
has_index i ((j, t) ∷ m) = j == i || has_index i m

pub delete_index : ℕ → SeenAt → SeenAt
delete_index i [] = []
delete_index i ((j, t) ∷ m) = let rest = delete_index i m in if j == i then rest else (j, t) ∷ rest

pub delete_upto : ℕ → SeenAt → SeenAt
delete_upto i [] = []
delete_upto i ((j, t) ∷ m) = let rest = delete_upto i m in if leb j i then rest else (j, t) ∷ rest

-- the first time that is seen is kept
pub see : ℕ → ℕ → SeenAt → SeenAt
unfolding has_index
see i now m = if has_index i m then m else (i, now) ∷ m

-- the loops over the `count` indices after `prev`
pub see_range : ℕ → ℕ → ℕ → SeenAt → SeenAt
unfolding see
see_range prev zero now m = m
see_range prev (suc count) now m = see_range (prev + 1) count now (see (prev + 1) now m)

pub delete_range : ℕ → ℕ → SeenAt → SeenAt
unfolding delete_index
delete_range prev zero m = m
delete_range prev (suc count) m = delete_range (prev + 1) count (delete_index (prev + 1) m)

pub start_seen : ℕ → ℕ → SeenAt → SeenAt
unfolding see
start_seen index now m = if index == 0 then m else see index now m

pub applied_upto : ℕ → SeenAt → SeenAt → SeenAt
unfolding delete_upto
applied_upto applied commit_seen m =
    if applied == 0 || length commit_seen == 0 then m else delete_upto applied m

unfoldable pub record_start_seen : ℕ → ℕ → Node → Node
record_start_seen index now n = record n { start_seen_at = start_seen index now n.start_seen_at }

unfoldable pub observe_start_to_commit_range : ℕ → ℕ → Node → Node
observe_start_to_commit_range prev_commit new_commit n = record n {
  start_seen_at = delete_range prev_commit (new_commit - prev_commit) n.start_seen_at;
}

unfoldable pub record_commit_seen_range : ℕ → ℕ → ℕ → Node → Node
record_commit_seen_range prev_commit new_commit now n = record n {
  commit_seen_at = see_range prev_commit (new_commit - prev_commit) now n.commit_seen_at;
}

unfoldable pub observe_commit_to_apply : ℕ → Node → Node
observe_commit_to_apply applied n = record n {
  commit_seen_at = applied_upto applied n.commit_seen_at n.commit_seen_at;
  start_seen_at = applied_upto applied n.commit_seen_at n.start_seen_at;
}
