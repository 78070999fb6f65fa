-- ===== src/Raft/Node.antt =====
-- The state of a replica and its index arithmetic, from internal/consensus/raft/node.go.
--
-- The channels `electionTimeoutResetCh`, `applyNotifyCh` and `replicateNotifyCh` have room for one
-- signal and are sent to without blocking: a flag holds each, true while a signal waits.
pub mod Index
pub mod Timing
pub mod Terms
use consensus_lab.Base.{
  ℕ, ◌+◌, ◌-◌, ◌/◌, String, str_eq, Bool, Option, none, some, List, [], ◌∷◌, length, get_elem?, leb,
  ◌==◌, if◌then◌else◌,
}
use consensus_lab.Raft.Types.{Role, ClusterConfig, LogEntry, HardState, Snapshot}

pub record Node : Type 0 where
  pub id : String
  -- the keys of the map `peers`, in the order of an iteration
  pub peers : List String
  pub role : Role
  pub current_term : ℕ
  pub voted_for : String
  pub degraded : Bool
  pub log : List LogEntry
  pub snapshot_index : ℕ
  pub snapshot_term : ℕ
  pub snapshot : Option Snapshot
  pub pending_snapshot : Option Snapshot
  pub commit_index : ℕ
  pub last_applied : ℕ
  pub last_applied_at : ℕ
  -- times in nanoseconds, by index
  pub start_seen_at : List (ℕ × ℕ)
  pub commit_seen_at : List (ℕ × ℕ)
  pub config : ClusterConfig
  -- a key that a Go map lacks reads as zero or false
  pub next_index : String → ℕ
  pub match_index : String → ℕ
  pub replicate_in_flight : String → Bool
  pub replicate_pending : String → Bool
  pub election_timeout_reset : Bool
  pub apply_notify : Bool
  pub replicate_notify : Bool

-- `m[key] = value`
abbrev pub update {ℓ} : {A : Type ℓ} → (String → A) → String → A → String → A
update m key value k = if str_eq k key then value else m k

unfoldable pub quorum_size : Node → ℕ
quorum_size n = length n.config.members / 2 + 1

unfoldable pub last_log_index : Node → ℕ
last_log_index n = n.snapshot_index + length n.log

unfoldable pub last_term_or : ℕ → List LogEntry → ℕ
last_term_or t [] = t
last_term_or t (e ∷ es) = last_term_or e.term es

-- the term of the last entry, or of the snapshot if the log is empty
unfoldable pub last_log_term : Node → ℕ
unfolding last_term_or
last_log_term n = last_term_or n.snapshot_term n.log

-- `none` is an index out of range, at which the slice access panics
unfoldable pub entry_at : Node → ℕ → Option LogEntry
entry_at n i = if leb i n.snapshot_index then none else get_elem? n.log (i - n.snapshot_index - 1)

-- the loop of `firstIndexOfTermLocked`, `base` being the index before the first entry
pub first_index_from : ℕ → ℕ → List LogEntry → ℕ
first_index_from base term [] = 0
first_index_from base term (e ∷ es) =
    let rest = first_index_from (base + 1) term es in if e.term == term then base + 1 else rest

unfoldable pub first_index_of_term : Node → ℕ → ℕ
unfolding first_index_from
first_index_of_term n term = first_index_from n.snapshot_index term n.log

-- The loop of `lastIndexOfTermLocked` runs from the end: the last match wins.
pub last_index_from : ℕ → ℕ → List LogEntry → ℕ
last_index_from base term [] = 0
last_index_from base term (e ∷ es) =
    let rest = last_index_from (base + 1) term es in
    if rest == 0 then (if e.term == term then base + 1 else 0) else rest

unfoldable pub last_index_of_term : Node → ℕ → ℕ
unfolding last_index_from
last_index_of_term n term = last_index_from n.snapshot_index term n.log

unfoldable pub hard_state : Node → HardState
hard_state n = record {
  current_term = n.current_term;
  voted_for = n.voted_for;
  commit_index = n.commit_index;
  config = n.config;
}
