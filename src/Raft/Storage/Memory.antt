-- ===== src/Raft/Storage/Memory.antt =====
-- `InMemoryStorage` of internal/consensus/raft/storage_memory.go implements the interface. Its log is a
-- slice of an array, so that a truncated log still has its old entries behind its end. Other
-- copies are values, which share nothing.
pub mod Durable
pub mod Calls
use consensus_lab.Base.{
  ℕ, ltb, if◌then◌else◌, Option, none, some, ◌≡◌, refl, List, [], ◌∷◌, ◌++◌, length, take, ap,
  arith, ◌≤◌, zero, suc, Bool-cases, inl, inr, ltb→lt, ltb→ge, leb, leb→le, sym, drop, ◌+◌,
  length-append, length-take,
}
use mathlib.Core.List.{append-nil}
use consensus_lab.Raft.Types.{Error, storage_error, HardState, LogEntry, Snapshot, PersistentState}
use consensus_lab.Raft.Storage.{Storage, IsDurable, IsAtomic, clone_log_entries}

-- the array up to its capacity, and the length of the slice
pub record Slice : Type 0 where
  pub array : List LogEntry
  pub len : ℕ

abbrev pub elements : Slice → List LogEntry
elements s = take s.len s.array

abbrev pub whole : List LogEntry → Slice
whole es = record { array = es; len = length es }

-- `s[:n]` reaches up to the capacity; beyond it, it panics.
unfoldable pub reslice : ℕ → Slice → Option Slice
reslice n s = if leb n (length s.array) then some (record s { len = n }) else none

-- `append` writes in place if there is room, and else into a new array, in which `spare` is left.
unfoldable pub append_slice : List LogEntry → List LogEntry → Slice → Slice
append_slice spare es s =
    let n = s.len + length es in
    if leb n (length s.array)
    then record { array = (elements s ++ es) ++ drop n s.array; len = n }
    else record { array = (elements s ++ es) ++ spare; len = length (elements s ++ es) }

pub record InMemoryStorage : Type 0 where
  pub hard : HardState
  pub log_base : ℕ
  pub log : Slice
  pub snap : Option Snapshot

abbrev pub new_in_memory_storage : InMemoryStorage
new_in_memory_storage = record {
  hard = record {
    current_term = 0;
    voted_for = "";
    commit_index = 0;
    config = record { members = [] };
  };
  log_base = 0;
  log = whole [];
  snap = none;
}

unfoldable pub copy_snapshot : Snapshot → Snapshot
copy_snapshot s = record s { bytes = s.bytes }

unfoldable pub load_snapshot : Option Snapshot → Option Snapshot
unfolding copy_snapshot
load_snapshot none = none
load_snapshot (some s) = some (copy_snapshot s)

-- what `Load` returns
unfoldable pub load_state : InMemoryStorage → PersistentState
unfolding clone_log_entries load_snapshot
load_state d = record {
  hard = d.hard;
  log_base = d.log_base;
  snapshot = load_snapshot d.snap;
  log = clone_log_entries (elements d.log);
}

unfoldable pub append_log : List LogEntry → List LogEntry → InMemoryStorage → InMemoryStorage
unfolding clone_log_entries append_slice
append_log spare [] d = d
append_log spare (e ∷ es) d = record d {
  log = append_slice spare (clone_log_entries (e ∷ es)) d.log;
}

-- `none` is a panic; `keepN` is never negative where the node calls it
unfoldable pub truncate_log : ℕ → InMemoryStorage → Option InMemoryStorage
unfolding reslice
truncate_log keep_n d =
    let keep = if ltb d.log.len keep_n then d.log.len else keep_n in
    elim (reslice keep d.log) [ none ↦ none | some log ↦ some (record d { log = log }) ]

-- A call that panics is given an error of its own, as the interface has no panics.
abbrev pub returned : Option InMemoryStorage → InMemoryStorage → Option Error × InMemoryStorage
returned none d = (some (storage_error "slice bounds out of range"), d)
returned (some after) d = (none, after)

-- `spare` is what Go's runtime leaves behind the end of an array that grows.
unfoldable pub memory_with : List LogEntry → Storage InMemoryStorage
unfolding load_state append_log truncate_log clone_log_entries copy_snapshot
memory_with spare = record {
  load = λ d. (none, load_state d);
  save_hard_state = λ h d. (none, record d { hard = h });
  append_log = λ es d. (none, append_log spare es d);
  truncate_log = λ n d. returned (truncate_log n d) d;
  set_log = λ base es d. (none, record d { log_base = base; log = whole (clone_log_entries es) });
  save_snapshot = λ s d. (none, record d { snap = some (copy_snapshot s) });
}

unfoldable pub memory : Storage InMemoryStorage
unfolding memory_with
memory = memory_with []
