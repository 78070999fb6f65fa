-- ===== src/Raft/Node/Index.antt =====
-- Where the entries of a log stand.
use consensus_lab.Base.{
  ℕ, ◌+◌, ◌-◌, ◌≤◌, ◌<◌, ◌≡◌, ◌≢◌, none, some, List, ◌++◌, length, take, get_elem?, get_elem?-of_lt,
  get_elem?-none, get_elem?-append_left, get_elem?-append_right, get_elem?-take, arith, leb, leb→le,
  leb→gt, Bool-cases, inl, inr,
}
use consensus_lab.Raft.Types.{LogEntry}
use consensus_lab.Raft.Node.{Node, last_log_index, entry_at}

pub snapshot-le-last : (n : Node) → n.snapshot_index ≤ last_log_index n
unfolding last_log_index
snapshot-le-last n = omega arith

-- An index after the snapshot and up to the last one has an entry.
pub entry_at-some :
    (n : Node) (i : ℕ)
    → n.snapshot_index < i
    → i ≤ last_log_index n
    → (e : LogEntry) × (entry_at n i ≡ some e)
unfolding entry_at last_log_index
entry_at-some n i after within =
    let (e, h) = get_elem?-of_lt n.log (i - n.snapshot_index - 1) (omega arith) in
    (e, ground (arith, h))

pub entry_at-ne-none :
    (n : Node) (i : ℕ) → n.snapshot_index < i → i ≤ last_log_index n → entry_at n i ≢ none
entry_at-ne-none n i after within h = let (e, eq) = entry_at-some n i after within in cc

-- No other index has one.
pub entry_at-none_before : (n : Node) (i : ℕ) → i ≤ n.snapshot_index → entry_at n i ≡ none
unfolding entry_at
entry_at-none_before n i h = ground arith

pub entry_at-none_after : (n : Node) (i : ℕ) → last_log_index n < i → entry_at n i ≡ none
unfolding entry_at last_log_index
entry_at-none_after n i h = ground (arith, get_elem?-none n.log (i - n.snapshot_index - 1))

pub entry_at-le-last :
    (n : Node) (i : ℕ) {e : LogEntry} → entry_at n i ≡ some e → i ≤ last_log_index n
entry_at-le-last n i read = elim (Bool-cases (leb i (last_log_index n))) [
  | inl within ↦ leb→le _ _ within
  | inr out ↦ cc (entry_at-none_after n i (leb→gt _ _ out))
]

-- Entries that are appended change no older entry, and stand after the last index.
pub entry_at-append_old :
    (n : Node) (es : List LogEntry) (i : ℕ)
    → i ≤ last_log_index n
    → entry_at (record n { log = n.log ++ es }) i ≡ entry_at n i
unfolding entry_at last_log_index
entry_at-append_old n es i h =
    ground (arith, get_elem?-append_left n.log es (i - n.snapshot_index - 1))

pub entry_at-append_new :
    (n : Node) (es : List LogEntry) (k : ℕ)
    → entry_at (record n { log = n.log ++ es }) (last_log_index n + 1 + k) ≡ get_elem? es k
unfolding entry_at last_log_index
entry_at-append_new n es k =
    let e : n.snapshot_index + length n.log + 1 + k - n.snapshot_index - 1 ≡ length n.log + k =
      omega arith in
    ground (arith, e, get_elem?-append_right n.log es k)

-- A cut before `index` changes no entry before it.
pub entry_at-take :
    (n : Node) (index i : ℕ)
    → i < index
    → entry_at (record n { log = take (index - n.snapshot_index - 1) n.log }) i ≡ entry_at n i
unfolding entry_at
entry_at-take n index i h =
    ground (arith, get_elem?-take (index - n.snapshot_index - 1) n.log (i - n.snapshot_index - 1))
