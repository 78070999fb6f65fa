-- ===== src/Raft/Storage/Memory/Calls.antt =====
-- Sequences of calls of a storage, and what they are to leave.
use consensus_lab.Base.{
  ℕ, ◌+◌, ◌≤◌, ◌≡◌, refl, ap, ◌∙◌, true, none, some, Option, inl, inr, ltb, leb, if◌then◌else◌,
  Bool-cases, leb→le, List, [], ◌∷◌, ◌++◌, length, take, drop, length-append, length-take,
  length-drop, arith,
}
use consensus_lab.Raft.Types.{Error, HardState, LogEntry, Snapshot, PersistentState}
use consensus_lab.Raft.Storage.{Storage, clone_log_entries}
use consensus_lab.Raft.Storage.Memory.{
  Slice, elements, append_slice, reslice, InMemoryStorage, new_in_memory_storage, load_state,
  append_log, truncate_log, memory_with,
}
use consensus_lab.Raft.Storage.Memory.Durable.{memory_with-IsDurable}

pub data Call : Type 0 where
  hard_state_saved : HardState → Call
  log_appended : List LogEntry → Call
  log_truncated : ℕ → Call
  log_set : ℕ → List LogEntry → Call
  snapshot_saved : Snapshot → Call

module _ {S : Type 0} (st : Storage S) where
  unfoldable pub call : Call → S → Option Error × S
  call (hard_state_saved h) d = st.save_hard_state h d
  call (log_appended es) d = st.append_log es d
  call (log_truncated n) d = st.truncate_log n d
  call (log_set base es) d = st.set_log base es d
  call (snapshot_saved snap) d = st.save_snapshot snap d

  -- the calls one after the other, up to the first that returns an error
  unfoldable pub call_all : List Call → S → Option Error × S
  unfolding call
  call_all [] d = (none, d)
  call_all (c ∷ calls) d = elim (call c d).0 [
    | none ↦ call_all calls (call c d).1
    | some e ↦ (some e, (call c d).1)
  ]

-- what a call is to do to the state that is kept
unfoldable pub specified : Call → PersistentState → PersistentState
specified (hard_state_saved h) p = record p { hard = h }
specified (log_appended es) p = record p { log = p.log ++ es }
specified (log_truncated n) p = record p { log = take n p.log }
specified (log_set base es) p = record p { log_base = base; log = es }
specified (snapshot_saved snap) p = record p { snapshot = some snap }

unfoldable pub specified_all : List Call → PersistentState → PersistentState
unfolding specified
specified_all [] p = p
specified_all (c ∷ calls) p = specified_all calls (specified c p)

-- The slice is inside its array.
abbrev pub IsInside : InMemoryStorage → Type 0
IsInside d = d.log.len ≤ length d.log.array

append_slice_within :
    (spare es : List LogEntry) (s : Slice)
    → s.len ≤ length s.array
    → (append_slice spare es s).len ≤ length (append_slice spare es s).array
unfolding append_slice
append_slice_within spare es s inside =
    elim (Bool-cases (leb (s.len + length es) (length s.array))) [
      | inl room ↦
          rw (append_slice, room)
            (omega (
              arith,
              leb→le _ _ room,
              length-append (elements s ++ es) (drop (s.len + length es) s.array),
              length-append (elements s) es,
              length-take s.len s.array,
              length-drop (s.len + length es) s.array,
            ))
      | inr full ↦ rw (append_slice, full) (omega (arith, length-append (elements s ++ es) spare))
    ]

truncate_log-IsInside :
    (n : ℕ) (d : InMemoryStorage)
    → IsInside d
    → (after : InMemoryStorage) × (truncate_log n d ≡ some after) × IsInside after
unfolding truncate_log reslice
truncate_log-IsInside n d inside =
    let keep : ℕ = if ltb d.log.len n then d.log.len else n in
    let within : keep ≤ length d.log.array = ground arith in
    let fits : leb keep (length d.log.array) ≡ true = ground arith in
    (record d { log = record d.log { len = keep } }, rw (truncate_log, fits) refl, within)

module _ (spare : List LogEntry) where
  -- A call returns no error, and leaves the slice inside.
  call-IsInside :
      (c : Call) (d : InMemoryStorage)
      → IsInside d
      → ((call (memory_with spare) c d).0 ≡ none) × IsInside (call (memory_with spare) c d).1
  unfolding call memory_with append_log
  call-IsInside (hard_state_saved h) d inside = (refl, inside)
  call-IsInside (log_appended []) d inside = (refl, inside)
  call-IsInside (log_appended (e ∷ es)) d inside =
      (refl, append_slice_within spare (clone_log_entries (e ∷ es)) d.log inside)
  call-IsInside (log_truncated n) d inside =
      let (after, cut, within) = truncate_log-IsInside n d inside in rw cut (refl, within)
  call-IsInside (log_set base es) d inside = (refl, omega arith)
  call-IsInside (snapshot_saved snap) d inside = (refl, inside)

  call-specified :
      (c : Call) (d : InMemoryStorage)
      → (call (memory_with spare) c d).0 ≡ none
      → load_state (call (memory_with spare) c d).1 ≡ specified c (load_state d)
  unfolding call specified
  call-specified (hard_state_saved h) d fine =
      (memory_with-IsDurable spare).save_hard_state_ok h d fine
  call-specified (log_appended es) d fine = (memory_with-IsDurable spare).append_log_ok es d fine
  call-specified (log_truncated n) d fine = (memory_with-IsDurable spare).truncate_log_ok n d fine
  call-specified (log_set base es) d fine = (memory_with-IsDurable spare).set_log_ok base es d fine
  call-specified (snapshot_saved snap) d fine =
      (memory_with-IsDurable spare).save_snapshot_ok snap d fine

  calls_specified :
      (calls : List Call) (d : InMemoryStorage)
      → IsInside d
      → let r = call_all (memory_with spare) calls d in
        (r.0 ≡ none) × (load_state r.1 ≡ specified_all calls (load_state d))
  unfolding call_all specified_all
  calls_specified [] d inside = (refl, refl)
  calls_specified (c ∷ calls) d inside =
      let (fine, within) = call-IsInside c d inside in
      let (rest, kept) = calls_specified calls (call (memory_with spare) c d).1 within in
      rw (call_all, fine) (rest, kept ∙ ap (specified_all calls) (call-specified c d fine))

  -- From the new in-memory storage, with its log as a slice of an array that grows in place or is
  -- copied, no sequence of calls returns an error or panics, and what Load returns then is what the
  -- calls are to leave one after the other: each save replaces its part, entries are put behind the
  -- log, and a truncation leaves the first entries, also where more are asked for than there are.
  pub call_all_specified :
      (calls : List Call)
      → let r = call_all (memory_with spare) calls new_in_memory_storage in
        (r.0 ≡ none)
        × ((memory_with spare).load r.1
            ≡ (none, specified_all calls (load_state new_in_memory_storage)))
  call_all_specified calls =
      let (fine, kept) = calls_specified calls new_in_memory_storage (omega arith) in
      (fine, (memory_with-IsDurable spare).load_ok _ ∙ ap (λ p. (none, p)) kept)
