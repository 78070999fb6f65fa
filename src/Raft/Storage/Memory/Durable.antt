-- ===== src/Raft/Storage/Memory/Durable.antt =====
-- What the in-memory storage keeps is what `Load` returns.
use consensus_lab.Base.{
  ℕ, ltb, if◌then◌else◌, none, some, ◌⊎◌, ◌∙◌, ◌≡◌, refl, List, [], ◌∷◌, ◌++◌, length, take, ap,
  arith, ◌≤◌, zero, suc, Bool-cases, inl, inr, ltb→lt, ltb→ge, leb, leb→le, sym, ◌+◌, length-append,
  length-take,
}
use mathlib.Core.List.{append-nil}
use consensus_lab.Raft.Types.{LogEntry}
use consensus_lab.Raft.Storage.{IsDurable, IsAtomic, clone_log_entries}
use consensus_lab.Raft.Storage.Memory.{
  Slice, elements, whole, reslice, append_slice, InMemoryStorage, load_state, append_log,
  truncate_log, returned, memory_with, memory,
}

pub clone_log_entries_lem : (es : List LogEntry) → clone_log_entries es ≡ es
unfolding clone_log_entries
clone_log_entries_lem [] = refl
clone_log_entries_lem (e ∷ es) = ap (λ l. e ∷ l) (clone_log_entries_lem es)

take-nil : (n : ℕ) → take {A = LogEntry} n [] ≡ []
take-nil zero = refl
take-nil (suc n) = refl

take-all : (es : List LogEntry) → take (length es) es ≡ es
take-all [] = refl
take-all (e ∷ es) = ap (λ l. e ∷ l) (take-all es)

take-take_le : (n k : ℕ) (es : List LogEntry) → k ≤ n → take n (take k es) ≡ take k es
take-take_le n zero es h = take-nil n
take-take_le zero (suc k) es h = absurd (omega arith)
take-take_le (suc n) (suc k) [] h = refl
take-take_le (suc n) (suc k) (e ∷ es) h = ap (λ l. e ∷ l) (take-take_le n k es (omega arith))

take-take_ge : (n k : ℕ) (es : List LogEntry) → n ≤ k → take n (take k es) ≡ take n es
take-take_ge zero k es h = refl
take-take_ge (suc n) zero es h = absurd (omega arith)
take-take_ge (suc n) (suc k) [] h = refl
take-take_ge (suc n) (suc k) (e ∷ es) h = ap (λ l. e ∷ l) (take-take_ge n k es (omega arith))

take-clamp :
    (n k : ℕ) (es : List LogEntry) → take (if ltb k n then k else n) es ≡ take n (take k es)
take-clamp n k es = elim (Bool-cases (ltb k n)) [
  | inl h ↦ rw h (sym (take-take_le n k es (omega (arith, ltb→lt _ _ h))))
  | inr h ↦ rw h (sym (take-take_ge n k es (ltb→ge _ _ h)))
]

take-length_append : (xs ys : List LogEntry) → take (length xs) (xs ++ ys) ≡ xs
take-length_append [] ys = refl
take-length_append (x ∷ xs) ys = ap (λ l. x ∷ l) (take-length_append xs ys)

elements-append_slice :
    (spare es : List LogEntry) (s : Slice) → elements (append_slice spare es s) ≡ elements s ++ es
unfolding append_slice
elements-append_slice spare es s = elim (Bool-cases (leb (s.len + length es) (length s.array))) [
  | inl room ↦
      let size : s.len + length es ≡ length (elements s ++ es) =
        omega (arith, leb→le _ _ room, length-append (elements s) es, length-take s.len s.array) in
      rw (room, size) (take-length_append (elements s ++ es) _)
  | inr full ↦ rw full (take-length_append (elements s ++ es) spare)
]

load_state-append :
    (spare es : List LogEntry) (d : InMemoryStorage)
    → load_state (append_log spare es d) ≡ record (load_state d) { log = (load_state d).log ++ es }
unfolding load_state append_log
load_state-append spare [] d = simp (append-nil, clone_log_entries_lem)
load_state-append spare (e ∷ es) d =
    let new : List LogEntry = e ∷ es in
    let log : clone_log_entries (elements (append_slice spare (clone_log_entries new) d.log))
        ≡ clone_log_entries (elements d.log) ++ new =
      clone_log_entries_lem (elements (append_slice spare (clone_log_entries new) d.log))
      ∙ elements-append_slice spare (clone_log_entries new) d.log
      ∙ ap (λ l. elements d.log ++ l) (clone_log_entries_lem new)
      ∙ ap (λ l. l ++ new) (sym (clone_log_entries_lem (elements d.log))) in
    ap (λ l. record (load_state d) { log = l }) log

pub truncate_log_cases :
    (n : ℕ) (d : InMemoryStorage)
    → (truncate_log n d ≡ none)
      ⊎ (truncate_log n d
          ≡ some
              (record d { log = record d.log { len = if ltb d.log.len n then d.log.len else n } }))
unfolding truncate_log reslice
truncate_log_cases n d =
    elim (Bool-cases (leb (if ltb d.log.len n then d.log.len else n) (length d.log.array))) [
      | inl inside ↦ inr (rw (truncate_log, inside) refl)
      | inr outside ↦ inl (rw (truncate_log, outside) refl)
    ]

cut_state :
    (n : ℕ) (d : InMemoryStorage)
    → load_state
        (record d { log = record d.log { len = if ltb d.log.len n then d.log.len else n } })
      ≡ record (load_state d) { log = take n (load_state d).log }
unfolding load_state
cut_state n d = simp (clone_log_entries_lem, take-clamp)

load_state-truncate :
    (n : ℕ) (d : InMemoryStorage)
    → (returned (truncate_log n d) d).0 ≡ none
    → load_state (returned (truncate_log n d) d).1
      ≡ record (load_state d) { log = take n (load_state d).log }
load_state-truncate n d fine = elim (truncate_log_cases n d) [
  | inl panics ↦ absurd (cc (fine, ap (λ o. (returned o d).0) panics))
  | inr cut ↦ rw cut (cut_state n d)
]

load_state-whole :
    (base : ℕ) (es : List LogEntry) (d : InMemoryStorage)
    → load_state (record d { log_base = base; log = whole (clone_log_entries es) })
      ≡ record (load_state d) { log_base = base; log = es }
unfolding load_state
load_state-whole base es d = simp (clone_log_entries_lem, take-all)

-- The in-memory storage implements the storage interface: after each save that returns no error the
-- loaded state is the old one with exactly that change.
pub memory_with-IsDurable : (spare : List LogEntry) → IsDurable (memory_with spare) load_state
unfolding memory_with
memory_with-IsDurable spare = record {
  load_ok = λ d. refl;
  save_hard_state_ok = λ h d e. refl;
  append_log_ok = λ es d e. load_state-append spare es d;
  truncate_log_ok = λ n d e. load_state-truncate n d e;
  set_log_ok = λ base es d e. load_state-whole base es d;
  save_snapshot_ok = λ s d e. refl;
}

pub memory-IsDurable : IsDurable memory load_state
unfolding memory
memory-IsDurable = memory_with-IsDurable []

-- A call that fails, which only a panic does, changes nothing.
pub memory-IsAtomic : IsAtomic memory load_state
unfolding memory memory_with
memory-IsAtomic = record {
  save_hard_state_err = λ h d e. cc;
  append_log_err = λ es d e. cc;
  truncate_log_err = λ n d e. elim (truncate_log_cases n d) [
    | inl panics ↦ rw panics refl
    | inr cut ↦ cc (e, ap (λ o. (returned o d).0) cut)
  ];
  set_log_err = λ base es d e. cc;
  save_snapshot_err = λ s d e. cc;
}
