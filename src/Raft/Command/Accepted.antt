-- ===== src/Raft/Command/Accepted.antt =====
-- What a client's call of `StartCommand` has done.
use consensus_lab.Base.{
  ℕ, ◌+◌, ◌≡◌, ◌∙◌, refl, ap, Bool, true, false, List, [], ◌∷◌, ◌++◌, length, length-append, take,
  arith,
}
use consensus_lab.Raft.Types.{Bytes, LogEntry, PersistentState, leader}
use consensus_lab.Raft.Storage.{Storage, IsDurable, IsAtomic}
use consensus_lab.Raft.Node.{last_log_index}
use consensus_lab.Raft.Action.{
  Replica, Outcome, Action, ok, err, panic, persist_append_log, continue,
}
use consensus_lab.Raft.Commit.{advance_commit_index}
use consensus_lab.Raft.Command.{start_command, command_appended, command_entry}

pub take-append : (es more : List LogEntry) → take (length es) (es ++ more) ≡ es
take-append [] more = refl
take-append (e ∷ es) more = ap (λ l. e ∷ l) (take-append es more)

module _ {S : Type 0} (st : Storage S) where
  appended_answer :
      (now : ℕ) (s : Replica S) (index : ℕ) (accepted : Bool)
      → (command_appended st now s).0 ≡ ok (index, accepted)
      → (accepted ≡ true)
        × (index ≡ last_log_index s.node)
        × ((command_appended st now s).1.node.log ≡ s.node.log)
        × ((command_appended st now s).1.node.snapshot_index ≡ s.node.snapshot_index)
        × ((command_appended st now s).1.node.role ≡ s.node.role)
  unfolding command_appended advance_commit_index
  appended_answer now s index accepted returned = ground arith

  -- An accepted command is the newest entry of the log of a leader that is not degraded, at the
  -- index that is returned, and the entries before it are as they were.
  pub start_command_accepted :
      (now : ℕ) (cmd : Bytes) (s : Replica S) (index : ℕ)
      → (start_command st now cmd s).0 ≡ ok (index, true)
      → let after = (start_command st now cmd s).1.node in
        (s.node.role ≡ leader)
        × (s.node.degraded ≡ false)
        × (index ≡ last_log_index s.node + 1)
        × (after.log ≡ s.node.log ++ command_entry s.node cmd ∷ [])
        × (after.snapshot_index ≡ s.node.snapshot_index)
  unfolding start_command last_log_index
  start_command_accepted now cmd s index returned =
      let entries = command_entry s.node cmd ∷ [] in
      let grown : Replica S = record s { node = record s.node { log = s.node.log ++ entries } } in
      let saved = persist_append_log st entries grown in
      ground (arith, length-append s.node.log entries, appended_answer now saved.1 index true)

  -- A command that is not accepted leaves the log and the commit index as they are.
  pub start_command_refused :
      (now : ℕ) (cmd : Bytes) (s : Replica S) (index : ℕ)
      → (start_command st now cmd s).0 ≡ ok (index, false)
      → let after = (start_command st now cmd s).1.node in
        (after.log ≡ s.node.log) × (after.commit_index ≡ s.node.commit_index)
  unfolding start_command
  start_command_refused now cmd s index returned =
      let entries = command_entry s.node cmd ∷ [] in
      let grown : Replica S = record s { node = record s.node { log = s.node.log ++ entries } } in
      let saved = persist_append_log st entries grown in
      ground (arith, take-append s.node.log entries, appended_answer now saved.1 index false)

module _ {S : Type 0} (st : Storage S) (stored : S → PersistentState) where
  advance_stored :
      (now : ℕ) (s : Replica S)
      → IsDurable st stored
      → IsAtomic st stored
      → (stored (advance_commit_index st now s).1.disk).log ≡ (stored s.disk).log
  unfolding advance_commit_index
  advance_stored now s durable atomic =
      let disk = s.disk in grind (arith, durable.save_hard_state_ok, atomic.save_hard_state_err)

  continue_disk :
      {A B : Type 0} (o : Outcome A) (f : A → Action S B) (s : Replica S) (d : S)
      → s.disk ≡ d
      → ((a : A) → (f a s).1.disk ≡ d)
      → (continue o f s).1.disk ≡ d
  continue_disk (ok a) f s d same next = next a
  continue_disk (err e) f s d same next = same
  continue_disk panic f s d same next = same

  appended_stored :
      (now : ℕ) (s : Replica S)
      → IsDurable st stored
      → IsAtomic st stored
      → (stored (command_appended st now s).1.disk).log ≡ (stored s.disk).log
  unfolding command_appended
  appended_stored now s durable atomic =
      ap (λ d. (stored d).log)
        (continue_disk (advance_commit_index st now _).0 _ (advance_commit_index st now _).1 _ refl
          (λ advanced. ground arith))
      ∙ advance_stored now _ durable atomic

  -- On a storage whose calls take effect when they return no error, and have no effect when they
  -- return one, the entry of an accepted command is the newest one on the storage.
  pub start_command_stored :
      (now : ℕ) (cmd : Bytes) (s : Replica S) (index : ℕ)
      → IsDurable st stored
      → IsAtomic st stored
      → (start_command st now cmd s).0 ≡ ok (index, true)
      → (stored (start_command st now cmd s).1.disk).log
        ≡ (stored s.disk).log ++ command_entry s.node cmd ∷ []
  unfolding start_command
  start_command_stored now cmd s index durable atomic returned =
      let entries = command_entry s.node cmd ∷ [] in
      let grown : Replica S = record s { node = record s.node { log = s.node.log ++ entries } } in
      let saved = persist_append_log st entries grown in
      ground (
        arith,
        durable.append_log_ok entries s.disk,
        appended_stored now saved.1 durable atomic,
        appended_answer st now saved.1 index true,
      )
