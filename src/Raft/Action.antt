-- ===== src/Raft/Action.antt =====
-- The actions of a node's handlers. A handler runs under the node's mutex, so it is one action on
-- the node and the medium of its storage. Logs, traces and metrics are left out: they do not change
-- the node's state.
use consensus_lab.Base.{◌≢◌, refl, ℕ, ◌-◌, true, Option, none, some, List}
use consensus_lab.Raft.Types.{Error, LogEntry, Snapshot}
use consensus_lab.Raft.Storage.{Storage}
use consensus_lab.Raft.Node.{Node, hard_state, entry_at}

-- A call returns a value or an error, or panics on an index out of range or a nil pointer.
pub data Outcome {ℓ} (A : Type ℓ) : Type ℓ where
  ok : A → Outcome A
  err : Error → Outcome A
  panic : Outcome A

pub record Replica (S : Type 0) : Type 0 where
  pub node : Node
  pub disk : S

abbrev pub Action : Type 0 → Type 0 → Type 0
Action S A = Replica S → Outcome A × Replica S

module _ {S A : Type 0} where
  abbrev pub pure : A → Action S A
  pure a s = (ok a, s)

  abbrev pub fail : Error → Action S A
  fail e s = (err e, s)

module _ {S A B : Type 0} where
  abbrev pub continue : Outcome A → (A → Action S B) → Action S B
  continue (ok a) f s = f a s
  continue (err e) f s = (err e, s)
  continue panic f s = (panic, s)

  infixl 5 ◌>>=◌ ◌>>◌
  abbrev pub ◌>>=◌ : Action S A → (A → Action S B) → Action S B
  ◌>>=◌ m f s = continue (m s).0 f (m s).1

  abbrev pub ◌>>◌ : Action S A → Action S B → Action S B
  m >> k = m >>= λ _. k

  -- A sequence does not panic if its parts do not.
  pub continue-ne-panic :
      (o : Outcome A) (f : A → Action S B) (s : Replica S)
      → o ≢ panic
      → ((a : A) → (f a s).0 ≢ panic)
      → (continue o f s).0 ≢ panic
  continue-ne-panic (ok a) f s _ next = next a
  continue-ne-panic (err e) f s _ next = λ h. cc
  continue-ne-panic panic f s safe next = absurd (safe refl)

module _ {S : Type 0} where
  abbrev pub get : Action S Node
  get s = (ok s.node, s)

  abbrev pub modify : (Node → Node) → Action S (Unit {0})
  modify f s = (ok tt, record s { node = f s.node })

  -- an error of the storage is a value: each caller treats it in its own way
  abbrev pub attempt : (S → Option Error × S) → Action S (Option Error)
  attempt call s = (ok (call s.disk).0, record s { disk = (call s.disk).1 })

  abbrev pub return_if : Option Error → Action S (Unit {0})
  return_if none = pure tt
  return_if (some e) = fail e

  abbrev pub at_entry : Option LogEntry → Action S LogEntry
  at_entry none s = (panic, s)
  at_entry (some e) s = (ok e, s)

  -- `entryAtLocked`
  abbrev pub read_entry : ℕ → Action S LogEntry
  read_entry i s = at_entry (entry_at s.node i) s

-- `NewNode` refuses a nil storage, so that the nil tests of these methods never pass.
module _ {S : Type 0} (st : Storage S) where
  abbrev pub persist_hard_state : Action S (Option Error)
  persist_hard_state s = attempt (st.save_hard_state (hard_state s.node)) s

  abbrev pub persist_append_log : List LogEntry → Action S (Option Error)
  persist_append_log entries = attempt (st.append_log entries)

  -- keeps the entries with an index in (snapshotIndex, fromIndex)
  abbrev pub persist_truncate_log : ℕ → Action S (Option Error)
  persist_truncate_log from_index s =
      attempt (st.truncate_log (from_index - s.node.snapshot_index - 1)) s

  abbrev pub persist_snapshot : Snapshot → Action S (Option Error)
  persist_snapshot snap = attempt (st.save_snapshot snap)

  abbrev pub persist_compact_log : Action S (Option Error)
  persist_compact_log s = attempt (st.set_log s.node.snapshot_index s.node.log) s

-- `resetElectionTimeout`, `notifyApply`, `notifyReplicate`
abbrev pub reset_election_timeout : Node → Node
reset_election_timeout n = record n { election_timeout_reset = true }

abbrev pub notify_apply : Node → Node
notify_apply n = record n { apply_notify = true }

abbrev pub notify_replicate : Node → Node
notify_replicate n = record n { replicate_notify = true }

-- `markDegradedLocked`
abbrev pub mark_degraded : Node → Node
mark_degraded n = record n { degraded = true }
