-- ===== src/Service/Proposals.antt =====
-- What a proposal of the service has done in the replica, and what its entry does when it is applied.
use consensus_lab.Base.{
  ℕ, ◌+◌, ◌≡◌, refl, ap, sym, ◌∙◌, none, inl, inr, [], ◌∷◌, ◌++◌, Bool, true, false, Sum-cases,
}
use consensus_lab.Raft.Types.{Bytes, LogEntry, leader}
use consensus_lab.Raft.Storage.{Storage}
use consensus_lab.Raft.Node.{last_log_index}
use consensus_lab.Raft.Action.{Replica, Outcome, ok, err, panic}
use consensus_lab.Raft.Command.{command_entry}
use consensus_lab.Raft.Command.Accepted.{start_command_accepted}
use consensus_lab.Consensus.{Consensus, raft_consensus}
use consensus_lab.Kv.{Command, Store, Json, IsFaithful, apply, execute}
use consensus_lab.Service.{KvService, Server, done, failed, json_error, propose, proposed}

module _ {E C : Type 0} (json : Json E) (engine : Consensus C) where
  proposed_ok :
      (r : Outcome (ℕ × Bool) × C) (s : KvService) (index : ℕ)
      → (proposed json engine r s).0 ≡ done index
      → (r.0 ≡ ok (index, true))
        × ((proposed json engine r s).1 ≡ record { service = s; engine = r.1 })
  unfolding proposed
  proposed_ok (ok (i, true), c) s index h = (cc, refl)
  proposed_ok (ok (i, false), c) s index h = cc
  proposed_ok (err e, c) s index h = cc
  proposed_ok (panic, c) s index h = cc

  propose_encoded :
      (cmd : Command) (v : Server C) (raw : Bytes)
      → json.marshal_command cmd ≡ inr raw
      → propose json engine cmd v
        ≡ proposed json engine (engine.start_command raw v.engine) v.service
  unfolding propose
  propose_encoded cmd v raw coded = rw (coded, propose) refl

  propose_refused :
      (cmd : Command) (v : Server C) (e : E)
      → json.marshal_command cmd ≡ inl e
      → (propose json engine cmd v).0 ≡ failed (json_error e)
  unfolding propose
  propose_refused cmd v e bad = rw (bad, propose) refl

  -- a proposal that gets an index has encoded its command, and the engine has taken it
  propose_ok :
      (cmd : Command) (v : Server C) (index : ℕ)
      → (propose json engine cmd v).0 ≡ done index
      → (raw : Bytes) × (json.marshal_command cmd ≡ inr raw)
        × ((engine.start_command raw v.engine).0 ≡ ok (index, true))
        × ((propose json engine cmd v).1
            ≡ record { service = v.service; engine = (engine.start_command raw v.engine).1 })
  propose_ok cmd v index h = elim (Sum-cases (json.marshal_command cmd)) [
    | inl (e, bad) ↦ cc (h, propose_refused cmd v e bad)
    | inr (raw, coded) ↦
        let whole = propose_encoded cmd v raw coded in
        let facts =
          proposed_ok (engine.start_command raw v.engine) v.service index
            (ap (λ r. r.0) (sym whole) ∙ h) in
        (raw, coded, facts.0, ap (λ r. r.1) whole ∙ facts.1)
  ]

module _ {E S : Type 0} (json : Json E) (st : Storage S) (now : ℕ) where
  -- With a faithful codec, a proposal that gets an index was made to a leader. Its entry, of the
  -- leader's term, is the newest one of the leader's log, at that index, and a store that applies
  -- it executes the command.
  pub propose-execute :
      (cmd : Command) (v : Server (Replica S)) (index : ℕ)
      → IsFaithful json
      → (propose json (raft_consensus st now) cmd v).0 ≡ done index
      → let after = (propose json (raft_consensus st now) cmd v).1.engine.node in
        (v.engine.node.role ≡ leader)
        × (index ≡ last_log_index v.engine.node + 1)
        × ((entry : LogEntry) × (after.log ≡ v.engine.node.log ++ entry ∷ [])
            × (entry.term ≡ v.engine.node.current_term)
            × ((store : Store) → apply json entry.command store ≡ (none, execute cmd store)))
  unfolding apply
  propose-execute cmd v index faithful h =
      let (raw, coded, taken, whole) = propose_ok json (raft_consensus st now) cmd v index h in
      let facts = start_command_accepted st now raw v.engine index taken in
      (
        facts.0,
        facts.2,
        (
          command_entry v.engine.node raw,
          ap (λ x. x.engine.node.log) whole ∙ facts.3,
          refl,
          λ store. rw (faithful.command_round_trip cmd raw coded, apply) refl,
        ),
      )
