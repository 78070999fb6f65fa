-- ===== src/Service.antt =====
-- The service in front of the store: internal/service/kv.go. Logs, spans and metrics are left out.
pub mod Applying
pub mod Loop
pub mod Proposals
pub mod Waiters
use consensus_lab.Base.{
  ℕ, ◌+◌, ◌-◌, ◌%◌, ◌^◌, ltb, leb, ◌==◌, ◌⊎◌, inl, inr, String, Bool, true, false, ◌&&◌,
  if◌then◌else◌, Option, none, some, List, [], ◌∷◌,
}
use consensus_lab.Raft.Types.{Bytes, Error, ApplyMsg, command_msg, snapshot_msg}
use consensus_lab.Raft.Action.{Outcome, ok, err, panic}
use consensus_lab.Consensus.{Consensus}
use consensus_lab.Kv.{
  Command, Store, Json, put_cmd, delete_cmd, get, apply, snapshot, restore_snapshot,
}

-- `applied_since_snap` is a uint64. A send on `applyNotifyCh`, which has room for one, sets the flag.
pub record KvService : Type 0 where
  pub store : Store
  pub snapshot_every : ℕ
  pub last_applied_index : ℕ
  pub applied_since_snap : ℕ
  pub apply_notify : Bool
  pub applied_at_by_index : List (ℕ × ℕ)

-- the service and the engine that it is connected to
pub record Server (C : Type 0) : Type 0 where
  pub service : KvService
  pub engine : C

-- `ErrNotLeader` and `ErrCommitTimeout`, and what the codec and the engine return
pub data Failure (E : Type 0) : Type 0 where
  not_leader commit_timeout : Failure E
  json_error : E → Failure E
  engine_error : Error → Failure E

-- A handler returns, fails, or panics with the engine.
pub data Handled (E A : Type 0) : Type 0 where
  done : A → Handled E A
  failed : Failure E → Handled E A
  crashed : Handled E A

abbrev pub of_engine : {E A : Type 0} → Outcome A → Handled E A
of_engine (ok a) = done a
of_engine (err e) = failed (engine_error e)
of_engine panic = crashed

abbrev pub new_kv : Store → ℕ → KvService
new_kv store snapshot_every = record {
  store = store;
  snapshot_every = snapshot_every;
  last_applied_index = 0;
  applied_since_snap = 0;
  apply_notify = false;
  applied_at_by_index = [];
}

-- how many times are kept for callers that have given up
abbrev pub applied_at_retention : ℕ
applied_at_retention = 4096

unfoldable pub forget : ℕ → List (ℕ × ℕ) → List (ℕ × ℕ)
forget i [] = []
forget i ((j, t) ∷ m) = let rest = forget i m in if j == i then rest else (j, t) ∷ rest

abbrev pub notify_apply : KvService → KvService
notify_apply s = record s { apply_notify = true }

-- the section of `handleApply` under the mutex, after a command, and the send that follows it
unfoldable pub applied : ℕ → ℕ → Store → KvService → KvService
unfolding forget
applied now index store s =
    let times = (index, now) ∷ forget index s.applied_at_by_index in
    notify_apply (record s {
      store = store;
      last_applied_index = index;
      applied_since_snap = (s.applied_since_snap + 1) % 2 ^ 64;
      applied_at_by_index =
          if ltb applied_at_retention index
          then forget (index - applied_at_retention) times
          else times;
    })

module _ {E C : Type 0} (json : Json E) (engine : Consensus C) where
  -- after the engine has taken the snapshot
  unfoldable pub snapshot_taken :
      Outcome (Unit {0}) × C → KvService → Handled E (Unit {0}) × Server C
  snapshot_taken (ok u, c) s =
      (done tt, record { service = record s { applied_since_snap = 0 }; engine = c })
  snapshot_taken (err e, c) s = (failed (engine_error e), record { service = s; engine = c })
  snapshot_taken (panic, c) s = (crashed, record { service = s; engine = c })

  unfoldable pub take_service_snapshot : Server C → Handled E (Unit {0}) × Server C
  unfolding snapshot_taken
  take_service_snapshot v = elim (snapshot json v.service.store) [
    | inl e ↦ (failed (json_error e), v)
    | inr raw ↦ snapshot_taken (engine.snapshot v.service.last_applied_index raw v.engine) v.service
  ]

  -- `now` is the time at which a command is noted as applied
  unfoldable pub handle_apply : ℕ → ApplyMsg → Server C → Handled E (Unit {0}) × Server C
  unfolding applied take_service_snapshot
  handle_apply now (snapshot_msg bytes index) v =
      let r = restore_snapshot json bytes v.service.store in
      elim r.0 [
        | some e ↦ (failed (json_error e), v)
        | none ↦ (
          done tt,
          record v {
            service = notify_apply (record v.service {
              store = r.1;
              last_applied_index = index;
              applied_since_snap = 0;
            });
          },
        )
      ]
  handle_apply now (command_msg bytes index) v =
      let r = apply json bytes v.service.store in
      elim r.0 [
        | some e ↦ (failed (json_error e), v)
        | none ↦
            let s = applied now index r.1 v.service in
            if ltb 0 s.snapshot_every && leb s.snapshot_every s.applied_since_snap
            then take_service_snapshot (record v { service = s })
            else (done tt, record v { service = s })
      ]

  unfoldable pub and_then :
      Handled E (Unit {0}) × Server C
      → (Server C → Handled E (Unit {0}) × Server C)
      → Handled E (Unit {0}) × Server C
  and_then (done u, v) next = next v
  and_then (failed e, v) next = (failed e, v)
  and_then (crashed, v) next = (crashed, v)

  -- `RunApplyLoop` over the messages that it receives, each with its time
  unfoldable pub run_apply_loop : List (ℕ × ApplyMsg) → Server C → Handled E (Unit {0}) × Server C
  unfolding and_then
  run_apply_loop [] v = (done tt, v)
  run_apply_loop ((now, msg) ∷ msgs) v = and_then (handle_apply now msg v) (run_apply_loop msgs)

  -- after the answer of `StartCommand`
  unfoldable pub proposed : Outcome (ℕ × Bool) × C → KvService → Handled E ℕ × Server C
  proposed (ok (index, true), c) s = (done index, record { service = s; engine = c })
  proposed (ok (index, false), c) s = (failed not_leader, record { service = s; engine = c })
  proposed (err e, c) s = (failed (engine_error e), record { service = s; engine = c })
  proposed (panic, c) s = (crashed, record { service = s; engine = c })

  -- `startCommand` up to the wait: the index to wait for
  unfoldable pub propose : Command → Server C → Handled E ℕ × Server C
  unfolding proposed
  propose cmd v = elim (json.marshal_command cmd) [
    | inl e ↦ (failed (json_error e), v)
    | inr raw ↦ proposed (engine.start_command raw v.engine) v.service
  ]

abbrev pub put_command : String → String → Command
put_command key value = record { command_type = put_cmd; key = key; value = value }

abbrev pub delete_command : String → Command
delete_command key = record { command_type = delete_cmd; key = key; value = "" }

-- One round of `waitApplied` under the mutex: whether the index is applied. A caller that finds it
-- applied removes its time.
unfoldable pub check_applied : ℕ → KvService → Bool × KvService
unfolding forget
check_applied index s =
    if leb index s.last_applied_index
    then (true, record s { applied_at_by_index = forget index s.applied_at_by_index })
    else (false, s)
