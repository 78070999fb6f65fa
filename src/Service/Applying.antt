-- ===== src/Service/Applying.antt =====
-- What the apply loop of the service does to the store and to its counters.
use consensus_lab.Base.{ℕ, ◌^◌, ◌<◌, ◌≡◌, refl, none, true, arith}
use consensus_lab.Raft.Types.{Bytes, command_msg, snapshot_msg}
use consensus_lab.Raft.Action.{Outcome, ok, err, panic}
use consensus_lab.Consensus.{Consensus}
use consensus_lab.Kv.{Json, apply}
use consensus_lab.Service.{
  KvService, Server, done, applied, snapshot_taken, take_service_snapshot, handle_apply,
}

module _ {E C : Type 0} (json : Json E) (engine : Consensus C) where
  -- what a snapshot leaves of the service
  snapshot_taken_service :
      (r : Outcome (Unit {0}) × C) (s : KvService)
      → (snapshot_taken json engine r s).0 ≡ done tt
      → (snapshot_taken json engine r s).1.service ≡ record s { applied_since_snap = 0 }
  unfolding snapshot_taken
  snapshot_taken_service (ok u, c) s h = refl
  snapshot_taken_service (err e, c) s h = cc
  snapshot_taken_service (panic, c) s h = cc

  service_snapshot :
      (v : Server C)
      → (take_service_snapshot json engine v).0 ≡ done tt
      → (take_service_snapshot json engine v).1.service
        ≡ record v.service { applied_since_snap = 0 }
  unfolding take_service_snapshot
  service_snapshot v h = ground (
    arith,
    snapshot_taken_service (engine.snapshot v.service.last_applied_index _ v.engine) v.service,
  )

  -- what a handled command leaves of the service, and whether the snapshot was due
  pub handled_command :
      (now index : ℕ) (bytes : Bytes) (v : Server C)
      → (handle_apply json engine now (command_msg bytes index) v).0 ≡ done tt
      → let after = (handle_apply json engine now (command_msg bytes index) v).1.service in
        ((apply json bytes v.service.store).0 ≡ none)
        × (after.store ≡ (apply json bytes v.service.store).1)
        × (after.last_applied_index ≡ index)
        × (after.snapshot_every ≡ v.service.snapshot_every)
        × (after.apply_notify ≡ true)
  unfolding handle_apply applied
  handled_command now index bytes v h =
      let s = applied now index (apply json bytes v.service.store).1 v.service in
      ground (arith, service_snapshot (record v { service = s }))

  pub handled_command_count :
      (now index : ℕ) (bytes : Bytes) (v : Server C)
      → 0 < v.service.snapshot_every
      → v.service.snapshot_every < 2 ^ 64
      → v.service.applied_since_snap < v.service.snapshot_every
      → (handle_apply json engine now (command_msg bytes index) v).0 ≡ done tt
      → (handle_apply json engine now (command_msg bytes index) v).1.service.applied_since_snap
        < v.service.snapshot_every
  unfolding handle_apply applied
  handled_command_count now index bytes v pos bound below h =
      let s = applied now index (apply json bytes v.service.store).1 v.service in
      ground (arith, service_snapshot (record v { service = s }))

  pub handled_snapshot :
      (now index : ℕ) (bytes : Bytes) (v : Server C)
      → (handle_apply json engine now (snapshot_msg bytes index) v).0 ≡ done tt
      → let after = (handle_apply json engine now (snapshot_msg bytes index) v).1.service in
        (after.snapshot_every ≡ v.service.snapshot_every) × (after.applied_since_snap ≡ 0)
  unfolding handle_apply
  handled_snapshot now index bytes v h = ground arith
