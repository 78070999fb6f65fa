-- ===== src/Service/Waiters/Wakeups.antt =====
-- Who is woken: one waiting caller always is, and one of two may not be.
use consensus_lab.Base.{ℕ, ◌≤◌, ◌<◌, ◌≡◌, ◌≢◌, ◌⊎◌, inl, refl, true, false, List, [], ◌∷◌, arith}
use consensus_lab.Raft.Types.{Bytes, ApplyMsg, command_msg, snapshot_msg}
use consensus_lab.Raft.Action.{Outcome, ok, err, panic}
use consensus_lab.Consensus.{Consensus}
use consensus_lab.Kv.{Json, apply}
use consensus_lab.Service.{
  KvService, Server, done, applied, snapshot_taken, take_service_snapshot, handle_apply,
  check_applied,
}
use consensus_lab.Service.Applying.{handled_command}
use consensus_lab.Service.Waiters.{
  checking, selecting, returned, timed_out, Waiting, Event, handled, checked, woken, cancelled,
  after, run,
}

module _ {E C : Type 0} (json : Json E) (engine : Consensus C) where
  snapshot_taken_notice :
      (r : Outcome (Unit {0}) × C) (s : KvService)
      → (snapshot_taken json engine r s).1.service.apply_notify ≡ s.apply_notify
  unfolding snapshot_taken
  snapshot_taken_notice (ok u, c) s = refl
  snapshot_taken_notice (err e, c) s = refl
  snapshot_taken_notice (panic, c) s = refl

  service_snapshot_notice :
      (v : Server C)
      → (take_service_snapshot json engine v).1.service.apply_notify ≡ v.service.apply_notify
  unfolding take_service_snapshot
  service_snapshot_notice v = ground (
    arith,
    snapshot_taken_notice (engine.snapshot v.service.last_applied_index _ v.engine) v.service,
  )

  -- a message changes nothing that a waiting caller sees, or leaves a notice
  handled_notice :
      (now : ℕ) (msg : ApplyMsg) (v : Server C)
      → let s = (handle_apply json engine now msg v).1.service in
        (s ≡ v.service) ⊎ (s.apply_notify ≡ true)
  unfolding handle_apply applied
  handled_notice now (snapshot_msg bytes index) v = ground arith
  handled_notice now (command_msg bytes index) v =
      let s = applied now index (apply json bytes v.service.store).1 v.service in
      ground (arith, service_snapshot_notice (record v { service = s }))

-- A caller in the `select` whose command is applied has a notice to receive.
abbrev IsWakeable : {C : Type 0} → ℕ → Waiting C → Type 0
IsWakeable w x =
    ((x.waiter w).stage ≢ selecting)
    ⊎ (x.server.service.last_applied_index < (x.waiter w).index)
    ⊎ (x.server.service.apply_notify ≡ true)

-- no other caller receives a notice
pub WakesOnly : ℕ → Event → Type 0
WakesOnly w (woken v) = v ≡ w
WakesOnly w _ = Unit

unfoldable pub AllWakeOnly : ℕ → List Event → Type 0
unfolding WakesOnly
AllWakeOnly w [] = Unit
AllWakeOnly w (e ∷ es) = WakesOnly w e × AllWakeOnly w es

module _ {E C : Type 0} (json : Json E) (engine : Consensus C) (w : ℕ) where
  after-IsWakeable :
      (e : Event) (x : Waiting C)
      → WakesOnly w e
      → IsWakeable w x
      → IsWakeable w (after json engine e x)
  unfolding after WakesOnly check_applied
  after-IsWakeable (handled now msg) x only good =
      ground (arith, handled_notice json engine now msg x.server)
  after-IsWakeable (checked v) x only good = ground arith
  after-IsWakeable (woken v) x only good = ground arith
  after-IsWakeable (cancelled v) x only good = ground arith

  run-IsWakeable :
      (es : List Event) (x : Waiting C)
      → AllWakeOnly w es
      → IsWakeable w x
      → IsWakeable w (run json engine es x)
  unfolding run AllWakeOnly
  run-IsWakeable [] x only good = good
  run-IsWakeable (e ∷ es) x only good =
      run-IsWakeable es (after json engine e x) only.1 (after-IsWakeable e x only.0 good)

  woken_returns :
      (x : Waiting C)
      → (x.waiter w).stage ≡ selecting
      → (x.waiter w).index ≤ x.server.service.last_applied_index
      → x.server.service.apply_notify ≡ true
      → ((run json engine (woken w ∷ checked w ∷ []) x).waiter w).stage ≡ returned
  unfolding run after check_applied
  woken_returns x selects reached notice = ground arith

  -- A caller that is the only one to receive notices, and that starts at the head of its loop, is
  -- never stuck: whatever else happens, once its command is applied and it waits in the `select`,
  -- there is a notice that it receives and returns by.
  pub sole_waiter_returns :
      (es : List Event) (x y : Waiting C)
      → AllWakeOnly w es
      → (x.waiter w).stage ≡ checking
      → y ≡ run json engine es x
      → (y.waiter w).stage ≡ selecting
      → (y.waiter w).index ≤ y.server.service.last_applied_index
      → ((run json engine (woken w ∷ checked w ∷ []) y).waiter w).stage ≡ returned
  sole_waiter_returns es x y only start reached selects own =
      let good : IsWakeable w y = rw reached (run-IsWakeable es x only (inl (λ e. cc))) in
      woken_returns y selects own (ground arith)

-- no message is handled
IsQuiet : Event → Type 0
IsQuiet (handled now msg) = ⊥
IsQuiet _ = Unit

unfoldable pub AllQuiet : List Event → Type 0
unfolding IsQuiet
AllQuiet [] = Unit
AllQuiet (e ∷ es) = IsQuiet e × AllQuiet es

-- There is no notice, and the caller waits for one or has given up.
abbrev IsStuck : {C : Type 0} → ℕ → ℕ → Waiting C → Type 0
IsStuck w applied_index x =
    (x.server.service.apply_notify ≡ false)
    × (x.server.service.last_applied_index ≡ applied_index)
    × (((x.waiter w).stage ≡ selecting) ⊎ ((x.waiter w).stage ≡ timed_out))

module _ {E C : Type 0} (json : Json E) (engine : Consensus C) (a b : ℕ) where
  after-IsStuck :
      (e : Event) (n : ℕ) (x : Waiting C)
      → IsQuiet e
      → IsStuck a n x
      → IsStuck a n (after json engine e x)
  unfolding after IsQuiet check_applied
  after-IsStuck (handled now msg) n x quiet stuck = absurd quiet
  after-IsStuck (checked v) n x quiet stuck = ground arith
  after-IsStuck (woken v) n x quiet stuck = ground arith
  after-IsStuck (cancelled v) n x quiet stuck = ground arith

  run-IsStuck :
      (es : List Event) (n : ℕ) (x : Waiting C)
      → AllQuiet es
      → IsStuck a n x
      → IsStuck a n (run json engine es x)
  unfolding run AllQuiet
  run-IsStuck [] n x quiet stuck = stuck
  run-IsStuck (e ∷ es) n x quiet stuck =
      run-IsStuck es n (after json engine e x) quiet.1 (after-IsStuck e n x quiet.0 stuck)

  stolen :
      (now n : ℕ) (bytes : Bytes) (x : Waiting C)
      → a ≢ b
      → (x.waiter a).stage ≡ selecting
      → (x.waiter b).stage ≡ selecting
      → n < (x.waiter b).index
      → (handle_apply json engine now (command_msg bytes n) x.server).0 ≡ done tt
      → IsStuck a n
          (run json engine (handled now (command_msg bytes n) ∷ woken b ∷ checked b ∷ []) x)
  unfolding run after check_applied
  stolen now n bytes x apart first second later fine =
      ground (arith, handled_command json engine now n bytes x.server fine)

  -- Of two callers that wait, the one whose command is not applied yet may receive the notice of the
  -- other's. The other is not woken then, although its command is applied: as long as no further
  -- message is handled, it does not return, and can only give up.
  pub lost_wakeup :
      (now n : ℕ) (bytes : Bytes) (x : Waiting C) (es : List Event)
      → a ≢ b
      → (x.waiter a).stage ≡ selecting
      → (x.waiter b).stage ≡ selecting
      → (x.waiter a).index ≤ n
      → n < (x.waiter b).index
      → (handle_apply json engine now (command_msg bytes n) x.server).0 ≡ done tt
      → AllQuiet es
      → let y =
          run json engine es
            (run json engine (handled now (command_msg bytes n) ∷ woken b ∷ checked b ∷ []) x) in
        ((x.waiter a).index ≤ y.server.service.last_applied_index)
        × (((y.waiter a).stage ≡ selecting) ⊎ ((y.waiter a).stage ≡ timed_out))
  lost_wakeup now n bytes x es apart first second own later fine quiet =
      let steps = handled now (command_msg bytes n) ∷ woken b ∷ checked b ∷ [] in
      let stuck =
        run-IsStuck es n (run json engine steps x) quiet
          (stolen now n bytes x apart first second later fine) in
      (omega (arith, stuck.1), stuck.2)
