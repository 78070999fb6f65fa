-- ===== src/Service/Waiters.antt =====
-- The callers of `Put` and `Delete` that wait for their commands: `waitApplied` of
-- internal/service/kv.go, beside the apply loop that wakes them. Each event is a section under the
-- mutex, or a choice of the `select`.
pub mod Wakeups
use consensus_lab.Base.{ℕ, ◌==◌, Bool, true, false, if◌then◌else◌, List, [], ◌∷◌}
use consensus_lab.Raft.Types.{ApplyMsg}
use consensus_lab.Consensus.{Consensus}
use consensus_lab.Kv.{Json}
use consensus_lab.Service.{KvService, Server, handle_apply, check_applied}

-- what a caller does next, or how its call has ended
pub data Stage : Type 0 where
  -- at the head of the loop
  checking : Stage
  -- in the `select`
  selecting : Stage
  returned : Stage
  timed_out : Stage

abbrev pub is_checking : Stage → Bool
is_checking checking = true
is_checking _ = false

abbrev pub is_selecting : Stage → Bool
is_selecting selecting = true
is_selecting _ = false

pub record Waiter : Type 0 where
  pub index : ℕ
  pub stage : Stage

pub record Waiting (C : Type 0) : Type 0 where
  pub server : Server C
  pub waiter : ℕ → Waiter

pub data Event : Type 0 where
  -- the apply loop handles a message
  handled : ℕ → ApplyMsg → Event
  -- a caller checks the index
  checked : ℕ → Event
  -- a caller receives from `applyNotifyCh`
  woken : ℕ → Event
  -- a caller's context is done
  cancelled : ℕ → Event

unfoldable pub set_stage : ℕ → Stage → (ℕ → Waiter) → ℕ → Waiter
set_stage w stage waiter i = if i == w then record (waiter w) { stage = stage } else waiter i

abbrev pub take_notice : KvService → KvService
take_notice s = record s { apply_notify = false }

module _ {C : Type 0} where
  -- the check: the caller returns, or goes on to the `select`
  unfoldable pub check : ℕ → Waiting C → Waiting C
  unfolding set_stage check_applied
  check w x =
      let r = check_applied (x.waiter w).index x.server.service in
      record {
        server = record x.server { service = r.1 };
        waiter = set_stage w (if r.0 then returned else selecting) x.waiter;
      }

  -- a receive needs a notice, and takes it
  unfoldable pub wake : ℕ → Waiting C → Waiting C
  unfolding set_stage
  wake w x =
      if x.server.service.apply_notify
      then record {
        server = record x.server { service = take_notice x.server.service };
        waiter = set_stage w checking x.waiter;
      }
      else x

module _ {E C : Type 0} (json : Json E) (engine : Consensus C) where
  -- An event that the caller's stage does not allow changes nothing.
  unfoldable pub after : Event → Waiting C → Waiting C
  unfolding check wake set_stage
  after (handled now msg) x = record x { server = (handle_apply json engine now msg x.server).1 }
  after (checked w) x = if is_checking (x.waiter w).stage then check w x else x
  after (woken w) x = if is_selecting (x.waiter w).stage then wake w x else x
  after (cancelled w) x =
      if is_selecting (x.waiter w).stage
      then record x { waiter = set_stage w timed_out x.waiter }
      else x

  unfoldable pub run : List Event → Waiting C → Waiting C
  unfolding after
  run [] x = x
  run (e ∷ es) x = run es (after e x)
