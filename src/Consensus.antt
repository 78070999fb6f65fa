-- ===== src/Consensus.antt =====
-- internal/consensus/consensus.go: what the state machine uses of a consensus engine, and the replica
-- as such an engine. `Run`, `Stop` and the channel of `ApplyCh` are the schedule of the replica's
-- actions and the messages that they return.
use consensus_lab.Base.{ℕ, Bool}
use consensus_lab.Raft.Types.{Bytes}
use consensus_lab.Raft.Storage.{Storage}
use consensus_lab.Raft.Action.{Replica, Outcome}
use consensus_lab.Raft.Command.{is_leader, start_command, take_snapshot}

pub record Consensus (C : Type 0) : Type 0 where
  pub start_command : Bytes → C → Outcome (ℕ × Bool) × C
  pub is_leader : C → Bool
  pub snapshot : ℕ → Bytes → C → Outcome (Unit {0}) × C

-- `now` is the time at which a command is noted
abbrev pub raft_consensus : {S : Type 0} → Storage S → ℕ → Consensus (Replica S)
raft_consensus st now = record {
  start_command = start_command st now;
  is_leader = λ s. is_leader s.node;
  snapshot = take_snapshot st;
}
