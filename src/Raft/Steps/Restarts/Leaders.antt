-- ===== src/Raft/Steps/Restarts/Leaders.antt =====
-- A leader's actions, a command and an answer to an AppendEntries, keep the stored vote.
use consensus_lab.Base.{ℕ, ◌<◌, String, Option, arith, none, some}
use consensus_lab.Raft.Types.{Bytes, PersistentState, AppendEntriesRequest, AppendEntriesResponse}
use consensus_lab.Raft.Storage.{Storage, IsDurable, IsAtomic}
use consensus_lab.Raft.Node.{hard_state}
use consensus_lab.Raft.Action.{Replica}
use consensus_lab.Raft.Command.{start_command}
use consensus_lab.Raft.Commit.{advance_commit_index}
use consensus_lab.Raft.Replicate.{
  send_append_entries, step_down, replicated, handle_append_entries_response, finish_replicate,
}
use consensus_lab.Raft.Steps.Restarts.{
  Vouched, Durably, save_hard_state_cases, append_log-hard, continue-Durably,
}

module _ {S : Type 0} (st : Storage S) (stored : S → PersistentState) where
  pub new_command :
      (now : ℕ) (cmd : Bytes) (s : Replica S)
      → IsDurable st stored
      → IsAtomic st stored
      → Vouched stored s
      → Durably stored s (start_command st now cmd s).1
  unfolding start_command advance_commit_index hard_state
  new_command now cmd s durable atomic base = grind (arith, save_hard_state_cases, append_log-hard)

  stepped_down :
      (term : ℕ) (s : Replica S)
      → IsDurable st stored
      → IsAtomic st stored
      → s.node.current_term < term
      → Vouched stored s
      → Durably stored s (step_down st term s).1
  unfolding step_down hard_state
  stepped_down term s durable atomic newer base = grind (arith, save_hard_state_cases)

  replicated_kept :
      (now : ℕ) (peer : String) (req : AppendEntriesRequest) (s : Replica S)
      → IsDurable st stored
      → IsAtomic st stored
      → Vouched stored s
      → Durably stored s (replicated st now peer req s).1
  unfolding replicated advance_commit_index hard_state
  replicated_kept now peer req s durable atomic base = grind (arith, save_hard_state_cases)

  response_kept :
      (now : ℕ) (peer : String) (req : AppendEntriesRequest) (resp : AppendEntriesResponse)
      (s : Replica S)
      → IsDurable st stored
      → IsAtomic st stored
      → Vouched stored s
      → Durably stored s (handle_append_entries_response st now peer req resp s).1
  unfolding handle_append_entries_response
  response_kept now peer req resp s durable atomic base =
      let down = stepped_down resp.term s durable atomic in
      ground (arith, down, replicated_kept now peer req s durable atomic base)

  pub append_answer :
      (now : ℕ) (peer : String) (req : AppendEntriesRequest) (answer : Option AppendEntriesResponse)
      (s : Replica S)
      → IsDurable st stored
      → IsAtomic st stored
      → Vouched stored s
      → Durably stored s (send_append_entries st now peer req answer s).1
  unfolding send_append_entries finish_replicate
  append_answer now peer req none s durable atomic base = ground arith
  append_answer now peer req (some resp) s durable atomic base =
      let t = (handle_append_entries_response st now peer req resp s).1 in
      let kept = response_kept now peer req resp s durable atomic base in
      continue-Durably stored (handle_append_entries_response st now peer req resp s).0 _ s t kept
        (λ _. ground (arith, kept))
