-- ===== src/Tests/Services.antt =====
-- The service behind a concrete replica, and its waiting callers.
use consensus_lab.Base.{ℕ, ◌+◌, ◌≤◌, ◌<◌, ◌≡◌, ◌⊎◌, refl, none, List, [], ◌∷◌, arith}
use consensus_lab.Raft.Types.{follower, leader, ApplyMsg, command_msg, LogEntry}
use consensus_lab.Raft.Storage.Memory.{InMemoryStorage, memory}
use consensus_lab.Raft.Node.{last_log_index, entry_at, quorum_size}
use consensus_lab.Raft.Commit.{advance_commit_index, find_commit, votes_for}
use consensus_lab.Raft.Action.{Replica, ok}
use consensus_lab.Raft.Apply.{apply_entries}
use consensus_lab.Raft.Apply.Messages.{to_send}
use consensus_lab.Consensus.{Consensus, raft_consensus}
use consensus_lab.Kv.{Store, new_store, apply, apply_all, execute}
use consensus_lab.Service.{
  Server, propose, put_command, done, new_kv, handle_apply, applied, run_apply_loop, check_applied,
}
use consensus_lab.Service.Loop.{
  Timed, commands, AllDecode, run_apply_loop_bounds, run_apply_loop-apply_entries_total,
}
use consensus_lab.Service.Proposals.{propose-execute}
use consensus_lab.Raft.Command.{start_command}
use consensus_lab.Service.Waiters.{
  Stage, checking, selecting, returned, timed_out, Waiting, Event, handled, checked, woken,
  cancelled, after, run,
}
use consensus_lab.Service.Waiters.Wakeups.{AllWakeOnly, AllQuiet, sole_waiter_returns, lost_wakeup}
use consensus_lab.Tests.Cluster.{node_b, replica, entry}
use consensus_lab.Tests.Stores.{json, json-IsFaithful}

-- two committed commands wait
abbrev committed : Replica InMemoryStorage
committed =
    replica (record (node_b follower 1 "" (entry 1 1 ∷ entry 1 2 ∷ []) 0 2) { last_applied = 0 })

abbrev engine : Consensus (Replica InMemoryStorage)
engine = raft_consensus memory 0

-- the service takes a snapshot after so many commands
abbrev server : ℕ → Server (Replica InMemoryStorage)
server every = record { service = new_kv new_store every; engine = committed }

abbrev messages : List ApplyMsg
messages = command_msg (1 ∷ []) 1 ∷ command_msg (2 ∷ []) 2 ∷ []

abbrev timed : Timed
timed = (7, command_msg (1 ∷ []) 1) ∷ (8, command_msg (2 ∷ []) 2) ∷ []

sent : (apply_entries 5 3 committed).0 ≡ ok messages
unfolding apply_entries entry_at last_log_index
sent = refl

decodable : AllDecode json (to_send 5 committed.node)
unfolding AllDecode to_send last_log_index
decodable = ((_, refl), ((_, refl), tt))

run_apply_loop-apply_entries_total_example :
    let r = run_apply_loop json engine timed (server 0) in
    (r.0 ≡ done tt)
    × (r.1.service.store ≡ apply_all json (commands (to_send 5 committed.node)) new_store)
    × (r.1.service.last_applied_index ≡ (apply_entries 5 3 committed).1.node.last_applied)
run_apply_loop-apply_entries_total_example =
    run_apply_loop-apply_entries_total json engine 3 5 committed messages timed (server 0)
      (omega arith) refl refl decodable sent refl

both_handled : (run_apply_loop json engine timed (server 3)).0 ≡ done tt
unfolding run_apply_loop handle_apply apply execute applied
both_handled = refl

run_apply_loop_bounds_example :
    (run_apply_loop json engine timed (server 3)).1.service.applied_since_snap < 3
run_apply_loop_bounds_example =
    run_apply_loop_bounds json engine timed (server 3) (omega arith) (omega arith) (omega arith)
      both_handled

-- caller 0 waits for index 1, caller 1 for index 2
abbrev waiters : Stage → Waiting (Replica InMemoryStorage)
waiters stage = record { server = server 0; waiter = λ w. record { index = w + 1; stage = stage } }

abbrev first_applied : Event
first_applied = handled 7 (command_msg (1 ∷ []) 1)

abbrev waited : Waiting (Replica InMemoryStorage)
waited = run json engine (checked 0 ∷ first_applied ∷ []) (waiters checking)

waited_selecting : (waited.waiter 0).stage ≡ selecting
unfolding run after handle_apply apply execute applied check_applied
waited_selecting = refl

waited_applied : (waited.waiter 0).index ≤ waited.server.service.last_applied_index
unfolding run after handle_apply apply execute applied check_applied
waited_applied = omega arith

only_first : AllWakeOnly 0 (checked 0 ∷ first_applied ∷ [])
unfolding AllWakeOnly
only_first = (tt, (tt, tt))

sole_waiter_returns_example :
    ((run json engine (woken 0 ∷ checked 0 ∷ []) waited).waiter 0).stage ≡ returned
sole_waiter_returns_example =
    sole_waiter_returns json engine 0 (checked 0 ∷ first_applied ∷ []) (waiters checking) waited
      only_first refl refl waited_selecting waited_applied

first_done : (handle_apply json engine 7 (command_msg (1 ∷ []) 1) (server 0)).0 ≡ done tt
unfolding handle_apply apply execute applied
first_done = refl

quiet : AllQuiet (woken 0 ∷ cancelled 0 ∷ [])
unfolding AllQuiet
quiet = (tt, (tt, tt))

lost_wakeup_example :
    let y =
      run json engine
        (woken 0 ∷ cancelled 0 ∷ [])
        (run json engine (first_applied ∷ woken 1 ∷ checked 1 ∷ []) (waiters selecting)) in
    (1 ≤ y.server.service.last_applied_index)
    × (((y.waiter 0).stage ≡ selecting) ⊎ ((y.waiter 0).stage ≡ timed_out))
lost_wakeup_example =
    lost_wakeup json engine 0 1 7 1 (1 ∷ []) (waiters selecting) (woken 0 ∷ cancelled 0 ∷ [])
      (omega arith) refl refl (omega arith) (omega arith) first_done quiet

-- a leader of term 2 with one entry
abbrev leading : Server (Replica InMemoryStorage)
leading = record {
  service = new_kv new_store 0;
  engine = replica (node_b leader 2 "b" (entry 1 1 ∷ []) 0 0);
}

put_x : (propose json engine (put_command "x" "7") leading).0 ≡ done 2
unfolding propose start_command last_log_index memory advance_commit_index find_commit entry_at
    quorum_size votes_for
put_x = refl

propose-execute_example :
    let after = (propose json engine (put_command "x" "7") leading).1.engine.node in
    (leader ≡ leader)
    × (2 ≡ last_log_index leading.engine.node + 1)
    × ((e : LogEntry) × (after.log ≡ entry 1 1 ∷ e ∷ [])
        × (e.term ≡ 2)
        × ((store : Store)
            → apply json e.command store ≡ (none, execute (put_command "x" "7") store)))
propose-execute_example =
    propose-execute json memory 0 (put_command "x" "7") leading 2 json-IsFaithful put_x
