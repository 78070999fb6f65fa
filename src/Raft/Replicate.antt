-- ===== src/Raft/Replicate.antt =====
-- The leader's side of replication: internal/consensus/raft/replication.go and the senders of
-- internal/consensus/raft/snapshot.go. The peer's answer to a call is an argument; `none` stands
-- for an error of the transport or a nil response.
pub mod Progress
pub mod Requests
use consensus_lab.Base.{
  ℕ, ◌+◌, ◌-◌, ltb, leb, ◌==◌, String, Bool, true, false, not, ◌&&◌, ◌||◌, if◌then◌else◌, Option,
  none, some, List, [], length, drop,
}
use consensus_lab.Raft.Types.{
  follower, LogEntry, Snapshot, AppendEntriesRequest, AppendEntriesResponse, InstallSnapshotRequest,
  InstallSnapshotResponse,
}
use consensus_lab.Raft.Storage.{Storage}
use consensus_lab.Raft.Node.{Node, update, last_log_index, last_index_of_term}
use consensus_lab.Raft.Action.{
  Action, ok, panic, pure, ◌>>=◌, ◌>>◌, get, modify, read_entry, persist_hard_state, mark_degraded,
  notify_apply, notify_replicate,
}
use consensus_lab.Raft.Command.{is_leader_role}
use consensus_lab.Raft.Commit.{advance_commit_index}

module _ {S : Type 0} where
  prev_term : ℕ → Action S ℕ
  prev_term prev_log_index = do
    n ← get
    if ltb n.snapshot_index prev_log_index
        then (do entry ← read_entry prev_log_index; pure entry.term)
        else if prev_log_index == n.snapshot_index
        then pure n.snapshot_term
        else pure 0

  -- `n.log[nextIndex-n.snapshotIndex-1:]`, which panics on a negative offset
  suffix_from : ℕ → Action S (List LogEntry)
  suffix_from next s =
      if ltb (last_log_index s.node) next
      then (ok [], s)
      else if leb next s.node.snapshot_index
      then (panic, s)
      else (ok (drop (next - s.node.snapshot_index - 1) s.node.log), s)

  unfoldable pub build_append_entries : String → Action S AppendEntriesRequest
  unfolding prev_term suffix_from
  build_append_entries peer = do
    n ← get
    let next = if ltb (n.next_index peer) 1 then 1 else n.next_index peer
    prev_log_term ← prev_term (next - 1)
    entries ← suffix_from next
    pure (record {
      term = n.current_term;
      leader_id = n.id;
      prev_log_index = next - 1;
      prev_log_term = prev_log_term;
      entries = entries;
      leader_commit = n.commit_index;
    })

  -- the request, if one is to be sent, and false if the node is no leader
  unfoldable pub append_entries_request_for_peer :
      String → Action S (Option AppendEntriesRequest × Bool)
  unfolding build_append_entries
  append_entries_request_for_peer peer = do
    n ← get
    if not (is_leader_role n.role)
        then pure (none, false)
        else if n.replicate_in_flight peer
        then (do
          modify (λ m. record m { replicate_pending = update m.replicate_pending peer true })
          pure (none, true))
        else do
          modify (λ m. record m { replicate_in_flight = update m.replicate_in_flight peer true })
          req ← build_append_entries peer
          pure (some req, true)

  -- `n.snapshot` is dereferenced
  snapshot_request : Node → Option Snapshot → Action S InstallSnapshotRequest
  snapshot_request n none s = (panic, s)
  snapshot_request n (some snap) s = (
    ok (record {
      term = n.current_term;
      leader_id = n.id;
      last_included_index = snap.last_included_index;
      last_included_term = snap.last_included_term;
      config = snap.config;
      bytes = snap.bytes;
    }),
    s,
  )

  unfoldable pub install_snapshot_request_for_peer :
      String → Action S (Option InstallSnapshotRequest × Bool)
  unfolding snapshot_request
  install_snapshot_request_for_peer peer = do
    n ← get
    if not (is_leader_role n.role)
        then pure (none, false)
        else if n.snapshot_index == 0 || ltb n.snapshot_index (n.next_index peer)
        then pure (none, true)
        else if n.replicate_in_flight peer
        then (do
          modify (λ m. record m { replicate_pending = update m.replicate_pending peer true })
          pure (none, true))
        else do
          modify (λ m. record m { replicate_in_flight = update m.replicate_in_flight peer true })
          req ← snapshot_request n n.snapshot
          pure (some req, true)

  -- the deferred end of `sendInstallSnapshot`
  finish_install : String → Action S (Unit {0})
  finish_install peer = do
    n ← get
    modify λ m. record m {
      replicate_in_flight = update m.replicate_in_flight peer false;
      replicate_pending = update m.replicate_pending peer false;
    }
    if n.replicate_pending peer then modify notify_replicate else pure tt

  -- the deferred end of `sendAppendEntries`
  unfoldable pub finish_replicate : String → Action S (Unit {0})
  finish_replicate peer = do
    n ← get
    modify λ m. record m {
      replicate_in_flight = update m.replicate_in_flight peer false;
      replicate_pending =
          if n.replicate_pending peer
          then update m.replicate_pending peer false
          else m.replicate_pending;
    }
    if n.replicate_pending peer then modify notify_replicate else pure tt

-- The new `nextIndex` of a peer that has refused, from the old one and the peer's hint.
pub hinted_next : Node → ℕ → AppendEntriesResponse → ℕ
hinted_next n prev_next resp =
    let lower = if ltb 1 prev_next then prev_next - 1 else prev_next in
    let at_term = last_index_of_term n resp.conflict_term in
    if ltb 0 resp.conflict_term
    then (if ltb 0 at_term
        then at_term + 1
        else if ltb 0 resp.conflict_index
        then resp.conflict_index
        else lower)
    else if ltb 0 resp.conflict_index
    then resp.conflict_index
    else if ltb 1 prev_next
    then prev_next - 1
    else 1

unfoldable pub backed_off : Node → ℕ → AppendEntriesResponse → ℕ
unfolding hinted_next
backed_off n prev_next resp =
    let hint = hinted_next n prev_next resp in
    let next = if ltb hint 1 then 1 else hint in
    if leb prev_next next && ltb 1 prev_next then prev_next - 1 else next

abbrev pub raise_to : (String → ℕ) → String → ℕ → String → ℕ
raise_to m peer value = if ltb (m peer) value then update m peer value else m

module _ {S : Type 0} (st : Storage S) where
  -- a newer term in an answer: the step down that cannot be saved degrades the node
  unfoldable pub step_down : ℕ → Action S (Unit {0})
  step_down term = do
    modify (λ n. record n { current_term = term; voted_for = ""; role = follower })
    saved ← persist_hard_state st
    elim saved [ none ↦ pure tt | some e ↦ modify mark_degraded ]

  unfoldable pub replicated : ℕ → String → AppendEntriesRequest → Action S (Unit {0})
  replicated now peer req = do
    let matched = req.prev_log_index + length req.entries
    modify λ n. record n {
      match_index = raise_to n.match_index peer matched;
      next_index = raise_to n.next_index peer (matched + 1);
    }
    advanced ← advance_commit_index st now
    (if advanced then modify notify_apply else pure tt)
    if ltb 0 (length req.entries) then modify notify_replicate else pure tt

  unfoldable pub handle_append_entries_response :
      ℕ → String → AppendEntriesRequest → AppendEntriesResponse → Action S (Unit {0})
  unfolding step_down replicated
  handle_append_entries_response now peer req resp = do
    n ← get
    if ltb n.current_term resp.term
        then step_down resp.term
        else if not (is_leader_role n.role)
        then pure tt
        else if not (req.term == n.current_term)
        then pure tt
        else if not resp.success
        then (do
          modify λ m. record m {
            next_index = update m.next_index peer (backed_off m (m.next_index peer) resp);
          }
          modify notify_replicate)
        else replicated now peer req

  append_answered :
      ℕ → String → AppendEntriesRequest → Option AppendEntriesResponse → Action S (Unit {0})
  unfolding handle_append_entries_response
  append_answered now peer req none = pure tt
  append_answered now peer req (some resp) = handle_append_entries_response now peer req resp

  unfoldable pub send_append_entries :
      ℕ → String → AppendEntriesRequest → Option AppendEntriesResponse → Action S (Unit {0})
  unfolding append_answered finish_replicate
  send_append_entries now peer req answer = do
    append_answered now peer req answer
    finish_replicate peer

  snapshot_answered :
      String → InstallSnapshotRequest → Option InstallSnapshotResponse → Action S (Unit {0})
  unfolding step_down
  snapshot_answered peer req none = pure tt
  snapshot_answered peer req (some resp) = do
    n ← get
    if ltb n.current_term resp.term
        then step_down resp.term
        else if not (is_leader_role n.role) || not (req.term == n.current_term)
        then pure tt
        else do
          modify λ m. record m {
            match_index = raise_to m.match_index peer req.last_included_index;
            next_index = raise_to m.next_index peer (req.last_included_index + 1);
          }
          modify notify_replicate

  unfoldable pub send_install_snapshot :
      String → InstallSnapshotRequest → Option InstallSnapshotResponse → Action S (Unit {0})
  unfolding snapshot_answered finish_install
  send_install_snapshot peer req answer = do snapshot_answered peer req answer; finish_install peer
