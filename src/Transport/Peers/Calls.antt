-- ===== src/Transport/Peers/Calls.antt =====
-- A call of a peer does what a call of its handler does.
use consensus_lab.Base.{ℕ, ◌≡◌, refl, ap, List, [], ◌∷◌}
use consensus_lab.Raft.Types.{
  entry_command, LogEntry, RequestVoteRequest, AppendEntriesRequest, InstallSnapshotRequest,
}
use consensus_lab.Raft.Storage.{Storage}
use consensus_lab.Raft.Action.{Replica, Outcome, ok, err, panic}
use consensus_lab.Raft.Vote.{handle_request_vote}
use consensus_lab.Raft.Append.{handle_append_entries}
use consensus_lab.Raft.Install.{handle_install_snapshot}
use consensus_lab.Transport.Mapping.{
  entries_from_pb, entries_to_pb, cluster_config_from_pb, cluster_config_to_pb,
  request_vote_request_from_pb, request_vote_request_to_pb, request_vote_response_from_pb,
  request_vote_response_to_pb, append_entries_request_from_pb, append_entries_request_to_pb,
  append_entries_response_from_pb, append_entries_response_to_pb, install_snapshot_request_from_pb,
  install_snapshot_request_to_pb, install_snapshot_response_from_pb,
  install_snapshot_response_to_pb,
}
use consensus_lab.Transport.Peers.{
  reply_of, received, serve_request_vote, serve_append_entries, serve_install_snapshot,
  call_request_vote, call_append_entries, call_install_snapshot,
}

unfoldable pub AllCommands : List LogEntry → Type 0
AllCommands [] = Unit
AllCommands (e ∷ es) = (e.entry_type ≡ entry_command) × AllCommands es

entries_from_pb-to_pb :
    (es : List LogEntry) → AllCommands es → entries_from_pb (entries_to_pb es) ≡ es
unfolding entries_from_pb entries_to_pb AllCommands
entries_from_pb-to_pb [] _ = refl
entries_from_pb-to_pb (e ∷ es) commands =
    let head : record { term = e.term; entry_type = entry_command; command = e.command } ≡ e =
      rw (commands.0) refl in
    cc (head, entries_from_pb-to_pb es commands.1)

append_entries_request_from_pb-to_pb :
    (req : AppendEntriesRequest)
    → AllCommands req.entries
    → append_entries_request_from_pb (append_entries_request_to_pb req) ≡ req
unfolding append_entries_request_from_pb append_entries_request_to_pb
append_entries_request_from_pb-to_pb req commands =
    ap (λ es. record req { entries = es }) (entries_from_pb-to_pb req.entries commands)

install_snapshot_request_from_pb-to_pb :
    (req : InstallSnapshotRequest)
    → install_snapshot_request_from_pb (install_snapshot_request_to_pb req) ≡ req
unfolding install_snapshot_request_from_pb install_snapshot_request_to_pb cluster_config_from_pb
    cluster_config_to_pb
install_snapshot_request_from_pb-to_pb req = refl

module _ {A B : Type 0} where
  received-reply_of :
      (to_pb : A → B) (from_pb : B → A) (o : Outcome A)
      → ((a : A) → from_pb (to_pb a) ≡ a)
      → received from_pb (reply_of to_pb o) ≡ reply_of (λ a. a) o
  unfolding received reply_of
  received-reply_of to_pb from_pb (ok a) back = rw (back a) refl
  received-reply_of to_pb from_pb (err e) back = refl
  received-reply_of to_pb from_pb panic back = refl

module _ {S : Type 0} (st : Storage S) where
  -- A RequestVote that a client sends to a server returns what the handler returns for the request,
  -- an error of the handler as its status code, and leaves the replica as the handler leaves it.
  pub call_request_vote-serve :
      (req : RequestVoteRequest) (s : Replica S)
      → call_request_vote (serve_request_vote st) req s
        ≡ (reply_of (λ a. a) (handle_request_vote st req s).0, (handle_request_vote st req s).1)
  unfolding call_request_vote serve_request_vote request_vote_request_from_pb
      request_vote_request_to_pb request_vote_response_from_pb request_vote_response_to_pb
  call_request_vote-serve req s =
      ap (λ r. (r, (handle_request_vote st req s).1))
        (received-reply_of request_vote_response_to_pb request_vote_response_from_pb
          (handle_request_vote st req s).0 (λ a. refl))

  -- An AppendEntries whose entries are all commands, sent by a client to a server, returns what the
  -- handler returns for the request, an error as its status code, and leaves the replica as the
  -- handler leaves it.
  pub call_append_entries-serve :
      (now : ℕ) (req : AppendEntriesRequest) (s : Replica S)
      → AllCommands req.entries
      → call_append_entries (serve_append_entries st now) req s ≡ (
        reply_of (λ a. a) (handle_append_entries st now req s).0,
        (handle_append_entries st now req s).1,
      )
  unfolding call_append_entries serve_append_entries append_entries_response_from_pb
      append_entries_response_to_pb
  call_append_entries-serve now req s commands =
      rw (append_entries_request_from_pb-to_pb req commands) (
        ap (λ r. (r, (handle_append_entries st now req s).1))
          (received-reply_of append_entries_response_to_pb append_entries_response_from_pb
            (handle_append_entries st now req s).0 (λ a. refl)))

  -- An InstallSnapshot that a client sends to a server returns what the handler returns for the
  -- request, an error of the handler as its status code, and leaves the replica as the handler leaves
  -- it.
  pub call_install_snapshot-serve :
      (req : InstallSnapshotRequest) (s : Replica S)
      → call_install_snapshot (serve_install_snapshot st) req s ≡ (
        reply_of (λ a. a) (handle_install_snapshot st req s).0,
        (handle_install_snapshot st req s).1,
      )
  unfolding call_install_snapshot serve_install_snapshot install_snapshot_response_from_pb
      install_snapshot_response_to_pb
  call_install_snapshot-serve req s = rw (install_snapshot_request_from_pb-to_pb req) (
      ap (λ r. (r, (handle_install_snapshot st req s).1))
        (received-reply_of install_snapshot_response_to_pb install_snapshot_response_from_pb
          (handle_install_snapshot st req s).0 (λ a. refl)))
