-- ===== src/Tests/Calls.antt =====
-- RPCs between concrete replicas.
use consensus_lab.Base.{◌≡◌, refl}
use consensus_lab.Raft.Storage.Memory.{memory}
use consensus_lab.Raft.Append.{handle_append_entries}
use consensus_lab.Transport.Peers.{reply_of, serve_append_entries, call_append_entries}
use consensus_lab.Transport.Peers.Calls.{AllCommands, call_append_entries-serve}
use consensus_lab.Tests.Cluster.{behind, overwrite}

all_commands : AllCommands overwrite.entries
unfolding AllCommands
all_commands = (refl, (refl, tt))

served_as_handled : call_append_entries (serve_append_entries memory 4) overwrite behind ≡ (
  reply_of (λ a. a) (handle_append_entries memory 4 overwrite behind).0,
  (handle_append_entries memory 4 overwrite behind).1,
)
served_as_handled = call_append_entries-serve memory 4 overwrite behind all_commands
