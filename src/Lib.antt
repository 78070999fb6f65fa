-- ===== src/Lib.antt =====
-- Raft replication of a key-value store: a model of the replica in internal/consensus/raft, of the
-- state machine in internal/kv, of the service in front of it, and of the transport between replicas
-- and to clients.
--
-- The program is a cluster of replicas. A client's command goes to the leader (`StartCommand`),
-- which appends it to its log and sends it to its peers (`AppendEntries`); an entry that a majority
-- holds is committed, and each replica's apply loop hands the committed commands to the state
-- machine. Replicas elect a leader by votes (`RequestVote`); old entries are replaced by a snapshot
-- (`Snapshot`, `InstallSnapshot`); what must outlive a crash is kept on a storage. A service applies
-- the commands, asks for snapshots and lets each caller wait for its command; clients reach it over
-- gRPC and look for the leader.
--
-- The parts, and the files of the library:
--   Base                  shared names, Boolean tests, lists over the native numbers
--   Raft/Types            internal/consensus/raft/types.go, internal/consensus/consensus.go
--   Raft/Storage          internal/consensus/raft/storage.go: the interface of a storage, with what
--                         the node relies on as the predicates IsDurable and IsAtomic
--   Raft/Storage/Memory   internal/consensus/raft/storage_memory.go, with the log as a slice of an array;
--                         Durable is about one call, Calls about sequences of them
--   Raft/Storage/Directory, Raft/Storage/JsonFiles
--                         internal/consensus/raft/storage_json.go; Effects and Durable are about calls
--                         that return no error, Faults about calls that return one
--   Raft/Node             the state and the index helpers of internal/consensus/raft/node.go;
--                         Node/Timing is metrics_timing.go, Node/Index and Node/Terms are lemmas
--   Raft/Action           the actions on a replica, and the persist... helpers of node.go
--   Raft/Vote             HandleRequestVote of internal/consensus/raft/rpc_handlers.go
--   Raft/Append           HandleAppendEntries of the same file; its proofs follow the handler:
--                         Frame, Round, Merge, Stages, Success, Refusal
--   Raft/Install          HandleInstallSnapshot, and applySnapshotLocked of snapshot.go; Installed is
--                         about what it leaves
--   Raft/Commit           advanceCommitIndexLocked of internal/consensus/raft/replication.go
--   Raft/Replicate        the sender in replication.go and snapshot.go
--   Raft/Command          StartCommand, IsLeader and Snapshot of consensus.go
--   Raft/Election         internal/consensus/raft/election.go
--   Raft/Apply            internal/consensus/raft/apply.go
--   Raft/Restart          NewNode of node.go
--   Raft/Report           internal/consensus/raft/admin.go
--   Raft/Steps            a replica as a state machine over all of these; Terms, Covered and Restarts
--                         are about its runs, the last about runs with restarts from the storage
--   Raft/Chain            what is known of each entry of a log and of a request: its index, and the
--                         term of the entry before it; Linked, Merge and Append follow the handler of
--                         AppendEntries, Grow is about what puts entries behind a log or cuts it
--   Raft/Cluster          several replicas, and the votes that a candidate gets from them; Restarts
--                         counts the votes on their storages
--   Raft/Cluster/Network  several replicas with the AppendEntries requests that they have sent; Deliver
--                         is about one event, Runs about all of them
--   Kv                    internal/kv/store.go and internal/kv/command.go; encoding/json is the
--                         parameter Json
--   Transport             internal/transport/grpc/raft: Messages are those of
--                         pkg/proto/raftv1/raft.pb.go, Mapping is mapping.go, Peers is server.go and
--                         client.go
--   Transport/KvServer    internal/transport/grpc/kv/server.go, and Client of client.go beside it;
--                         Transport/ClusterClient is the ClusterClient of that file
--   Transport/Admin       internal/transport/grpc/admin/server.go
--   Consensus             the interface of internal/consensus/consensus.go
--   Service               internal/service/kv.go; Service/Waiters is its waitApplied beside the apply
--                         loop, Service/Proposals is about what a proposal does in the replica
--   Config                internal/app/config.go; strings and strconv are the parameter Texts;
--                         Config/Startup is the settings part of run in cmd/node/main.go
--   Client                cmd/client: Columns and Cells are the table of the admin view in admin.go,
--                         Screen its model with its messages, Poll its rows and the alert about the
--                         leader; Batch is the commands of main.go
--   Tests                 the cluster of the examples, and runs on it
--
-- A replica is the record `Replica`: the node's fields and its storage. A function that holds the
-- mutex is an `Action`: it takes a replica and returns an outcome (a result, an error of the code,
-- or a panic) with the new replica. A function that releases the mutex in between is one action for
-- each section, so that every interleaving of the goroutines is a sequence of actions; `Event` of
-- Raft/Steps lists them, and `run` is such a sequence. The answer of a peer is an argument of the
-- action that handles it, and so is the time.
--
-- The 64-bit integers (terms and indices) are natural numbers: they count up by one from zero, and
-- do not reach the bound. Differences that could be negative in the code are tested as the code
-- does, and an index out of range is a panic of the model. The maps of the node are functions, with
-- zero or false for a missing key, as in the code; the store's map is the list of its keys with their
-- values. A channel of size one that only wakes a goroutine is a flag.
-- The loop over the candidates for the commit index takes one round for each index between the
-- commit index and the last one; the loop of the apply goroutine takes fuel, and the theorem on it
-- says how many entries a given fuel reaches.
--
-- A directory of files has a list of the results of the next calls of the operating system, so that
-- each of them can fail. The callers that wait in the service are events of a list like those of a
-- replica; the calls of one cluster client follow one another. The count of commands of the service
-- is taken modulo 2^64, as it is a uint64 there.
--
-- Not modelled: logging, tracing and metrics; the wiring of internal/app and the rest of cmd/node, which starts
-- goroutines, listeners and signal handlers around the modelled parts; of cmd/client the connections,
-- the flags and files, how the answers of a poll are sorted, the colours, and the lines around the
-- table; and the code of generated files other than the messages' fields. A restart is an event only
-- in the runs of Raft/Steps/Restarts and Raft/Cluster/Restarts. The runs of Raft/Cluster/Network install no snapshot
-- and restart no member, and which member leads a term is a parameter of them; that a term has one
-- candidate with the votes of a quorum is what Raft/Cluster/Elections shows on its own.
mod Base
pub mod Client
pub mod Config
pub mod Consensus
pub mod Kv
pub mod Raft
pub mod Service
pub mod Transport
mod Tests
