-- ===== src/Client/Poll.antt =====
-- From a node's answer to a row of the admin view, and the alert that the rows give rise to:
-- cmd/client/admin.go. What fmt, strings, sort and time do is the record `Formats`. The nodes are
-- asked at the same time and answer one by one, each into its own row.

pub mod Alert
use consensus_lab.Base.{
  ℕ, ltb, leb, ◌==◌, ◌+◌, suc, zero, ◌⊎◌, inl, inr, String, str_eq, Bool, true, false, not, ◌||◌,
  ◌&&◌, if◌then◌else◌, Option, none, some, List, [], ◌∷◌, length, map,
}
use Prim.Native.String.{◌++◌}
use consensus_lab.Transport.Admin.{
  PbConsensusType, consensus_type_unspecified, consensus_type_raft, PbNodeRole,
  node_role_unspecified, node_role_leader, node_role_follower, node_role_candidate,
  node_role_learner, PbNodeStatus, node_status_unspecified, node_status_starting,
  node_status_healthy, node_status_degraded, node_status_unavailable, node_status_stopping,
  node_status_stopped, PbPeerInfo, PbRaftNodeInfo, PbNodeInfo,
}
use consensus_lab.Client.{AdminRow}

pub record Formats : Type 0 where
  -- `%d` of fmt.Sprintf and of fmt.Sscanf
  pub digits : ℕ → String
  pub scan_int : String → Option ℕ
  pub trim_space : String → String
  -- `strings.SplitN` at the first "/", none where there is none
  pub split_slash : String → Option (String × String)
  pub join_comma : List String → String
  pub sort : List String → List String
  pub clock_time : ℕ → String
  -- the time of day of 1970-01-01, which `AsTime` gives for a timestamp that is missing
  pub epoch_time : String

-- the names of the constants without their prefix, in lower case
unfoldable pub consensus_text : PbConsensusType → String
consensus_text consensus_type_unspecified = "unspecified"
consensus_text consensus_type_raft = "raft"

unfoldable pub role_text : PbNodeRole → String
role_text node_role_unspecified = "unspecified"
role_text node_role_leader = "leader"
role_text node_role_follower = "follower"
role_text node_role_candidate = "candidate"
role_text node_role_learner = "learner"

unfoldable pub status_text : PbNodeStatus → String
status_text node_status_unspecified = "unspecified"
status_text node_status_starting = "starting"
status_text node_status_healthy = "healthy"
status_text node_status_degraded = "degraded"
status_text node_status_unavailable = "unavailable"
status_text node_status_stopping = "stopping"
status_text node_status_stopped = "stopped"

unfoldable pub blank_row : String → AdminRow
blank_row addr = record {
  addr = addr;
  node_id = "";
  consensus = "";
  role = "";
  status = "";
  leader_id = "";
  term = 0;
  commit = 0;
  applied = 0;
  last_log = 0;
  last_log_term = 0;
  snapshot = 0;
  cfg = "";
  peers = "";
  last_applied_at = "";
  err = "";
}

module _ (f : Formats) where
  unfoldable pub format_cfg : ℕ → ℕ → String
  format_cfg quorum members =
      if quorum == 0 && members == 0 then "" else f.digits quorum ++ "/" ++ f.digits members

  unfoldable pub parse_cfg : String → Option (ℕ × ℕ)
  parse_cfg s = if str_eq s "" then none else elim (f.split_slash s) [
    | none ↦ none
    | some (q, m) ↦ elim (f.scan_int q) [
      | none ↦ none
      | some quorum ↦ elim (f.scan_int m) [ none ↦ none | some members ↦ some (quorum, members) ]
    ]
  ]

  -- The argument is an interface that holds a pointer: a missing timestamp is not its nil.
  unfoldable pub format_ts : Option ℕ → String
  format_ts none = f.epoch_time
  format_ts (some t) = f.clock_time t

  unfoldable pub peer_items : List PbPeerInfo → List String
  peer_items [] = []
  peer_items (p ∷ ps) =
      let rest = peer_items ps in
      if str_eq (f.trim_space p.node_id) ""
      then (if str_eq (f.trim_space p.address) "" then rest else f.trim_space p.address ∷ rest)
      else f.trim_space p.node_id ∷ rest

  unfoldable pub format_peer_list : List PbPeerInfo → String
  unfolding peer_items
  format_peer_list [] = ""
  format_peer_list (p ∷ ps) = f.join_comma (f.sort (peer_items (p ∷ ps)))

  unfoldable pub with_raft : AdminRow → Option PbRaftNodeInfo → AdminRow
  unfolding format_ts format_cfg
  with_raft row none = row
  with_raft row (some raft) = record row {
    leader_id = raft.leader_id;
    term = raft.term;
    commit = raft.commit_index;
    applied = raft.last_applied;
    last_log = raft.last_log_index;
    last_log_term = raft.last_log_term;
    snapshot = raft.snapshot_last_index;
    last_applied_at = format_ts raft.last_applied_at;
    cfg = format_cfg raft.quorum_size (length raft.cluster_members);
  }

  -- The answer is an error's text, or the response's node, which may be missing.
  unfoldable pub poll_row : String → String ⊎ Option PbNodeInfo → AdminRow
  unfolding blank_row with_raft format_peer_list consensus_text role_text status_text
  poll_row addr (inl err) = record (blank_row addr) { err = err }
  poll_row addr (inr none) = record (blank_row addr) { err = "empty node info" }
  poll_row addr (inr (some node)) =
      with_raft
        (record (blank_row addr) {
          node_id = node.node_id;
          consensus = consensus_text node.consensus_type;
          role = role_text node.role;
          status = status_text node.status;
          peers = format_peer_list node.peers;
        })
        node.consensus_details

  -- what the loop of `detectLeaderMissing` has found
  pub record Found : Type 0 where
    pub quorum : ℕ
    pub healthy : ℕ
    pub has_leader : Bool

  unfoldable pub greater_quorum : Option (ℕ × ℕ) → ℕ → ℕ
  greater_quorum none quorum = quorum
  greater_quorum (some (q, m)) quorum = if ltb quorum q then q else quorum

  unfoldable pub find_row : AdminRow → Found → Found
  unfolding greater_quorum parse_cfg
  find_row r found = if not (str_eq r.err "") then found else record {
    quorum = greater_quorum (parse_cfg r.cfg) found.quorum;
    healthy = if str_eq r.status "healthy" then suc found.healthy else found.healthy;
    has_leader =
        if str_eq r.role "leader" || not (str_eq r.leader_id "") then true else found.has_leader;
  }

  unfoldable pub find_rows : List AdminRow → Found → Found
  unfolding find_row
  find_rows [] found = found
  find_rows (r ∷ rows) found = find_rows rows (find_row r found)

  -- what follows the loop
  unfoldable pub missing_of : Found → Bool × ℕ × ℕ
  missing_of found =
      if found.quorum == 0
      then (false, 0, found.healthy)
      else if ltb found.healthy found.quorum
      then (false, found.quorum, found.healthy)
      else (not found.has_leader, found.quorum, found.healthy)

  -- whether the leader is missing, the quorum, and the number of healthy nodes
  unfoldable pub detect_leader_missing : List AdminRow → Bool × ℕ × ℕ
  unfolding find_rows missing_of
  detect_leader_missing rows =
      missing_of (find_rows rows (record { quorum = 0; healthy = 0; has_leader = false }))
