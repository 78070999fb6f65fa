-- ===== src/Transport/Admin/Figures.antt =====
-- The figures of a node's report.
use consensus_lab.Base.{
  ℕ, zero, suc, ◌+◌, ◌≤◌, max, ◌≡◌, refl, String, some, List, [], ◌∷◌, get_elem?, map, arith,
}
use consensus_lab.Raft.Node.{Node, last_log_index, quorum_size}
use consensus_lab.Raft.Report.{peer_state, admin_state}
use consensus_lab.Transport.Admin.{
  PbRaftPeerInfo, PbRaftNodeInfo, AdminServer, max_int32, safe_int32, raft_peer_info,
  raft_node_info, get_node_info,
}

get_elem?-map :
    {A B : Type 0} (f : A → B) (xs : List A) (k : ℕ) (x : A)
    → get_elem? xs k ≡ some x
    → get_elem? (map f xs) k ≡ some (f x)
get_elem?-map f [] k x at = cc
get_elem?-map f (y ∷ ys) zero x at = ground arith
get_elem?-map f (y ∷ ys) (suc k) x at = get_elem?-map f ys k x at

-- The report on a node has its commit index and its last log index, a quorum that is the node's or
-- the largest int32 if that is smaller, and for each peer, in sorted order, its match and next index
-- with a lag that makes up for the difference between the match index and the last index.
pub get_node_info_figures :
    (sort : List String → List String) (s : AdminServer) (n : Node) (k : ℕ) (peer : String)
    → s.raft ≡ some (admin_state sort n)
    → get_elem? (sort n.peers) k ≡ some peer
    → (info : PbRaftNodeInfo) × ((get_node_info sort s).consensus_details ≡ some info)
      × (info.commit_index ≡ n.commit_index)
      × (info.last_log_index ≡ last_log_index n)
      × (info.quorum_size ≤ max_int32)
      × (info.quorum_size ≤ quorum_size n)
      × ((p : PbRaftPeerInfo) × (get_elem? info.peers k ≡ some p)
          × (p.node_id ≡ peer)
          × (p.match_index ≡ n.match_index peer)
          × (p.next_index ≡ n.next_index peer)
          × (p.match_index + p.lag ≡ max (last_log_index n) (n.match_index peer)))
unfolding get_node_info raft_node_info safe_int32 raft_peer_info admin_state
get_node_info_figures sort s n k peer inspected at =
    let rs = admin_state sort n in
    let state : get_elem? rs.peers k ≡ some (peer_state n peer) =
      get_elem?-map (peer_state n) (sort n.peers) k peer at in
    (
      raft_node_info rs,
      ground arith,
      refl,
      refl,
      ground arith,
      ground arith,
      (
        raft_peer_info rs.last_log_index (peer_state n peer),
        get_elem?-map (raft_peer_info rs.last_log_index) rs.peers k (peer_state n peer) state,
        refl,
        refl,
        refl,
        ground arith,
      ),
    )
