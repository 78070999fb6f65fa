-- ===== src/Client/Poll/Alert.antt =====
-- When the admin view says that the leader is missing, if every node answers.
use consensus_lab.Base.{
  ℕ, ltb, leb, ◌==◌, ◌+◌, ◌/◌, ◌≤◌, ◌<◌, ◌≡◌, refl, ap, ◌∙◌, suc, max, inl, inr, String, str_eq,
  eq_iff, Bool, true, false, not, ◌||◌, ◌&&◌, if◌then◌else◌, some, List, [], ◌∷◌, length, map,
  arith, Bool-cases, count,
}
use Prim.Native.String.{◌++◌}
use text.Mathlib.TextLemmas.{length-append}
use consensus_lab.Raft.Types.{Role, leader, follower, candidate, healthy, degraded}
use consensus_lab.Raft.Node.{Node, quorum_size}
use consensus_lab.Raft.Command.{is_leader_role}
use consensus_lab.Raft.Report.{admin_state}
use consensus_lab.Transport.Admin.{get_node_info, safe_int32, map_raft_role, map_raft_status}
use consensus_lab.Client.{AdminRow}
use consensus_lab.Client.Poll.{
  Formats, Found, format_cfg, parse_cfg, poll_row, role_text, status_text, greater_quorum, find_row,
  find_rows, missing_of, detect_leader_missing,
}

-- the members as a report lists them
abbrev pub listed : (List String → List String) → List String → List String
listed sort members = if ltb 0 (length members) then sort members else []

module _ (f : Formats) (peers : List (String × String)) where
  -- the row of a replica that answers
  unfoldable pub row_of : String → Node → AdminRow
  unfolding poll_row get_node_info admin_state
  row_of addr n = poll_row f addr (
      inr (
        some (
          get_node_info f.sort (record {
            node_id = n.id;
            consensus_type = "raft";
            peer_addrs = peers;
            raft = some (admin_state f.sort n);
          }))))

  -- What the alert needs of the texts: the two figures of a configuration can be read again.
  abbrev pub Readable : ℕ → ℕ → Type 0
  Readable q m =
      (f.scan_int (f.digits q) ≡ some q)
      × (f.scan_int (f.digits m) ≡ some m)
      × (f.split_slash (f.digits q ++ "/" ++ f.digits m) ≡ some (f.digits q, f.digits m))

  slashed_not_empty : (a b : String) → str_eq (a ++ "/" ++ b) "" ≡ false
  slashed_not_empty a b = elim (Bool-cases (str_eq (a ++ "/" ++ b) "")) [
    | inl empty ↦
        let same : count (a ++ "/" ++ b) ≡ 0 = ap count ((eq_iff (a ++ "/" ++ b) "").0 empty) in
        absurd (omega (arith, same, length-append a ("/" ++ b), length-append "/" b))
    | inr e ↦ e
  ]

  parse-format_cfg : (q m : ℕ) → 0 < q → Readable q m → parse_cfg f (format_cfg f q m) ≡ some (q, m)
  unfolding parse_cfg format_cfg
  parse-format_cfg q m pos (scan_q, scan_m, split) =
      let some_q : (q == 0) ≡ false = ground arith in
      rw (some_q, slashed_not_empty (f.digits q) (f.digits m), split, scan_q, scan_m) refl

  status_of :
      (bad : Bool)
      → status_text (map_raft_status (if bad then degraded else healthy))
        ≡ (if bad then "degraded" else "healthy")
  unfolding status_text map_raft_status
  status_of true = refl
  status_of false = refl

  row_of_fields :
      (addr : String) (n : Node)
      → let r = row_of addr n in
        (r.err ≡ "")
        × (r.role ≡ role_text (map_raft_role n.role))
        × (r.leader_id ≡ (if is_leader_role n.role then n.id else ""))
        × (r.status ≡ (if n.degraded then "degraded" else "healthy"))
        × (r.cfg
            ≡ format_cfg f (safe_int32 (quorum_size n)) (length (listed f.sort n.config.members)))
  unfolding row_of
  row_of_fields addr n = (refl, refl, refl, status_of n.degraded, refl)

  leads_shown :
      (role : Role) (id : String)
      → (str_eq (role_text (map_raft_role role)) "leader"
          || not (str_eq (if is_leader_role role then id else "") ""))
        ≡ is_leader_role role
  unfolding role_text map_raft_role
  leads_shown leader id = refl
  leads_shown follower id = refl
  leads_shown candidate id = refl

  find_row_lem :
      (r : AdminRow) (found : Found f) (q m : ℕ) (lead well : Bool)
      → str_eq r.err "" ≡ true
      → parse_cfg f r.cfg ≡ some (q, m)
      → (str_eq r.role "leader" || not (str_eq r.leader_id "")) ≡ lead
      → str_eq r.status "healthy" ≡ well
      → find_row f r found ≡ record {
        quorum = max found.quorum q;
        healthy = if well then suc found.healthy else found.healthy;
        has_leader = if lead then true else found.has_leader;
      }
  unfolding find_row greater_quorum
  find_row_lem r found q m lead well answered parsed leads good =
      let greater : (if ltb found.quorum q then q else found.quorum) ≡ max found.quorum q =
        ground arith in
      rw (answered, parsed, leads, good, greater) refl

  well_shown : (bad : Bool) → str_eq (if bad then "degraded" else "healthy") "healthy" ≡ not bad
  well_shown true = refl
  well_shown false = refl

  -- what one row adds
  find_row_of :
      (addr : String) (n : Node) (found : Found f) (q m : ℕ)
      → parse_cfg f (row_of addr n).cfg ≡ some (q, m)
      → find_row f (row_of addr n) found ≡ record {
        quorum = max found.quorum q;
        healthy = if not n.degraded then suc found.healthy else found.healthy;
        has_leader = if is_leader_role n.role then true else found.has_leader;
      }
  find_row_of addr n found q m parsed =
      let (no_err, role, id, status, cfg) = row_of_fields addr n in
      find_row_lem (row_of addr n) found q m (is_leader_role n.role) (not n.degraded)
        ((eq_iff (row_of addr n).err "").1 no_err) parsed (rw (role, id) (leads_shown n.role n.id))
        (rw status (well_shown n.degraded))

  -- The replicas have one configuration.
  abbrev pub Share : List String → List (String × Node) → Type 0
  Share members [] = Unit
  Share members ((addr, n) ∷ nodes) = (n.config.members ≡ members) × Share members nodes

  abbrev pub rows_of : List (String × Node) → List AdminRow
  rows_of = map (λ p. row_of p.0 p.1)

  unfoldable pub any_leader : List (String × Node) → Bool
  any_leader [] = false
  any_leader ((addr, n) ∷ nodes) = is_leader_role n.role || any_leader nodes

  unfoldable pub well_nodes : List (String × Node) → ℕ
  well_nodes [] = 0
  well_nodes ((addr, n) ∷ nodes) = (if not n.degraded then 1 else 0) + well_nodes nodes

  abbrev seen_quorum : ℕ → List (String × Node) → ℕ
  seen_quorum q [] = 0
  seen_quorum q (p ∷ nodes) = q

  abbrev pub quorum_of : List String → ℕ
  quorum_of members = safe_int32 (length members / 2 + 1)

  seen_le : (q : ℕ) (nodes : List (String × Node)) → seen_quorum q nodes ≤ q
  seen_le q [] = omega arith
  seen_le q (p ∷ nodes) = omega arith

  quorum_pos : (members : List String) → 0 < quorum_of members
  quorum_pos members = unfold safe_int32 in ground arith

  config_text :
      (n : Node) (members : List String)
      → n.config.members ≡ members
      → format_cfg f (safe_int32 (quorum_size n)) (length (listed f.sort n.config.members))
        ≡ format_cfg f (quorum_of members) (length (listed f.sort members))
  unfolding quorum_size
  config_text n members same =
      ap (λ ms. format_cfg f (safe_int32 (length ms / 2 + 1)) (length (listed f.sort ms))) same

  one_more :
      (bad : Bool) (k w : ℕ)
      → (if not bad then suc k else k) + w ≡ k + ((if not bad then 1 else 0) + w)
  one_more true k w = omega arith
  one_more false k w = omega arith

  either : (a b c : Bool) → (b || (if a then true else c)) ≡ ((a || b) || c)
  either true true c = refl
  either true false c = refl
  either false b c = refl

  find_rows_of :
      (members : List String) (nodes : List (String × Node)) (found : Found f)
      → Readable (quorum_of members) (length (listed f.sort members))
      → Share members nodes
      → let after = find_rows f (rows_of nodes) found in
        (after.quorum ≡ max found.quorum (seen_quorum (quorum_of members) nodes))
        × (after.healthy ≡ found.healthy + well_nodes nodes)
        × (after.has_leader ≡ (any_leader nodes || found.has_leader))
  unfolding find_rows any_leader well_nodes
  find_rows_of members [] found readable share = (omega arith, omega arith, refl)
  find_rows_of members ((addr, n) ∷ nodes) found readable share =
      let q = quorum_of members in
      let m = length (listed f.sort members) in
      let (no_err, role, id, status, cfg) = row_of_fields addr n in
      let parsed : parse_cfg f (row_of addr n).cfg ≡ some (q, m) =
        rw (cfg, config_text n members share.0)
          (parse-format_cfg q m (quorum_pos members) readable) in
      let next : Found f = record {
        quorum = max found.quorum q;
        healthy = if not n.degraded then suc found.healthy else found.healthy;
        has_leader = if is_leader_role n.role then true else found.has_leader;
      } in
      let (quorum, well, leads) = find_rows_of members nodes next readable share.1 in
      let step : find_rows f (rows_of ((addr, n) ∷ nodes)) found
          ≡ find_rows f (rows_of nodes) next =
        ap (find_rows f (rows_of nodes)) (find_row_of addr n found q m parsed) in
      rw step (
        omega (arith, quorum, seen_le q nodes),
        well ∙ one_more n.degraded found.healthy (well_nodes nodes),
        leads ∙ either (is_leader_role n.role) (any_leader nodes) found.has_leader,
      )

  missing_of_lem :
      (found : Found f) (lead : Bool) (q : ℕ)
      → 0 < q
      → found.quorum ≡ q
      → found.has_leader ≡ (lead || false)
      → (missing_of f found).0 ≡ (not lead && leb q found.healthy)
  unfolding missing_of
  missing_of_lem found true q pos own leads = ground arith
  missing_of_lem found false q pos own leads = ground arith

  -- If every replica answers and they share one configuration, whose two figures can be read back
  -- from a row's text, then the admin view says that the leader is missing exactly if no replica
  -- leads and the replicas that are not degraded are at least a quorum.
  pub detect_leader_missing_iff :
      (members : List String) (nodes : List (String × Node))
      → Readable (quorum_of members) (length (listed f.sort members))
      → Share members nodes
      → (detect_leader_missing f (rows_of nodes)).0
        ≡ (not (any_leader nodes) && leb (quorum_of members) (well_nodes nodes))
  unfolding detect_leader_missing
  detect_leader_missing_iff members [] readable share =
      unfold any_leader well_nodes find_rows missing_of in ground (arith, quorum_pos members)
  detect_leader_missing_iff members (p ∷ nodes) readable share =
      let start : Found f = record { quorum = 0; healthy = 0; has_leader = false } in
      let (quorum, well, leads) = find_rows_of members (p ∷ nodes) start readable share in
      let same : (find_rows f (rows_of (p ∷ nodes)) start).healthy ≡ well_nodes (p ∷ nodes) =
        omega (arith, well) in
      missing_of_lem (find_rows f (rows_of (p ∷ nodes)) start) (any_leader (p ∷ nodes))
        (quorum_of members) (quorum_pos members) (omega (arith, quorum)) leads
      ∙ ap (λ k. not (any_leader (p ∷ nodes)) && leb (quorum_of members) k) same
