-- ===== src/Config.antt =====
-- The settings of a node: internal/app/config.go. The functions of strings and strconv are the record
-- `Texts`, and the environment is a function.
pub mod Peers
pub mod Validation
pub mod Startup
use consensus_lab.Base.{
  ℕ, ◌⊎◌, inl, inr, String, str_eq, Bool, true, false, not, ◌||◌, ◌&&◌, if◌then◌else◌, Option, none,
  some, List, [], ◌∷◌,
}

pub record Texts : Type 0 where
  pub trim_space : String → String
  pub to_lower : String → String
  pub split_comma : String → List String
  -- `strings.Cut` at the first "="
  pub cut_equals : String → Option (String × String)
  pub parse_bool : String → Option Bool
  pub parse_uint : String → Option ℕ

pub record Config : Type 0 where
  pub node_id : String
  pub consensus_type : String
  pub log_level : String
  pub tracing_enabled : Bool
  pub tracing_endpoint : String
  pub tracing_service_name : String
  pub grpc_addr : String
  pub metrics_addr : String
  pub pprof_addr : String
  pub data_dir : String
  pub peer_addrs : List String
  pub snapshot_every : ℕ

pub data ConfigError : Type 0 where
  no_node_id no_grpc_addr no_data_dir no_tracing_endpoint no_tracing_service_name : ConfigError
  unsupported_consensus_type unsupported_log_level : String → ConfigError
  invalid_tracing_enabled invalid_snapshot_every : String → ConfigError
  invalid_peer_entry duplicate_peer_id : String → ConfigError

abbrev pub consensus_type_raft : String
consensus_type_raft = "raft"

abbrev pub default_config : Config
default_config = record {
  node_id = "node-1";
  consensus_type = consensus_type_raft;
  log_level = "info";
  tracing_enabled = false;
  tracing_endpoint = "";
  tracing_service_name = "consensus-node";
  grpc_addr = ":8080";
  metrics_addr = ":9090";
  pprof_addr = "";
  data_dir = "./var/node-1";
  peer_addrs = [];
  snapshot_every = 0;
}

unfoldable pub is_log_level : String → Bool
is_log_level level =
    str_eq level "debug" || str_eq level "info" || str_eq level "warn" || str_eq level "error"

abbrev pub PeerMap : Type 0
PeerMap = List (String × String)

unfoldable pub peer_addr : String → PeerMap → Option String
peer_addr id [] = none
peer_addr id ((k, v) ∷ m) = let rest = peer_addr id m in if str_eq id k then some v else rest

abbrev pub is_some : Option String → Bool
is_some none = false
is_some (some v) = true

-- a new key of the map
unfoldable pub add_peer : String → String → String → PeerMap → ConfigError ⊎ PeerMap
unfolding peer_addr
add_peer raw id addr out =
    if str_eq id "" || str_eq addr ""
    then inl (invalid_peer_entry raw)
    else if is_some (peer_addr id out)
    then inl (duplicate_peer_id id)
    else inr ((id, addr) ∷ out)

-- an early return of an error
unfoldable pub or_fail : {A B : Type 0} → ConfigError ⊎ A → (A → ConfigError ⊎ B) → ConfigError ⊎ B
or_fail (inl e) next = inl e
or_fail (inr a) next = next a

module _ (t : Texts) where
  -- the id and the address of an entry that is trimmed and not empty
  unfoldable pub peer_entry : String → String × String
  peer_entry raw = elim (t.cut_equals raw) [
    | none ↦ (raw, raw)
    | some (left, right) ↦ (t.trim_space left, t.trim_space right)
  ]

  unfoldable pub split_csv : List String → List String
  split_csv [] = []
  split_csv (p ∷ parts) =
      let rest = split_csv parts in
      if str_eq (t.trim_space p) "" then rest else t.trim_space p ∷ rest

  -- the loop of `PeerAddrMap`, with the map so far
  unfoldable pub peer_map_from : List String → PeerMap → ConfigError ⊎ PeerMap
  unfolding add_peer peer_entry
  peer_map_from [] out = inr out
  peer_map_from (addr ∷ addrs) out =
      let raw = t.trim_space addr in
      let skipped = peer_map_from addrs out in
      elim (str_eq raw "") [
        | true ↦ skipped
        | false ↦ elim (add_peer raw (peer_entry raw).0 (peer_entry raw).1 out) [
          | inl e ↦ inl e
          | inr longer ↦ peer_map_from addrs longer
        ]
      ]

  unfoldable pub peer_addr_map : Config → ConfigError ⊎ PeerMap
  unfolding peer_map_from
  peer_addr_map c = peer_map_from c.peer_addrs []

  abbrev pub is_blank : String → Bool
  is_blank s = str_eq (t.trim_space s) ""

  -- the error, if any
  unfoldable pub validate : Config → Option ConfigError
  unfolding is_log_level
  validate c =
      if is_blank c.node_id
      then some no_node_id
      else if not (str_eq c.consensus_type consensus_type_raft)
      then some (unsupported_consensus_type c.consensus_type)
      else if not (is_log_level (t.to_lower (t.trim_space c.log_level)))
      then some (unsupported_log_level c.log_level)
      else if is_blank c.grpc_addr
      then some no_grpc_addr
      else if is_blank c.data_dir
      then some no_data_dir
      else if c.tracing_enabled && is_blank c.tracing_endpoint
      then some no_tracing_endpoint
      else if c.tracing_enabled && is_blank c.tracing_service_name
      then some no_tracing_service_name
      else none

  module _ (env : String → Option String) where
    -- `strings.TrimSpace(os.Getenv(name))`
    abbrev pub trimmed : String → String
    trimmed name = elim (env name) [ none ↦ t.trim_space "" | some v ↦ t.trim_space v ]

    abbrev pub text_or : String → String → String
    text_or name old = if str_eq (trimmed name) "" then old else trimmed name

    -- with `LookupEnv`: a variable that is set overrides also by an empty text
    abbrev pub looked_up : String → String → String
    looked_up name old = elim (env name) [ none ↦ old | some v ↦ t.trim_space v ]

    unfoldable pub tracing_enabled_or : Bool → ConfigError ⊎ Bool
    tracing_enabled_or old =
        let v = trimmed "APP_TRACING_ENABLED" in
        if str_eq v ""
        then inr old
        else elim (t.parse_bool v) [ none ↦ inl (invalid_tracing_enabled v) | some b ↦ inr b ]

    unfoldable pub snapshot_every_or : ℕ → ConfigError ⊎ ℕ
    snapshot_every_or old =
        let v = trimmed "APP_SNAPSHOT_EVERY" in
        if str_eq v ""
        then inr old
        else elim (t.parse_uint v) [ none ↦ inl (invalid_snapshot_every v) | some n ↦ inr n ]

    abbrev pub peers_or : List String → List String
    peers_or old =
        let v = trimmed "APP_PEERS" in if str_eq v "" then old else split_csv (t.split_comma v)

    abbrev pub level_or : String → String
    level_or old = let v = trimmed "APP_LOG_LEVEL" in if str_eq v "" then old else t.to_lower v

    -- the settings, with the two that can fail to parse
    unfoldable pub config_of : Bool → ℕ → Config
    unfolding split_csv
    config_of tracing every =
        let d = default_config in
        record {
          node_id = text_or "APP_NODE_ID" d.node_id;
          consensus_type = text_or "APP_CONSENSUS_TYPE" d.consensus_type;
          log_level = level_or d.log_level;
          tracing_enabled = tracing;
          tracing_endpoint = text_or "APP_TRACING_ENDPOINT" d.tracing_endpoint;
          tracing_service_name = text_or "APP_TRACING_SERVICE_NAME" d.tracing_service_name;
          grpc_addr = text_or "APP_GRPC_ADDR" d.grpc_addr;
          metrics_addr = looked_up "APP_METRICS_ADDR" d.metrics_addr;
          pprof_addr = looked_up "APP_PPROF_ADDR" d.pprof_addr;
          data_dir = text_or "APP_DATA_DIR" d.data_dir;
          peer_addrs = peers_or d.peer_addrs;
          snapshot_every = every;
        }

    unfoldable pub validated : Config → ConfigError ⊎ Config
    unfolding validate
    validated c = elim (validate c) [ none ↦ inr c | some e ↦ inl e ]

    unfoldable pub load_config_from_env : ConfigError ⊎ Config
    unfolding tracing_enabled_or snapshot_every_or config_of validated or_fail
    load_config_from_env = or_fail (tracing_enabled_or default_config.tracing_enabled) λ tracing.
        or_fail (snapshot_every_or default_config.snapshot_every)
          λ every. validated (config_of tracing every)
