-- ===== src/Config/Validation.antt =====
-- Which settings are accepted.
use consensus_lab.Base.{◌≡◌, ◌≢◌, ◌⊎◌, ◌↔◌, String, eq_iff, true, false, none, arith}
use consensus_lab.Config.{Texts, Config, is_log_level, validate}

-- What validation asks of the settings.
pub record IsValid (t : Texts) (c : Config) : Type 0 where
  pub node_id : t.trim_space c.node_id ≢ ""
  pub consensus_type : c.consensus_type ≡ "raft"
  pub log_level :
      let level = t.to_lower (t.trim_space c.log_level) in
      (level ≡ "debug") ⊎ (level ≡ "info") ⊎ (level ≡ "warn") ⊎ (level ≡ "error")
  pub grpc_addr : t.trim_space c.grpc_addr ≢ ""
  pub data_dir : t.trim_space c.data_dir ≢ ""
  pub tracing_endpoint : (c.tracing_enabled ≡ false) ⊎ (t.trim_space c.tracing_endpoint ≢ "")
  pub tracing_service_name :
      (c.tracing_enabled ≡ false) ⊎ (t.trim_space c.tracing_service_name ≢ "")

is_log_level_iff :
    (level : String)
    → (is_log_level level ≡ true)
      ↔ ((level ≡ "debug") ⊎ (level ≡ "info") ⊎ (level ≡ "warn") ⊎ (level ≡ "error"))
unfolding is_log_level
is_log_level_iff level = (
  λ h.
      ground (
        arith,
        eq_iff level "debug",
        eq_iff level "info",
        eq_iff level "warn",
        eq_iff level "error",
      ),
  λ h.
      ground (
        arith,
        eq_iff level "debug",
        eq_iff level "info",
        eq_iff level "warn",
        eq_iff level "error",
      ),
)

module _ (t : Texts) where
  validate_sound : (c : Config) → validate t c ≡ none → IsValid t c
  unfolding validate
  validate_sound c accepted = record {
    node_id = ground (arith, eq_iff (t.trim_space c.node_id) "");
    consensus_type = ground (arith, eq_iff c.consensus_type "raft");
    log_level = (is_log_level_iff (t.to_lower (t.trim_space c.log_level))).0 (ground arith);
    grpc_addr = ground (arith, eq_iff (t.trim_space c.grpc_addr) "");
    data_dir = ground (arith, eq_iff (t.trim_space c.data_dir) "");
    tracing_endpoint = ground (arith, eq_iff (t.trim_space c.tracing_endpoint) "");
    tracing_service_name = ground (arith, eq_iff (t.trim_space c.tracing_service_name) "");
  }

  validate_complete : (c : Config) → IsValid t c → validate t c ≡ none
  unfolding validate
  validate_complete c valid = ground (
    arith,
    eq_iff (t.trim_space c.node_id) "",
    eq_iff c.consensus_type "raft",
    (is_log_level_iff (t.to_lower (t.trim_space c.log_level))).1 valid.log_level,
    eq_iff (t.trim_space c.grpc_addr) "",
    eq_iff (t.trim_space c.data_dir) "",
    eq_iff (t.trim_space c.tracing_endpoint) "",
    eq_iff (t.trim_space c.tracing_service_name) "",
  )

  -- Validation accepts exactly these settings; it does not look at the peers.
  pub validate_iff : (c : Config) → (validate t c ≡ none) ↔ IsValid t c
  validate_iff c = (validate_sound c, validate_complete c)
