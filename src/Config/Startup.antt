-- ===== src/Config/Startup.antt =====
-- How a node starts: the settings part of `run` in cmd/node/main.go, up to the dialing of the peers.
use consensus_lab.Base.{ℕ, ◌≡◌, ◌⊎◌, inr, String, str_eq, Bool, if◌then◌else◌, Option, [], ◌∷◌}
use consensus_lab.Config.{
  Texts, Config, ConfigError, PeerMap, or_fail, peer_addr_map, load_config_from_env, config_of,
  tracing_enabled_or, snapshot_every_or, default_config,
}

-- `delete` of a key
unfoldable pub without : String → PeerMap → PeerMap
without id [] = []
without id ((k, v) ∷ m) = let rest = without id m in if str_eq k id then rest else (k, v) ∷ rest

module _ (t : Texts) (env : String → Option String) where
  -- the peers to dial: the node itself is taken out, if it is listed
  abbrev others : Config → PeerMap → ConfigError ⊎ (Config × PeerMap)
  others c m = inr (c, without c.node_id m)

  abbrev with_peers : Config → ConfigError ⊎ (Config × PeerMap)
  with_peers c = or_fail (peer_addr_map t c) (others c)

  -- the settings, and the peers to dial
  unfoldable pub run_settings : ConfigError ⊎ (Config × PeerMap)
  unfolding without
  run_settings = or_fail (load_config_from_env t env) with_peers

  -- The environment gives these settings: its two values that are parsed can be parsed.
  abbrev pub Gives : Config → Type 0
  Gives c =
      (tracing : Bool) × (every : ℕ) × (tracing_enabled_or t env default_config.tracing_enabled
        ≡ inr tracing)
      × (snapshot_every_or t env default_config.snapshot_every ≡ inr every)
      × (c ≡ config_of t env tracing every)
