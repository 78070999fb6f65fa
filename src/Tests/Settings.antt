-- ===== src/Tests/Settings.antt =====
-- Settings of a node, with texts that need no trimming.
use consensus_lab.Base.{
  ◌≡◌, ◌≢◌, String, Option, refl, str_eq, eq_iff, if◌then◌else◌, none, some, inr, [], ◌∷◌,
}
use consensus_lab.Config.{
  Texts, Config, PeerMap, default_config, peer_addr, peer_entry, peer_addr_map,
  load_config_from_env,
}
use consensus_lab.Config.Peers.{peer_addr_map-entry}
use consensus_lab.Config.Startup.{run_settings}

-- only one text is cut
abbrev plain : Texts
plain = record {
  trim_space = λ s. s;
  to_lower = λ s. s;
  split_comma = λ s. s ∷ [];
  cut_equals = λ s. if str_eq s "b=h:2" then some ("b", "h:2") else none;
  parse_bool = λ s. none;
  parse_uint = λ s. none;
}

abbrev two_peers : Config
two_peers = record default_config { peer_addrs = "h:1" ∷ "" ∷ "b=h:2" ∷ [] }

abbrev two_addrs : PeerMap
two_addrs = ("b", "h:2") ∷ ("h:1", "h:1") ∷ []

built : peer_addr_map plain two_peers ≡ inr two_addrs
unfolding peer_addr_map
built = refl

peer_addr_map-entry_example :
    let entry = peer_entry plain "b=h:2" in
    (entry.0 ≢ "") × (entry.1 ≢ "") × (peer_addr entry.0 two_addrs ≡ some entry.1)
peer_addr_map-entry_example =
    peer_addr_map-entry plain two_peers two_addrs 2 "b=h:2" built refl
      (λ e. cc ((eq_iff "b=h:2" "").1 e))

-- the environment names the peer "b"
abbrev env : String → Option String
env name = if str_eq name "APP_PEERS" then some "b=h:2" else none

abbrev from_env : Config
from_env = record default_config { peer_addrs = "b=h:2" ∷ [] }

started : run_settings plain env ≡ inr (from_env, ("b", "h:2") ∷ [])
unfolding run_settings load_config_from_env peer_addr_map
started = refl
