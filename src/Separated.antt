-- ===== src/Separated.antt =====
-- internal/harness/separated.go: the two configs of a separated node.
pub mod Split
use e2e.Base.{Bool, true, false, List, [], ◌∷◌, ◌++◌, Text, lit, ◌==◌, text_eq, if◌then◌else◌}
use e2e.Base.Maps.{Map, value_at}
use e2e.Config.{NodeConfig, Parsers, render}

-- `SeparatedConfig`
pub record SeparatedConfig : Type 0 where
  pub network_listen_addr : Text
  pub pipeline_listen_addr : Text
  pub registry_id : Text
  pub pdp_base_url : Text
  pub nats_url : Text
  pub account_seed_file : Text
  pub trust_seed_file : Text
  pub resolver_dir : Text
  pub node_did : Text
  pub resolver_base_url : Text
  pub registry_base_urls : Map Text
  pub loops_block : Text
  pub tunables : Text
  pub chain_extra : Text
  pub allow_loopback : Bool
  pub allow_private_networks : Bool

-- The network process's base URL as a peer reaches it, with the two fallbacks.
unfoldable pub network_base_url : SeparatedConfig → Text
network_base_url c =
    if c.resolver_base_url == []
    then (if value_at c.registry_id c.registry_base_urls == []
        then lit "http://127.0.0.1" ++ c.network_listen_addr
        else value_at c.registry_id c.registry_base_urls)
    else c.resolver_base_url

-- `base`: what the two configs share. A field that the source leaves out is empty.
unfoldable pub base_config : SeparatedConfig → NodeConfig
base_config c = record {
  listen_addr = [];
  registry_id = c.registry_id;
  pdp_base_url = c.pdp_base_url;
  nats_url = c.nats_url;
  account_seed_file = c.account_seed_file;
  trust_seed_file = c.trust_seed_file;
  resolver_dir = c.resolver_dir;
  node_did = c.node_did;
  resolver_base_url = c.resolver_base_url;
  registry_base_urls = c.registry_base_urls;
  vc_store_endpoint = [];
  loops_block = [];
  allow_loopback = c.allow_loopback;
  allow_private_networks = c.allow_private_networks;
  extra = [];
  chain_extra = c.chain_extra;
}

unfoldable pub network_config : SeparatedConfig → NodeConfig
unfolding base_config
network_config c = record (base_config c) {
  listen_addr = c.network_listen_addr;
  vc_store_endpoint = network_base_url c;
  loops_block = [];
  extra = c.tunables;
}

unfoldable pub pipeline_config : SeparatedConfig → NodeConfig
unfolding base_config
pipeline_config c = record (base_config c) {
  listen_addr = c.pipeline_listen_addr;
  vc_store_endpoint = network_base_url c;
  loops_block = c.loops_block;
}

-- `SplitNodeConfig`: the network's text and the pipeline's. `order` is the order in which a range
-- visits the keys of `registry_base_urls`.
unfoldable pub split_node_config : Parsers → List Text → SeparatedConfig → Text × Text
unfolding network_config pipeline_config
split_node_config std order c =
    (render std order (network_config c), render std order (pipeline_config c))
