-- ===== src/Tests/Configs.antt =====
-- internal/harness/config_test.go: its cases, and the theorems of Config and Separated.
use mathlib.Core.List.{Permᴰ}
use e2e.Base.{
  String, ◌≡◌, ◌≢◌, refl, true, false, Option, none, some, List, [], ◌∷◌, Text, lit, has_prefix,
  ℕ_discrete, text_eq, text_dec, arith, ◌==◌, if◌then◌else◌,
}
use e2e.Config.{Parsers, Url, render, plain_internal_entry}
use e2e.Config.Host.{split_host_port, join_host_port, equal_fold}
use e2e.Config.Pieces.{Contains, line, loops_text, render_order}
use e2e.Separated.{network_config, SeparatedConfig, split_node_config}
use e2e.Separated.Split.{Reached, split_endpoint, loops_reach_pipeline}

abbrev compose_url : Url
compose_url = record { scheme = lit "http"; host = lit "pdpstub:9091" }

abbrev std : Parsers
std = record {
  parse_url = λ t. if t == [] then none else some compose_url;
  is_loopback = λ t. has_prefix t (lit "127.");
  is_print = λ c. true;
}

abbrev entry_of : String → String → Option Text
entry_of scheme host = plain_internal_entry std (record { scheme = lit scheme; host = lit host })

compose_pdp : entry_of "http" "pdpstub:9091" ≡ some (lit "pdpstub:9091")
unfolding plain_internal_entry split_host_port join_host_port equal_fold lit text_eq text_dec
    ℕ_discrete has_prefix
compose_pdp = refl

default_port : entry_of "http" "pdp" ≡ some (lit "pdp:80")
unfolding plain_internal_entry split_host_port join_host_port equal_fold lit text_eq text_dec
    ℕ_discrete has_prefix
default_port = refl

no_entry :
    (entry_of "http" "127.0.0.1:41234" ≡ none)
    × (entry_of "http" "LOCALHOST:9091" ≡ none)
    × (entry_of "https" "pdp:443" ≡ none)
    × (entry_of "http" "" ≡ none)
unfolding plain_internal_entry split_host_port join_host_port equal_fold lit text_eq text_dec
    ℕ_discrete has_prefix
no_entry = (refl, refl, refl, refl)

abbrev settings : SeparatedConfig
settings = record {
  network_listen_addr = lit ":8443";
  pipeline_listen_addr = lit ":8444";
  registry_id = lit "reg.example";
  pdp_base_url = lit "http://pdpstub:9091";
  nats_url = [];
  account_seed_file = [];
  trust_seed_file = [];
  resolver_dir = [];
  node_did = [];
  resolver_base_url = lit "http://127.0.0.1:8443";
  registry_base_urls = (lit "b", lit "http://b") ∷ (lit "a", lit "http://a") ∷ [];
  loops_block = lit "src {}";
  tunables = [];
  chain_extra = [];
  allow_loopback = true;
  allow_private_networks = false;
}

abbrev order : List Text
order = lit "b" ∷ lit "a" ∷ []

split_endpoint_example :
    (url : Text) × Reached settings url
    × Contains
        (line std (lit "    vc-store-endpoint = ") url)
        (split_node_config std order settings).0
    × Contains
        (line std (lit "    vc-store-endpoint = ") url)
        (split_node_config std order settings).1
split_endpoint_example = split_endpoint std order settings

abbrev loops : Text
loops = lit "loop-a { }"

loops-ne-nil : loops ≢ []
unfolding lit
loops-ne-nil = ground arith

loops_reach_pipeline_example :
    ((split_node_config std order
        (record settings { loops_block = loops; pipeline_listen_addr = [] })).0
      ≡ (split_node_config std order settings).0)
    × Contains
        (loops_text loops)
        (split_node_config std order
          (record settings { loops_block = loops; pipeline_listen_addr = [] })).1
loops_reach_pipeline_example = loops_reach_pipeline std order settings loops [] loops-ne-nil

render_order_example :
    render std (lit "b" ∷ lit "a" ∷ []) (network_config settings)
    ≡ render std (lit "a" ∷ lit "b" ∷ []) (network_config settings)
render_order_example = render_order std (network_config settings) _ _ ∣ Permᴰ.swap refl refl ∣₁
