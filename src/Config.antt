-- ===== src/Config.antt =====
-- internal/harness/config.go: a node's settings and the application.conf that they render to.
pub mod Quote
pub mod Host
pub mod Pieces
use e2e.Base.{
  Bool, true, false, not, ◌||◌, Option, none, some, List, [], ◌∷◌, ◌++◌, Text, lit, ◌==◌, text_eq,
  if◌then◌else◌, ℕ,
}
use e2e.Base.Order.{sort_strings}
use e2e.Base.Maps.{Map, value_at}
use e2e.Config.Quote.{quote}
use e2e.Config.Host.{split_host_port, join_host_port, equal_fold}

-- `NodeConfig`
pub record NodeConfig : Type 0 where
  pub listen_addr : Text
  pub registry_id : Text
  pub pdp_base_url : Text
  pub nats_url : Text
  pub account_seed_file : Text
  pub trust_seed_file : Text
  pub resolver_dir : Text
  pub node_did : Text
  pub resolver_base_url : Text
  pub registry_base_urls : Map Text
  pub vc_store_endpoint : Text
  pub loops_block : Text
  pub allow_loopback : Bool
  pub allow_private_networks : Bool
  pub extra : Text
  pub chain_extra : Text

-- The parts of a parsed URL that the harness reads.
pub record Url : Type 0 where
  pub scheme : Text
  pub host : Text

-- The parsers and tables of the standard library that a rendering rests on: `url.Parse`, whether
-- `netip.ParseAddr` reads a loopback address, and `unicode.IsPrint` from 0x80 on.
pub record Parsers : Type 0 where
  pub parse_url : Text → Option Url
  pub is_loopback : Text → Bool
  pub is_print : ℕ → Bool

-- `BearerToken`
unfoldable pub bearer_token : Text
bearer_token = lit "e2e-dummy"

-- The text of several pieces, as `Fprintf` writes them.
unfoldable pub concat : List Text → Text
concat [] = []
concat (piece ∷ pieces) = piece ++ concat pieces

-- The verb `%v` of a Boolean.
unfoldable pub show_bool : Bool → Text
show_bool true = lit "true"
show_bool false = lit "false"

-- `URL.Port`, with the default of plain http.
unfoldable pub port_or_default : Text → Text
port_or_default port = if port == [] then lit "80" else port

module _ (std : Parsers) where
  abbrev q : Text → Text
  q = quote std.is_print

  -- `serviceEndpointsBlock`
  unfoldable pub service_endpoints_block : NodeConfig → Text
  service_endpoints_block c =
      if c.vc_store_endpoint == []
      then []
      else concat (
          lit "    service-endpoints {\n      vc-resolver { type = \"VCResolver\", url = "
          ∷ q c.vc_store_endpoint
          ∷ lit " }\n    }\n"
          ∷ [])

  -- The host and port that a plain-internal entry names, where the URL needs one.
  unfoldable pub plain_internal_entry : Url → Option Text
  unfolding port_or_default
  plain_internal_entry u =
      let (host, port) = split_host_port u.host in
      if not (u.scheme == lit "http") || host == []
      then none
      else if equal_fold host (lit "localhost")
      then none
      else if std.is_loopback host
      then none
      else some (join_host_port host (port_or_default port))

  -- `plainInternalLine`
  unfoldable pub plain_internal_line : NodeConfig → Text
  unfolding plain_internal_entry
  plain_internal_line c = elim (std.parse_url c.pdp_base_url) [
    | none ↦ []
    | some u ↦ elim (plain_internal_entry u) [
      | none ↦ []
      | some entry ↦ concat (lit "  auth.plain-internal = [" ∷ q entry ∷ lit "]\n" ∷ [])
    ]
  ]

  -- `b.WriteString` of the registry URLs, one line for each key.
  unfoldable pub registry_lines : Map Text → List Text → Text
  registry_lines urls [] = []
  registry_lines urls (reg ∷ regs) =
      concat (lit "        " ∷ q reg ∷ lit " = " ∷ q (value_at reg urls) ∷ lit "\n" ∷ [])
      ++ registry_lines urls regs

  -- `if len(c.RegistryBaseURLs) > 0`. `order` is the order of the range over the map's keys.
  unfoldable pub registry_block : Map Text → List Text → Text
  unfolding registry_lines
  registry_block [] order = []
  registry_block urls order =
      lit "      registry-base-urls {\n"
      ++ (registry_lines urls (sort_strings order) ++ lit "      }\n")

  -- The first `Fprintf` of `Render`.
  unfoldable pub head_block : NodeConfig → Text
  unfolding show_bool service_endpoints_block plain_internal_line
  head_block c = concat (
      lit "provin.network {\n  core {\n    listen-addr = "
      ∷ q c.listen_addr
      ∷ lit "\n    data-dir    = \"./data\"\n    dev.allow-loopback     = "
      ∷ show_bool c.allow_loopback
      ∷ lit "\n    allow-private-networks = "
      ∷ show_bool c.allow_private_networks
      ∷ lit "\n    # This harness never configures node-native TLS (no cert/key) and the\n"
      ∷ lit "    # process-runtime listen-addr (FreePort's \":<port>\") has no host segment,\n"
      ∷ lit "    # so core.ListenerIsLoopback cannot recognize it as loopback even though\n"
      ∷ lit "    # the harness only ever binds 127.0.0.1 — an explicit cleartext\n"
      ∷ lit "    # acknowledgement is the honest choice here (P0-6 transport-security\n"
      ∷ lit "    # guard), never a real deployment posture.\n"
      ∷ lit "    tls.allow-cleartext = true\n  }\n  auth.policy-verifier-url = "
      ∷ q c.pdp_base_url
      ∷ lit "\n"
      ∷ plain_internal_line c
      ∷ lit "  registry {\n    id = "
      ∷ q c.registry_id
      ∷ lit "\n"
      ∷ service_endpoints_block c
      ∷ lit "  }\n  chain {\n    transport = \"nats\"\n    nats {\n      url                  = "
      ∷ q c.nats_url
      ∷ lit "\n      account-seed-file    = "
      ∷ q c.account_seed_file
      ∷ lit "\n      trust-root-seed-file = "
      ∷ q c.trust_seed_file
      ∷ lit "\n      resolver-dir         = "
      ∷ q c.resolver_dir
      ∷ lit "\n      node-did             = "
      ∷ q c.node_did
      ∷ lit "\n      resolver-base-url    = "
      ∷ q c.resolver_base_url
      ∷ lit "\n"
      ∷ [])

  unfoldable pub chain_extra_block : NodeConfig → Text
  chain_extra_block c = if c.chain_extra == [] then [] else c.chain_extra ++ lit "\n"

  unfoldable pub endpoint_line : NodeConfig → Text
  endpoint_line c =
      if c.vc_store_endpoint == []
      then []
      else concat (lit "    vc-store-endpoint = " ∷ q c.vc_store_endpoint ∷ lit "\n" ∷ [])

  unfoldable pub loops_section : NodeConfig → Text
  loops_section c =
      if c.loops_block == []
      then []
      else concat (lit "    loops {\n" ∷ c.loops_block ∷ lit "\n    }\n" ∷ [])

  unfoldable pub extra_block : NodeConfig → Text
  extra_block c = if c.extra == [] then [] else c.extra ++ lit "\n"

  -- `Render`
  unfoldable pub render : List Text → NodeConfig → Text
  render order c = concat (
      head_block c
      ∷ registry_block c.registry_base_urls order
      ∷ lit "    }\n"
      ∷ chain_extra_block c
      ∷ lit "  }\n  pipeline {\n"
      ∷ endpoint_line c
      ∷ lit "    vc-store-bearer   = "
      ∷ q bearer_token
      ∷ lit "\n"
      ∷ loops_section c
      ∷ extra_block c
      ∷ lit "  }\n}\n"
      ∷ [])
