-- ===== src/Separated/Split.antt =====
-- internal/harness/separated.go: what `SplitNodeConfig` puts into which config.
use e2e.Base.Maps.{value_at}
use e2e.Base.{◌⊎◌, ◌++◌, ◌≡◌, ◌≢◌, refl, List, [], Text, lit, arith, text_eq}
use e2e.Config.{Parsers}
use e2e.Config.Pieces.{Contains, line, loops_text, render-Contains_endpoint, render-Contains_loops}
use e2e.Separated.{
  SeparatedConfig, network_base_url, network_config, pipeline_config, split_node_config,
}

-- The address of the network process, as a peer reaches it.
abbrev pub Reached : SeparatedConfig → Text → Type 0
Reached c url =
    ((c.resolver_base_url ≢ []) × (url ≡ c.resolver_base_url))
    ⊎ ((c.resolver_base_url ≡ [])
        × (((value_at c.registry_id c.registry_base_urls ≢ [])
              × (url ≡ value_at c.registry_id c.registry_base_urls))
            ⊎ ((value_at c.registry_id c.registry_base_urls ≡ [])
                × (url ≡ lit "http://127.0.0.1" ++ c.network_listen_addr))))

module _ (std : Parsers) (order : List Text) (c : SeparatedConfig) where
  network_base_url-ne-nil : network_base_url c ≢ []
  unfolding network_base_url lit
  network_base_url-ne-nil = ground arith

  Reached-network_base_url : Reached c (network_base_url c)
  unfolding network_base_url
  Reached-network_base_url = ground arith

  -- Both texts name the same credential store, and it is the network process's address as a peer
  -- reaches it: the resolver's URL if there is one, else the registry's own entry in the URL map if
  -- there is one, else loopback with the network's port. The line is never left out.
  pub split_endpoint :
      (url : Text) × Reached c url
      × Contains (line std (lit "    vc-store-endpoint = ") url) (split_node_config std order c).0
      × Contains (line std (lit "    vc-store-endpoint = ") url) (split_node_config std order c).1
  unfolding split_node_config
  split_endpoint = (
    network_base_url c,
    Reached-network_base_url,
    render-Contains_endpoint std (network_config c) order network_base_url-ne-nil,
    render-Contains_endpoint std (pipeline_config c) order network_base_url-ne-nil,
  )

  -- A scenario's loops reach the pipeline's config and no other: whatever they are and whatever the
  -- pipeline's address, they stand in the pipeline's text, and the network's config, which must carry
  -- no loop, is the same as without them.
  pub loops_reach_pipeline :
      (loops addr : Text)
      → loops ≢ []
      → ((split_node_config std order
            (record c { loops_block = loops; pipeline_listen_addr = addr })).0
          ≡ (split_node_config std order c).0)
        × Contains
            (loops_text loops)
            (split_node_config std order
              (record c { loops_block = loops; pipeline_listen_addr = addr })).1
  unfolding split_node_config network_base_url
  loops_reach_pipeline loops addr some_loops = (
    refl,
    render-Contains_loops std
        (pipeline_config (record c { loops_block = loops; pipeline_listen_addr = addr })) order
        some_loops,
  )
