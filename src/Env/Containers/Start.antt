-- ===== src/Env/Containers/Start.antt =====
-- internal/harness/env.go: `startSingleNodeCompose`.
use e2e.Base.{[], ◌∷◌, ◌++◌, Text, lit, text_eq, trim_space}
use e2e.Base.Maps.{Map}
use e2e.Run.{Run, ◌>>=◌, ◌>>◌, pure, lift, or_fail}
use e2e.Disk.{join, make_container_readable}
use e2e.Accounts.{Fault, Operators, on_disk, unopened}
use e2e.Bootstrap.{ExternalKeys}
use e2e.Compose.{
  ComposeProvision, on_base, provision_compose, write_broker_config, write_node_config,
}
use e2e.Keys.{KeyStores, external_keys}
use e2e.Docker.{Compose}
use e2e.Owners.{Documents}
use e2e.Separated.{split_node_config}
use e2e.Env.{SingleNodeSpec, EnvFault, no_dir, nats_fault, key_fault, Services, register_identities}
use e2e.Env.Containers.{
  World, Site, Contained, network_service, pipeline_service, data_dir_of, compose_config,
  remove_all, port_of, read_seed, open_at,
}

module _ (site : Site) (ops : Operators) (stores : KeyStores) (docs : Documents)
    (services : Services) where
  -- A helper of the provisioning.
  unfoldable pub on_provision :
      {A : Type 0}
      → Run Fault (ComposeProvision ops.World) A
      → Run EnvFault (World ops.World stores.Store) A
  on_provision = lift nats_fault (λ w. w.provision) (λ p w. record w { provision = p })

  -- The trust root, the broker's config, the keys and the two node configs under `testdata`.
  unfoldable pub prepare_at :
      Text → SingleNodeSpec → Run EnvFault (World ops.World stores.Store) (Map ExternalKeys)
  prepare_at testdata spec = do
    let data_dir = data_dir_of testdata spec
    let configs = split_node_config site.parsers [] (compose_config spec)
    remove_all site ops.remove_jwts stores.remove_below testdata
    on_provision (provision_compose ops site.host testdata (spec.account ∷ []))
    on_provision (write_broker_config ops site.host testdata site.parsers.is_print site.order)
    ext ←
        lift key_fault (λ w. w.keys) (λ s w. record w { keys = s })
          (external_keys stores data_dir spec.node_did spec.pipeline_dids spec.process_dids)
    on_provision (
        on_base (
          on_disk unopened
            (make_container_readable site.host (site.key_tree (join data_dir (lit "keys"))))))
    on_provision (write_node_config ops site.host testdata (network_service spec) configs.0)
    on_provision (write_node_config ops site.host testdata (pipeline_service spec) configs.1)
    pure ext

  -- The seed and the client address that the scenario is given.
  unfoldable pub credentials :
      Text → SingleNodeSpec → Compose → Run EnvFault (World ops.World stores.Store) (Text × Text)
  credentials scenario_dir spec c = do
    let testdata = join scenario_dir (lit "testdata")
    seed ← read_seed site (join testdata (spec.account ++ lit "-account.seed"))
    client ← port_of site c (lit "nats") 4222
    pure (trim_space seed, client)

  -- The end of `startSingleNodeCompose`, from the compose project on.
  unfoldable pub serve_at :
      Text
      → SingleNodeSpec
      → Map ExternalKeys
      → Run EnvFault (World ops.World stores.Store) Contained
  serve_at scenario_dir spec ext = do
    opened ← open_at site scenario_dir spec
    lift (λ e. e) (λ w. (w.keys, w.sent)) (λ t w. record w { keys = t.0; sent = t.1 })
        (register_identities stores docs services site.owner_dir opened.network spec ext)
    (seed, client) ← credentials scenario_dir spec opened.compose
    pure (record {
      env = record {
        node_base = opened.network;
        pipeline_base = opened.pipeline;
        nats_url = lit "nats://" ++ client;
        acct_seed = seed;
      };
      compose = opened.compose;
      monitor = opened.monitor;
    })

  -- `startSingleNodeCompose`
  unfoldable pub start_single_node_compose :
      SingleNodeSpec → Run EnvFault (World ops.World stores.Store) Contained
  start_single_node_compose spec = do
    scenario_dir ← or_fail site.getwd no_dir
    ext ← prepare_at (join scenario_dir (lit "testdata")) spec
    serve_at scenario_dir spec ext
