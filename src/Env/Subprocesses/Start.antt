-- ===== src/Env/Subprocesses/Start.antt =====
-- internal/harness/env.go: `startSingleNodeProcess`.
use e2e.Base.{[], ◌∷◌, Text, lit}
use e2e.Base.Maps.{Map}
use e2e.Run.{Run, ◌>>=◌, ◌>>◌, pure, lift}
use e2e.Disk.{join}
use e2e.Accounts.{Account, Operators, account}
use e2e.Bootstrap.{ExternalKeys}
use e2e.Keys.{KeyStores, external_keys}
use e2e.Nats.{Brokers, on_provision, resolver_dir, start_nats}
use e2e.Owners.{Documents}
use e2e.Processes.{SeparatedNodeSpec}
use e2e.Env.{SingleNodeSpec, EnvFault, nats_fault, key_fault, Services, register_identities}
use e2e.Env.Subprocesses.{
  World, Machine, Served, loopback, pipeline_dir, process_config, boot_spec_of, prepare,
  wait_subscribed, start_both,
}

module _ (machine : Machine) (ops : Operators) (brokers : Brokers) (stores : KeyStores)
    (docs : Documents) (services : Services) where
  -- The end of `startSingleNodeProcess`, from the boot on.
  unfoldable pub serve :
      SingleNodeSpec
      → SeparatedNodeSpec
      → Map ExternalKeys
      → Text
      → Account
      → Run EnvFault (World ops.World brokers.State stores.Store) Served
  serve spec boot_spec ext nats_url acct = do
    let base = loopback boot_spec.network_listen_addr
    node ← start_both machine boot_spec
    wait_subscribed machine spec.ingress_subjects
    lift (λ e. e) (λ w. (w.keys, w.sent)) (λ t w. record w { keys = t.0; sent = t.1 })
        (register_identities stores docs services machine.owner_dir base spec ext)
    pure (record {
      env = record {
        node_base = base;
        pipeline_base = loopback boot_spec.pipeline_listen_addr;
        nats_url = nats_url;
        acct_seed = acct.seed;
      };
      boot_spec = boot_spec;
      node = node;
    })

  -- The broker, and the account of the spec.
  unfoldable pub connect :
      Text → Text → Run EnvFault (World ops.World brokers.State stores.Store) (Text × Account)
  connect nats_dir name = do
    nats_url ←
        lift nats_fault (λ w. w.nats) (λ n w. record w { nats = n })
          (start_nats ops brokers machine.host nats_dir (name ∷ []))
    acct ←
        lift nats_fault (λ w. w.nats) (λ n w. record w { nats = n }) (on_provision (account name))
    pure (nats_url, acct)

  -- `startSingleNodeProcess`
  unfoldable pub start_single_node_process :
      SingleNodeSpec → Run EnvFault (World ops.World brokers.State stores.Store) Served
  start_single_node_process spec = do
    let nats_dir = join machine.work_dir (lit "nats")
    let data_dir = join (pipeline_dir machine.work_dir spec) (lit "data")
    p ← prepare machine
    (nats_url, acct) ← connect nats_dir spec.account
    ext ←
        lift key_fault (λ w. w.keys) (λ s w. record w { keys = s })
          (external_keys stores data_dir spec.node_did spec.pipeline_dids spec.process_dids)
    let config =
        process_config spec p.network_listen p.pipeline_listen p.pdp_url nats_url acct.seed_file
          (join nats_dir (lit "operator.seed")) (resolver_dir ops brokers machine.host nats_dir)
    serve spec (boot_spec_of machine spec p.bins config) ext nats_url acct
