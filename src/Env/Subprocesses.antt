-- ===== src/Env/Subprocesses.antt =====
-- internal/harness/env.go: the world of the process runtime, its steps, and `RestartNode` and `StopNode`.
pub mod Start
pub mod Calls
pub mod Serving
pub mod Started
pub mod Order
use e2e.Base.{
  ℕ, suc, ◌*◌, Bool, true, false, Option, none, some, List, [], ◌∷◌, ◌++◌, Text, lit, length,
}
use e2e.Base.Maps.{Map}
use e2e.Base.Numbers.{show_nat}
use e2e.Run.{Run, done, fatal, ◌>>=◌, ◌>>◌, pure, lift}
use e2e.Disk.{Host, join}
use e2e.Accounts.{Account, Operators, account}
use e2e.Bootstrap.{ExternalKeys, Request}
use e2e.Builds.{Toolchain, Builds, build_binaries}
use e2e.Config.{Parsers}
use e2e.Keys.{KeyStores, external_keys}
use e2e.Nats.{Brokers, Nats, on_provision, resolver_dir, start_nats}
use e2e.Owners.{Documents}
use e2e.Processes.{
  Event, Booting, System, SeparatedNode, SeparatedNodeSpec, start_separated_node, separated_stop,
}
use e2e.Separated.{SeparatedConfig, split_node_config}
use e2e.Waits.{Probe, Reply, wait_for_subscriber, wait_pdp_stub}
use e2e.Env.{
  SingleNodeSpec, SingleNodeEnv, EnvFault, build_fault, no_port, no_stub, nats_fault, key_fault,
  boot_fault, unsubscribed, found_or, shared_config, Services, register_identities,
}

-- Everything that the helpers of this runtime change. The disk is that of the provisioning; `stubs` are
-- the addresses of the stubs whose shutdown is registered as a cleanup.
pub record World (W B K : Type 0) : Type 0 where
  pub builds : Builds
  pub ports : ℕ
  pub stubs : List Text
  pub nats : Nats W B
  pub keys : K
  pub events : List Event
  pub sent : List Request

-- What the helpers of this runtime meet: the ports that the system hands out, what the stub answers,
-- and the broker's subscriptions, which depend on the number of events before, since a node that was
-- stopped or started has other ones.
pub record Machine : Type 0 where
  pub tools : Toolchain
  pub host : Host
  pub system : System
  pub free_port : ℕ → Option ℕ
  pub stub : ℕ → Probe Reply
  pub subscriptions : ℕ → Text → ℕ → Probe (Option (List Text))
  pub heeds : Text → Bool
  pub parsers : Parsers
  pub work_dir : Text
  pub owner_dir : Text

-- What the returned functions share: the node, and how `startBoth` boots it.
pub record Served : Type 0 where
  pub env : SingleNodeEnv
  pub boot_spec : SeparatedNodeSpec
  pub node : SeparatedNode

-- What is at hand before the broker starts.
pub record Prepared : Type 0 where
  pub bins : Text × Text
  pub network_listen : Text
  pub pipeline_listen : Text
  pub pdp_url : Text

unfoldable pub loopback : Text → Text
loopback addr = lit "http://127.0.0.1" ++ addr

-- The directory that holds the pipeline's keys, and the other directories of a spec.
unfoldable pub pipeline_dir : Text → SingleNodeSpec → Text
pipeline_dir work_dir spec = join work_dir (spec.account ++ lit "-pipeline")

unfoldable pub network_dir : Text → SingleNodeSpec → Text
network_dir work_dir spec = join work_dir (spec.account ++ lit "-network")

-- The `SeparatedConfig` of this runtime.
unfoldable pub process_config :
    SingleNodeSpec → Text → Text → Text → Text → Text → Text → Text → SeparatedConfig
unfolding shared_config loopback
process_config spec network_listen pipeline_listen pdp_url nats_url seed_file trust_file jwts =
    shared_config spec (record {
      network_listen_addr = network_listen;
      pipeline_listen_addr = pipeline_listen;
      registry_id = [];
      pdp_base_url = pdp_url;
      nats_url = nats_url;
      account_seed_file = seed_file;
      trust_seed_file = trust_file;
      resolver_dir = jwts;
      node_did = [];
      resolver_base_url = loopback network_listen;
      registry_base_urls = [];
      loops_block = [];
      tunables = [];
      chain_extra = [];
      allow_loopback = true;
      allow_private_networks = false;
    })

-- The `SeparatedNodeSpec` that `startBoth` boots.
unfoldable pub boot_spec_of :
    Machine → SingleNodeSpec → Text × Text → SeparatedConfig → SeparatedNodeSpec
unfolding network_dir pipeline_dir split_node_config
boot_spec_of machine spec bins config = record {
  name = spec.account;
  network_bin = bins.0;
  network_listen_addr = config.network_listen_addr;
  network_dir = network_dir machine.work_dir spec;
  network_config = (split_node_config machine.parsers [] config).0;
  pipeline_bin = bins.1;
  pipeline_listen_addr = config.pipeline_listen_addr;
  pipeline_dir = pipeline_dir machine.work_dir spec;
  pipeline_config = (split_node_config machine.parsers [] config).1;
}

module _ (machine : Machine) {W B K : Type 0} where
  -- `FreePort`
  unfoldable pub free_port : Run EnvFault (World W B K) Text
  free_port w = (
    elim (machine.free_port w.ports) [
      | none ↦ fatal no_port
      | some port ↦ done (lit ":" ++ show_nat port)
    ],
    record w { ports = suc w.ports },
  )

  -- The start of the stub, which registers its shutdown.
  unfoldable pub serve_stub : Text → Run EnvFault (World W B K) (Unit {0})
  serve_stub addr w = (done tt, record w { stubs = addr ∷ w.stubs })

  -- The binaries, the two listen addresses and the stub.
  unfoldable pub prepare : Run EnvFault (World W B K) Prepared
  prepare = do
    bins ←
        lift build_fault (λ w. w.builds) (λ b w. record w { builds = b })
          (build_binaries machine.tools)
    network_listen ← free_port
    pipeline_listen ← free_port
    stub_addr ← free_port
    serve_stub stub_addr
    pdp_url ← found_or no_stub (wait_pdp_stub stub_addr machine.stub)
    pure (record {
      bins = bins;
      network_listen = network_listen;
      pipeline_listen = pipeline_listen;
      pdp_url = pdp_url;
    })

  -- `waitSubscribed`
  unfoldable pub wait_subscribed : List Text → Run EnvFault (World W B K) (Unit {0})
  unfolding found_or
  wait_subscribed [] = pure tt
  wait_subscribed (subject ∷ subjects) =
      (λ w.
        found_or (unsubscribed subject)
          (wait_for_subscriber subject (30 * 1000)
            (machine.subscriptions (length w.events) subject))
          w)
      >> wait_subscribed subjects

  unfoldable pub get_booting : World W B K → Booting
  get_booting w = record { disk = w.nats.provision.disk; events = w.events }

  unfoldable pub set_booting : Booting → World W B K → World W B K
  set_booting b w = record w {
    nats = record w.nats { provision = record w.nats.provision { disk = b.disk } };
    events = b.events;
  }

  -- `startBoth`
  unfoldable pub start_both : SeparatedNodeSpec → Run EnvFault (World W B K) SeparatedNode
  unfolding lift get_booting set_booting
  start_both boot_spec =
      lift boot_fault get_booting set_booting
        (start_separated_node machine.host machine.system boot_spec)

  -- `StopNode`
  unfoldable pub stop_node : Served → Run EnvFault (World W B K) SeparatedNode
  stop_node served w =
      let (node, events) = separated_stop machine.heeds served.node in
      (done node, record w { events = w.events ++ events })

  -- `RestartNode`, with the node that runs from then on.
  unfoldable pub restart_node : SingleNodeSpec → Served → Run EnvFault (World W B K) (Text × Served)
  restart_node spec served = do
    stopped ← stop_node served
    node ← start_both served.boot_spec
    wait_subscribed spec.ingress_subjects
    pure (loopback served.boot_spec.network_listen_addr, record served { node = node })
