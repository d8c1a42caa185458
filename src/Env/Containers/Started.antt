-- ===== src/Env/Containers/Started.antt =====
-- internal/harness/env.go: `startSingleNodeCompose` sets up all that the spec asks for.
use e2e.Base.{◌≡◌, ◌++◌, some, ◌∷◌, Text, lit, All, trim_space}
use e2e.Base.Maps.{lookup}
use e2e.Run.{Run}
use e2e.Disk.{join}
use e2e.Accounts.{Account, Operators}
use e2e.Docker.{compose_of}
use e2e.Keys.{KeyStores}
use e2e.Owners.{Documents}
use e2e.Env.{SingleNodeSpec, Services}
use e2e.Env.Registered.{IsRegistered}
use e2e.Env.Containers.Calls.{IsAtPort, IsReadyAt, IsSubscribedAt}
use e2e.Env.Containers.{World, Site, Contained, data_dir_of}

module _ (site : Site) (ops : Operators) (stores : KeyStores) (docs : Documents)
    (services : Services) where
  -- What the end of a start has done in a scenario directory: the project is up and its teardown is
  -- registered; each of the two URLs that the scenario is given is that of its own service's port and has
  -- answered /readyz; the monitoring endpoint and the broker's URL are those of the broker's ports; every
  -- ingress subject has a subscriber; the scenario's seed is the trimmed one of the registered account;
  -- and the identities are registered at the network's URL.
  pub record IsContained (scenario_dir : Text) (spec : SingleNodeSpec)
      (w w' : World ops.World stores.Store) (node : Contained) : Type 0 where
    pub account : Account
    pub project : node.compose ≡ compose_of site.sum256 scenario_dir
    pub torn_down : w'.docker.cleanups ≡ compose_of site.sum256 scenario_dir ∷ w.docker.cleanups
    pub network_ready : IsReadyAt site w'.docker (spec.account ++ lit "-network") node.env.node_base
    pub pipeline_ready :
        IsReadyAt site w'.docker (spec.account ++ lit "-pipeline") node.env.pipeline_base
    pub monitor_found : IsAtPort site w'.docker (lit "nats") 8222 (lit "http://") node.monitor
    pub client_found : IsAtPort site w'.docker (lit "nats") 4222 (lit "nats://") node.env.nats_url
    pub subscribed : All (IsSubscribedAt site w'.docker node.monitor) spec.ingress_subjects
    pub known : lookup spec.account w'.provision.base.accounts ≡ some account
    pub seed_given : node.env.acct_seed ≡ trim_space account.seed
    pub registered :
        IsRegistered stores docs services
          (data_dir_of (join scenario_dir (lit "testdata")) spec)
          node.env.node_base
          spec
          w.sent
          w'.keys
          w'.sent
