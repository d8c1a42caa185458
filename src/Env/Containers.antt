-- ===== src/Env/Containers.antt =====
-- internal/harness/env.go: the world of the compose runtime, its steps, and `RestartNode` and `StopNode`.
pub mod Start
pub mod Calls
pub mod Seeded
pub mod Provisioned
pub mod Up
pub mod Started
pub mod Kept
pub mod Order
use e2e.Base.{
  ℕ, ◌*◌, Bool, true, false, ◌||◌, Option, none, some, List, [], ◌∷◌, ◌++◌, Text, lit, ◌==◌,
  text_eq, length, if◌then◌else◌, has_prefix, trim_space,
}
use e2e.Base.Maps.{Map, lookup}
use e2e.Run.{Run, done, fatal, ◌>>=◌, ◌>>◌, pure, lift, or_fail}
use e2e.Disk.{Host, join, make_container_readable}
use e2e.Accounts.{Fault, Operators, on_disk, unopened}
use e2e.Bootstrap.{ExternalKeys, Request}
use e2e.Compose.{
  ComposeProvision, on_base, provision_compose, write_broker_config, write_node_config,
}
use e2e.Config.{Parsers}
use e2e.Poll.{Ended, got, timed_out, died}
use e2e.Docker.{
  Answer, Command, Compose, Docker, DockerFault, port_command, logs_command, compose_up,
  restart_service, stop_service,
}
use e2e.Keys.{KeyStores, external_keys}
use e2e.Owners.{Documents}
use e2e.Separated.{SeparatedConfig, split_node_config}
use e2e.Waits.{Probe, Reply, port, wait_http_healthy, wait_for_subscriber_http}
use e2e.Env.{
  SingleNodeSpec, SingleNodeEnv, EnvFault, no_dir, uncleared, nats_fault, key_fault, docker_fault,
  no_address, unhealthy, unread_seed, unsubscribed, found_or, shared_config, Services,
  register_identities,
}

-- Everything that the helpers of this runtime change. The disk is that of the provisioning. `queries` are
-- the commands that change nothing: the `port` command of a wait for an address, once for all rounds of
-- that wait, which run the same command, and the `logs` command that such a wait ends with if it fails.
pub record World (W K : Type 0) : Type 0 where
  pub provision : ComposeProvision W
  pub keys : K
  pub docker : Docker
  pub queries : List Command
  pub sent : List Request

-- What the helpers of this runtime meet. What a port command and a request answer depends on the
-- number of compose commands before that can change something, since a restart publishes other ports. `key_tree` is what a walk
-- of the key directory visits, and `order` is the order of a range over the accounts.
pub record Site : Type 0 where
  pub host : Host
  pub getwd : Option Text
  pub can_remove : Text → Bool
  pub answer : ℕ → Answer
  pub sum256 : Text → List ℕ
  pub ids : Option (ℕ × ℕ)
  pub port : ℕ → Text → ℕ → ℕ → Probe (Option Text)
  pub get : ℕ → Text → ℕ → Probe Reply
  pub parsers : Parsers
  pub key_tree : Text → List Text
  pub order : List Text
  pub owner_dir : Text

-- What the returned functions share.
pub record Contained : Type 0 where
  pub env : SingleNodeEnv
  pub compose : Compose
  pub monitor : Text

-- A project that is up: its monitoring endpoint, and the base URLs of its two services.
pub record Opened : Type 0 where
  pub compose : Compose
  pub monitor : Text
  pub network : Text
  pub pipeline : Text

-- The entries that are neither the directory nor below it.
unfoldable pub outside {ℓ} : {V : Type ℓ} → Text → Map V → Map V
outside dir [] = []
outside dir ((path, v) ∷ entries) =
    let rest = outside dir entries in
    if path == dir || has_prefix path (dir ++ lit "/") then rest else (path, v) ∷ rest

unfoldable pub network_service : SingleNodeSpec → Text
network_service spec = spec.account ++ lit "-network"

unfoldable pub pipeline_service : SingleNodeSpec → Text
pipeline_service spec = spec.account ++ lit "-pipeline"

-- `pipelineDataDir`
unfoldable pub data_dir_of : Text → SingleNodeSpec → Text
data_dir_of testdata spec = join (join testdata (pipeline_service spec)) (lit "data")

-- The `SeparatedConfig` of this runtime.
unfoldable pub compose_config : SingleNodeSpec → SeparatedConfig
unfolding shared_config
compose_config spec = shared_config spec (record {
  network_listen_addr = lit ":8443";
  pipeline_listen_addr = lit ":8443";
  registry_id = [];
  pdp_base_url = lit "http://pdpstub:9091";
  nats_url = lit "nats://nats:4222";
  account_seed_file = lit "/app/secrets/" ++ (spec.account ++ lit "-account.seed");
  trust_seed_file = lit "/app/secrets/operator.seed";
  resolver_dir = lit "/app/jwts";
  node_did = [];
  resolver_base_url = lit "http://" ++ (network_service spec ++ lit ":8443");
  registry_base_urls = [];
  loops_block = [];
  tunables = [];
  chain_extra = [];
  allow_loopback = false;
  allow_private_networks = true;
})

-- The logs that a failed `Port` reads.
unfoldable pub unfound_logs {ℓ} : {A : Type ℓ} → Compose → Text → Option (Ended A) → List Command
unfolding logs_command
unfound_logs c service (some (got a t)) = []
unfound_logs c service (some (timed_out t)) = logs_command c service ∷ []
unfound_logs c service (some (died t)) = logs_command c service ∷ []
unfound_logs c service none = logs_command c service ∷ []

module _ (site : Site) {W K : Type 0} where
  -- `os.RemoveAll` of a directory that has the JWTs and key stores below it. What a removal leaves of
  -- these is an argument.
  unfoldable pub remove_all : (W → W) → (Text → K → K) → Text → Run EnvFault (World W K) (Unit {0})
  unfolding outside
  remove_all remove_jwts remove_keys dir w =
      let disk = w.provision.base.disk in
      let removed = record disk {
        files = outside dir disk.files;
        modes = outside dir disk.modes;
      } in
      if site.can_remove dir
      then (
        done tt,
        record w {
          provision = record w.provision {
            base = record w.provision.base {
              disk = removed;
              world = remove_jwts w.provision.base.world;
            };
          };
          keys = remove_keys dir w.keys;
        },
      )
      else (fatal (uncleared dir), w)

  -- `c.Port(t, service, containerPort)`
  unfoldable pub port_of : Compose → Text → ℕ → Run EnvFault (World W K) Text
  unfolding found_or port_command logs_command
  port_of c service container_port w =
      let found = port (site.port (length w.docker.commands) service container_port) in
      found_or (no_address service) found (record w {
        queries =
            (w.queries ++ (port_command c service container_port ∷ []))
            ++ unfound_logs c service found;
      })

  -- `WaitHTTPHealthy(t, name, url, 60*time.Second)`
  unfoldable pub wait_healthy_at : Text → Text → Run EnvFault (World W K) (Unit {0})
  unfolding found_or
  wait_healthy_at name url w =
      found_or (unhealthy name)
        (wait_http_healthy (60 * 1000) (site.get (length w.docker.commands) url)) w

  -- A service's base URL, once it is ready.
  unfoldable pub ready_base : Compose → Text → Run EnvFault (World W K) Text
  ready_base c service = do
    address ← port_of c service 8443
    let base = lit "http://" ++ address
    wait_healthy_at service (base ++ lit "/readyz")
    pure base

  unfoldable pub wait_subscribed_at : Text → List Text → Run EnvFault (World W K) (Unit {0})
  unfolding found_or
  wait_subscribed_at monitor [] = pure tt
  wait_subscribed_at monitor (subject ∷ subjects) =
      (λ w.
        found_or (unsubscribed subject)
          (wait_for_subscriber_http subject (60 * 1000)
            (site.get (length w.docker.commands) (monitor ++ lit "/subsz?subs=1")))
          w)
      >> wait_subscribed_at monitor subjects

  -- `os.ReadFile` of the account's seed file.
  unfoldable pub read_seed : Text → Run EnvFault (World W K) Text
  read_seed path w =
      if site.host.can_read path
      then or_fail (lookup path w.provision.base.disk.files) unread_seed w
      else (fatal unread_seed, w)

  -- A compose command.
  unfoldable pub on_docker : {A : Type 0} → Run DockerFault Docker A → Run EnvFault (World W K) A
  unfolding lift
  on_docker = lift docker_fault (λ w. w.docker) (λ d w. record w { docker = d })

  -- The project, and the waits for its services.
  unfoldable pub open_at : Text → SingleNodeSpec → Run EnvFault (World W K) Opened
  open_at scenario_dir spec = do
    c ← on_docker (compose_up site.answer site.sum256 site.ids scenario_dir)
    address ← port_of c (lit "nats") 8222
    let monitor = lit "http://" ++ address
    wait_healthy_at (lit "nats") (monitor ++ lit "/healthz")
    network ← ready_base c (network_service spec)
    pipeline ← ready_base c (pipeline_service spec)
    wait_subscribed_at monitor spec.ingress_subjects
    pure (record { compose = c; monitor = monitor; network = network; pipeline = pipeline })

  -- `restartService`
  unfoldable pub restart_at : Compose → Text → Run EnvFault (World W K) Text
  restart_at c service = on_docker (restart_service site.answer c service) >> ready_base c service

  -- `RestartNode`
  unfoldable pub restart_node_at : SingleNodeSpec → Contained → Run EnvFault (World W K) Text
  restart_node_at spec node = do
    base ← restart_at node.compose (network_service spec)
    restart_at node.compose (pipeline_service spec)
    wait_subscribed_at node.monitor spec.ingress_subjects
    pure base

  -- `StopNode`
  unfoldable pub stop_node_at : SingleNodeSpec → Contained → Run EnvFault (World W K) (Unit {0})
  stop_node_at spec node =
      on_docker (stop_service site.answer node.compose (pipeline_service spec))
      >> on_docker (stop_service site.answer node.compose (network_service spec))
