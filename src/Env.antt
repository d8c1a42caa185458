-- ===== src/Env.antt =====
-- internal/harness/env.go: what a single-node scenario asks for, and what its two runtimes share.
pub mod Subprocesses
pub mod Containers
pub mod Restarts
pub mod Registered
pub mod Unlisted
pub mod Runtimes
use e2e.Base.{Option, none, some, List, [], ◌∷◌, ◌++◌, Bool, Text, lit, true, false}
use e2e.Base.Maps.{Map}
use e2e.Run.{Run, Outcome, done, fatal, ◌>>=◌, ◌>>◌, pure, lift}
use e2e.Accounts.{Fault}
use e2e.Bootstrap.{ExternalKeys, Request, BootstrapFault, Registry, bootstrap_external}
use e2e.Builds.{BuildFault}
use e2e.Docker.{DockerFault}
use e2e.Poll.{Ended, got, timed_out, died}
use e2e.Keys.{KeyStores, KeyFault}
use e2e.Owners.{Owner, Documents, new_owner, signed_owner_doc}
use e2e.Processes.{BootFault}
use e2e.Separated.{SeparatedConfig}

-- `SingleNodeSpec`
pub record SingleNodeSpec : Type 0 where
  pub account : Text
  pub registry_id : Text
  pub node_did : Text
  pub pipeline_dids : List Text
  pub process_dids : List Text
  pub loops : Text → Text
  pub tunables : Text
  pub chain_tunables : Text
  pub ingress_subjects : List Text

-- `SingleNodeEnv`, without its functions.
pub record SingleNodeEnv : Type 0 where
  pub node_base : Text
  pub pipeline_base : Text
  pub nats_url : Text
  pub acct_seed : Text

-- The calls of `t.Fatal` and `t.Fatalf`, by the helper that makes them.
pub data EnvFault : Type 0 where
  build_fault : BuildFault → EnvFault
  no_port : EnvFault
  no_stub : EnvFault
  nats_fault : Fault → EnvFault
  key_fault : KeyFault → EnvFault
  boot_fault : BootFault → EnvFault
  unsubscribed : Text → EnvFault
  no_dir : EnvFault
  uncleared : Text → EnvFault
  docker_fault : DockerFault → EnvFault
  no_address : Text → EnvFault
  unhealthy : Text → EnvFault
  unread_seed : EnvFault
  bootstrap_fault : BootstrapFault → EnvFault

-- The end of a wait, which fails the test unless it returns.
unfoldable pub found_or : {W A : Type 0} → EnvFault → Option (Ended A) → Run EnvFault W A
found_or fault (some (got a _)) w = (done a, w)
found_or fault (some (timed_out _)) w = (fatal fault, w)
found_or fault (some (died _)) w = (fatal fault, w)
found_or fault none w = (fatal fault, w)

-- `ownerDIDFor`
unfoldable pub owner_did_for : SingleNodeSpec → Text
owner_did_for spec = lit "did:dplaax:" ++ (spec.registry_id ++ (lit ":org:" ++ spec.account))

-- What the two runtimes configure alike. They differ in the addresses and paths.
unfoldable pub shared_config : SingleNodeSpec → SeparatedConfig → SeparatedConfig
shared_config spec c = record c {
  registry_id = spec.registry_id;
  node_did = spec.node_did;
  loops_block = spec.loops c.resolver_base_url;
  tunables = spec.tunables;
  chain_extra = spec.chain_tunables;
}

-- Package delegation of provin.oss, which is not part of this repository, and the registry: the
-- owner's delegation for a subject, and which requests the service at a base URL accepts.
pub record Services : Type 0 where
  pub delegate : Owner → Text → Option Text
  pub accepts : Text → Request → Bool

module _ (stores : KeyStores) (docs : Documents) (services : Services) where
  -- What `BootstrapExternal` is given: the owner's signatures, and the service at `base`.
  unfoldable pub registry_of : Text → Owner → Registry
  registry_of base o = record {
    owner_document = elim (signed_owner_doc docs {S = Unit {0}} o tt).0 [
      | done raw ↦ some raw
      | fatal _ ↦ none
    ];
    build_delegation = services.delegate o;
    accepts = services.accepts base;
  }

  -- `NewOwner` and `BootstrapExternal`: the key stores and the requests sent.
  unfoldable pub register_identities :
      Text
      → Text
      → SingleNodeSpec
      → Map ExternalKeys
      → Run EnvFault (stores.Store × List Request) (Unit {0})
  register_identities owner_dir base spec ext = do
    owner ←
        lift key_fault (λ w. w.0) (λ s w. (s, w.1))
          (new_owner stores owner_dir (owner_did_for spec))
    lift bootstrap_fault (λ w. w.1) (λ sent w. (w.0, sent))
        (bootstrap_external (registry_of base owner) ext spec.pipeline_dids spec.process_dids)
