-- ===== src/Env/Subprocesses/Serving.antt =====
-- internal/harness/env.go: what `startSingleNodeProcess` has set up when it returns.
use e2e.Base.{◌≡◌, ◌≢◌, ap, ap₂, sym, ◌∙◌, ◌++◌, ◌⊎◌, some, [], Text, lit, All, Any}
use e2e.Base.Maps.{Map, lookup}
use e2e.Run.{done, lift}
use e2e.Run.Inversion.{bind-done, lift-done, pure-done}
use e2e.Disk.{join}
use e2e.Accounts.{Account, Operators}
use e2e.Bootstrap.{ExternalKeys}
use e2e.Keys.{KeyStores, external_keys}
use e2e.Keys.Stored.{IsAgreed}
use e2e.Nats.{Brokers}
use e2e.Owners.{Documents}
use e2e.Processes.{SeparatedNodeSpec}
use e2e.Processes.Boot.{boot_events}
use e2e.Separated.{SeparatedConfig}
use e2e.Env.{SingleNodeSpec, Services, register_identities}
use e2e.Env.Registered.{IsRegistered, register_identities-done}
use e2e.Processes.Written.{application_conf, pipeline_conf}
use e2e.Separated.{split_node_config}
use e2e.Builds.{build_binaries}
use e2e.Env.Subprocesses.Calls.{
  IsSubscribed, IsSubscribed-moves, wait_subscribed-done, start_both-done,
}
use e2e.Env.Subprocesses.{
  World, Machine, Served, loopback, pipeline_dir, wait_subscribed, set_booting, start_both,
}
use e2e.Env.Subprocesses.Start.{serve}

module _ (machine : Machine) (ops : Operators) (brokers : Brokers) (stores : KeyStores)
    (docs : Documents) (services : Services) where
  -- What the end of a start has done, for a boot spec, keys, and an account that are given.
  pub record IsServed (data_dir : Text) (spec : SingleNodeSpec) (boot_spec : SeparatedNodeSpec)
      (nats_url : Text) (acct : Account) (w w' : World ops.World brokers.State stores.Store)
      (served : Served) : Type 0 where
    pub boots_again : served.boot_spec ≡ boot_spec
    pub node_base : served.env.node_base ≡ loopback boot_spec.network_listen_addr
    pub pipeline_base : served.env.pipeline_base ≡ loopback boot_spec.pipeline_listen_addr
    pub builds_kept : w'.builds ≡ w.builds
    pub urls : (served.env.nats_url ≡ nats_url) × (served.env.acct_seed ≡ acct.seed)
    pub broker_kept : w'.nats.broker ≡ w.nats.broker
    pub accounts_kept : w'.nats.provision.accounts ≡ w.nats.provision.accounts
    pub booted : w'.events ≡ w.events ++ boot_events boot_spec
    pub network_configured :
        lookup (application_conf boot_spec.network_dir) w'.nats.provision.disk.files
        ≡ some boot_spec.network_config
    pub configured :
        lookup (pipeline_conf boot_spec.pipeline_dir) w'.nats.provision.disk.files
        ≡ some boot_spec.pipeline_config
    pub subscribed : All (IsSubscribed machine w'.events) spec.ingress_subjects
    pub registered :
        IsRegistered stores docs services data_dir
          (loopback boot_spec.network_listen_addr)
          spec
          w.sent
          w'.keys
          w'.sent

  pub serve-IsServed :
      e2e.Keys.Stored.IsLawful stores
      → (data_dir : Text) → machine.owner_dir ≢ join data_dir (lit "keys")
      → (spec : SingleNodeSpec) (boot_spec : SeparatedNodeSpec) (ext : Map ExternalKeys)
        (nats_url : Text) (acct : Account) (w w' : World ops.World brokers.State stores.Store)
        (served : Served)
      → IsAgreed stores data_dir ext w.keys
      → Any (λ x. x ≡ spec.node_did) spec.pipeline_dids
        ⊎ Any (λ x. x ≡ spec.node_did) spec.process_dids
      → serve machine ops brokers stores docs services spec boot_spec ext nats_url acct w
        ≡ (done served, w')
      → IsServed data_dir spec boot_spec nats_url acct w w' served
  unfolding serve set_booting
  serve-IsServed law data_dir apart spec boot_spec ext nats_url acct w w' served agreed listed e =
      let base = loopback boot_spec.network_listen_addr in
      let (node, w1, c1, e1) = bind-done (start_both machine boot_spec) _ w served w' e in
      let (_, w2, c2, e2) =
        bind-done (wait_subscribed machine spec.ingress_subjects) _ w1 served w' e1 in
      let register = register_identities stores docs services machine.owner_dir base spec ext in
      let (_, w3, c3, e3) =
        bind-done
          (lift (λ e. e) (λ w. (w.keys, w.sent)) (λ t w. record w { keys = t.0; sent = t.1 })
            register)
          _ w2 served w' e2 in
      let (b, w1_is, events_are, network_configured, configured) =
        start_both-done machine boot_spec w w1 node c1 in
      let (subscribed, w2_is) = wait_subscribed-done machine spec.ingress_subjects w1 w2 c2 in
      let (t, registered, w3_is) =
        lift-done (λ e. e) (λ w. (w.keys, w.sent)) (λ t w. record w { keys = t.0; sent = t.1 })
          register w2 tt w3 c3 in
      let result : Served = record {
        env = record {
          node_base = base;
          pipeline_base = loopback boot_spec.pipeline_listen_addr;
          nats_url = nats_url;
          acct_seed = acct.seed;
        };
        boot_spec = boot_spec;
        node = node;
      } in
      let (served_is, w'_is) = pure-done result served w3 w' e3 in
      let w2_now : w2 ≡ set_booting machine b w = w2_is ∙ w1_is in
      let put : World ops.World brokers.State stores.Store
          → World ops.World brokers.State stores.Store =
        λ x. record x { keys = t.0; sent = t.1 } in
      let w'_now : w' ≡ put (set_booting machine b w) = w'_is ∙ (w3_is ∙ ap put w2_now) in
      record {
        boots_again = ap (λ x. x.boot_spec) (sym served_is);
        node_base = ap (λ x. x.env.node_base) (sym served_is);
        pipeline_base = ap (λ x. x.env.pipeline_base) (sym served_is);
        builds_kept = ap (λ x. x.builds) w'_now;
        urls =
            (ap (λ x. x.env.nats_url) (sym served_is), ap (λ x. x.env.acct_seed) (sym served_is));
        broker_kept = ap (λ x. x.nats.broker) w'_now;
        accounts_kept = ap (λ x. x.nats.provision.accounts) w'_now;
        booted = ap (λ x. x.events) w'_now ∙ events_are;
        network_configured =
            ap (λ x. lookup (application_conf boot_spec.network_dir) x.nats.provision.disk.files)
              w'_now
            ∙ network_configured;
        configured =
            ap (λ x. lookup (pipeline_conf boot_spec.pipeline_dir) x.nats.provision.disk.files)
              w'_now
            ∙ configured;
        subscribed =
            IsSubscribed-moves machine spec.ingress_subjects
              (sym
                (ap (λ x. x.events) w'_is ∙ (ap (λ x. x.events) w3_is ∙ ap (λ x. x.events) w2_is)))
              subscribed;
        registered =
            register_identities-done stores docs services law data_dir machine.owner_dir base apart
              spec ext w.keys w'.keys w.sent w'.sent agreed listed
              (ap register (sym (ap (λ x. (x.keys, x.sent)) w2_now))
                ∙ (registered
                    ∙ ap₂ (λ k l. (done tt, (k, l))) (sym (ap (λ x. x.keys) w'_now))
                        (sym (ap (λ x. x.sent) w'_now))));
      }

  -- What a whole start has set up: an account that the broker lets in, with the seed that the
  -- scenario is given; a node booted from the built binaries in the two directories of the spec's
  -- account, with the two halves of one `SeparatedConfig`, the network's in its application.conf and the
  -- pipeline's in its pipeline.conf, where that config has the spec's node DID, its loops as rendered
  -- for the node's base URL, the broker and account of the scenario, and the listen addresses of the
  -- two base URLs; a subscriber for every ingress subject once both processes were up; and the
  -- registered identities.
  pub record IsServing (spec : SingleNodeSpec) (w w' : World ops.World brokers.State stores.Store)
      (served : Served) : Type 0 where
    pub account : Account
    pub bins : Text × Text
    pub config : SeparatedConfig
    pub known : lookup spec.account w'.nats.provision.accounts ≡ some account
    pub let_in : (jwt : Text) × (brokers.stored account.public_key w'.nats.broker ≡ some jwt)
    pub seed_given : served.env.acct_seed ≡ account.seed
    pub bins_built : build_binaries machine.tools w.builds ≡ (done bins, w'.builds)
    pub boots_again : served.boot_spec ≡ record {
      name = spec.account;
      network_bin = bins.0;
      network_listen_addr = config.network_listen_addr;
      network_dir = join machine.work_dir (spec.account ++ lit "-network");
      network_config = (split_node_config machine.parsers [] config).0;
      pipeline_bin = bins.1;
      pipeline_listen_addr = config.pipeline_listen_addr;
      pipeline_dir = join machine.work_dir (spec.account ++ lit "-pipeline");
      pipeline_config = (split_node_config machine.parsers [] config).1;
    }
    pub bases :
        (served.env.node_base ≡ lit "http://127.0.0.1" ++ config.network_listen_addr)
        × (served.env.pipeline_base ≡ lit "http://127.0.0.1" ++ config.pipeline_listen_addr)
    pub did_configured : config.node_did ≡ spec.node_did
    pub loops_configured : config.loops_block ≡ spec.loops served.env.node_base
    pub broker_configured :
        (config.nats_url ≡ served.env.nats_url) × (config.account_seed_file ≡ account.seed_file)
    pub booted : w'.events ≡ w.events ++ boot_events served.boot_spec
    pub network_configured :
        lookup
          (join
            (join (join machine.work_dir (spec.account ++ lit "-network")) (lit "config"))
            (lit "application.conf"))
          w'.nats.provision.disk.files
        ≡ some (split_node_config machine.parsers [] config).0
    pub pipeline_configured :
        lookup
          (join (join machine.work_dir (spec.account ++ lit "-pipeline")) (lit "pipeline.conf"))
          w'.nats.provision.disk.files
        ≡ some (split_node_config machine.parsers [] config).1
    pub subscribed : All (IsSubscribed machine w'.events) spec.ingress_subjects
    pub registered :
        IsRegistered stores docs services
          (join (pipeline_dir machine.work_dir spec) (lit "data"))
          served.env.node_base
          spec
          w.sent
          w'.keys
          w'.sent
