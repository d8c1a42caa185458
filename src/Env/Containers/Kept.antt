-- ===== src/Env/Containers/Kept.antt =====
-- internal/harness/env.go: what the calls of `startSingleNodeCompose` leave alone, however they end.
use e2e.Base.{ℕ, Bool-cases, inl, inr, refl, ap, ◌++◌, ◌*◌, List, [], ◌∷◌, Text, lit, length}
use e2e.Base.Maps.{lookup}
use e2e.Run.{lift}
use e2e.Run.Kept.{Keeps, bind-Keeps, lift-Keeps, or_fail-Keeps}
use e2e.Disk.{join, make_container_readable}
use e2e.Accounts.{Operators, on_disk, unopened}
use e2e.Compose.{on_base, provision_compose, write_broker_config, write_node_config}
use e2e.Docker.{Docker, Compose, compose_up, port_command}
use e2e.Bootstrap.{Request}
use e2e.Keys.{KeyStores, external_keys}
use e2e.Owners.{Documents}
use e2e.Separated.{split_node_config}
use e2e.Waits.{port, wait_http_healthy, wait_for_subscriber_http}
use e2e.Env.{
  SingleNodeSpec, key_fault, docker_fault, no_address, unread_seed, unhealthy, unsubscribed,
  Services,
}
use e2e.Env.Unlisted.{acts_at, found_or-Keeps, on_provision-Keeps, remove_all-Keeps}
use e2e.Env.Containers.{
  World, unfound_logs, Site, data_dir_of, compose_config, network_service, pipeline_service,
  remove_all, port_of, read_seed, on_docker, open_at, wait_subscribed_at, wait_healthy_at,
  ready_base,
}
use e2e.Env.Containers.Start.{on_provision, prepare_at, credentials}

module _ (site : Site) (ops : Operators) (stores : KeyStores) (docs : Documents)
    (services : Services) where
  pub prepare_at-Keeps :
      (testdata : Text) (spec : SingleNodeSpec)
      → Keeps acts_at (prepare_at site ops stores docs services testdata spec)
  unfolding prepare_at
  prepare_at-Keeps testdata spec =
      let data_dir = data_dir_of testdata spec in
      let configs = split_node_config site.parsers [] (compose_config spec) in
      let provision =
        external_keys stores data_dir spec.node_did spec.pipeline_dids spec.process_dids in
      let provisioned = on_provision-Keeps site ops stores docs services in
      let on = on_provision site ops stores docs services in
      bind-Keeps acts_at (remove_all site ops.remove_jwts stores.remove_below testdata) _
        (remove_all-Keeps site ops stores docs services testdata)
        (λ _.
          bind-Keeps acts_at (on _) _
            (provisioned (provision_compose ops site.host testdata (spec.account ∷ [])))
            (λ _.
              bind-Keeps acts_at (on _) _
                (provisioned
                  (write_broker_config ops site.host testdata site.parsers.is_print site.order))
                (λ _.
                  bind-Keeps acts_at
                    (lift key_fault (λ w. w.keys) (λ s w. record w { keys = s }) provision) _
                    (lift-Keeps acts_at key_fault (λ w. w.keys) (λ s w. record w { keys = s })
                      (λ _ _. refl) provision)
                    (λ ext.
                      bind-Keeps acts_at (on _) _
                        (provisioned (
                          on_base (
                            on_disk unopened (
                              make_container_readable site.host
                                (site.key_tree (join data_dir (lit "keys")))))))
                        (λ _.
                          bind-Keeps acts_at (on _) _
                            (provisioned (
                              write_node_config ops site.host testdata (network_service spec)
                                configs.0))
                            (λ _.
                              bind-Keeps acts_at (on _) _
                                (provisioned (
                                  write_node_config ops site.host testdata (pipeline_service spec)
                                    configs.1))
                                (λ _ _. refl)))))))

-- The compose commands that change something, with the teardowns, and what the registry was sent.
abbrev pub up_acts : {W K : Type 0} → World W K → Docker × List Request
up_acts w = (w.docker, w.sent)

module _ (site : Site) {W K : Type 0} where
  port_of-Keeps :
      (c : Compose) (service : Text) (container_port : ℕ)
      → Keeps up_acts (port_of site {W = W} {K = K} c service container_port)
  unfolding port_of
  port_of-Keeps c service container_port w =
      let found = port (site.port (length w.docker.commands) service container_port) in
      found_or-Keeps up_acts (no_address service) found (record w {
        queries =
            (w.queries ++ (port_command c service container_port ∷ []))
            ++ unfound_logs c service found;
      })

  wait_healthy_at-Keeps :
      (name url : Text) → Keeps up_acts (wait_healthy_at site {W = W} {K = K} name url)
  unfolding wait_healthy_at
  wait_healthy_at-Keeps name url w =
      found_or-Keeps up_acts (unhealthy name)
        (wait_http_healthy (60 * 1000) (site.get (length w.docker.commands) url)) w

  ready_base-Keeps :
      (c : Compose) (service : Text) → Keeps up_acts (ready_base site {W = W} {K = K} c service)
  unfolding ready_base
  ready_base-Keeps c service =
      bind-Keeps up_acts (port_of site c service 8443) _ (port_of-Keeps c service 8443) (λ address.
        bind-Keeps up_acts
          (wait_healthy_at site service (lit "http://" ++ address ++ lit "/readyz")) _
          (wait_healthy_at-Keeps service (lit "http://" ++ address ++ lit "/readyz")) (λ _ _. refl))

  wait_subscribed_at-Keeps :
      (monitor : Text) (subjects : List Text)
      → Keeps up_acts (wait_subscribed_at site {W = W} {K = K} monitor subjects)
  unfolding wait_subscribed_at
  wait_subscribed_at-Keeps monitor [] = λ _. refl
  wait_subscribed_at-Keeps monitor (subject ∷ subjects) =
      bind-Keeps up_acts _ _
        (λ w.
          found_or-Keeps up_acts (unsubscribed subject)
            (wait_for_subscriber_http subject (60 * 1000)
              (site.get (length w.docker.commands) (monitor ++ lit "/subsz?subs=1")))
            w)
        (λ _. wait_subscribed_at-Keeps monitor subjects)

  pub open_at-Keeps :
      (scenario_dir : Text) (spec : SingleNodeSpec)
      → Keeps (λ w. w.sent) (open_at site {W = W} {K = K} scenario_dir spec)
  unfolding open_at on_docker
  open_at-Keeps scenario_dir spec =
      let up = compose_up site.answer site.sum256 site.ids scenario_dir in
      bind-Keeps (λ w. w.sent)
        (lift docker_fault (λ w. w.docker) (λ d w. record w { docker = d }) up) _
        (lift-Keeps (λ w. w.sent) docker_fault (λ w. w.docker) (λ d w. record w { docker = d })
          (λ _ _. refl) up)
        (λ c w.
          ap (λ x. x.1)
            (bind-Keeps up_acts (port_of site c (lit "nats") 8222) _
              (port_of-Keeps c (lit "nats") 8222)
              (λ address.
                bind-Keeps up_acts
                  (wait_healthy_at site (lit "nats") (lit "http://" ++ address ++ lit "/healthz")) _
                  (wait_healthy_at-Keeps (lit "nats") (lit "http://" ++ address ++ lit "/healthz"))
                  (λ _.
                    bind-Keeps up_acts (ready_base site c (network_service spec)) _
                      (ready_base-Keeps c (network_service spec))
                      (λ network.
                        bind-Keeps up_acts (ready_base site c (pipeline_service spec)) _
                          (ready_base-Keeps c (pipeline_service spec))
                          (λ pipeline.
                            bind-Keeps up_acts
                              (wait_subscribed_at site (lit "http://" ++ address)
                                spec.ingress_subjects)
                              _
                              (wait_subscribed_at-Keeps (lit "http://" ++ address)
                                spec.ingress_subjects)
                              (λ _ _. refl)))))
              w))

module _ (site : Site) (ops : Operators) (stores : KeyStores) (docs : Documents)
    (services : Services) where
  pub credentials-Keeps :
      (scenario_dir : Text) (spec : SingleNodeSpec) (c : Compose)
      → Keeps up_acts (credentials site ops stores docs services scenario_dir spec c)
  unfolding credentials read_seed
  credentials-Keeps scenario_dir spec c =
      let path = join (join scenario_dir (lit "testdata")) (spec.account ++ lit "-account.seed") in
      bind-Keeps up_acts (read_seed site path) _
        (λ w. elim (Bool-cases (site.host.can_read path)) [
          | inl e ↦
              rw e (or_fail-Keeps up_acts (lookup path w.provision.base.disk.files) unread_seed w)
          | inr e ↦ rw e refl
        ])
        (λ seed.
          bind-Keeps up_acts (port_of site c (lit "nats") 4222) _
            (port_of-Keeps site c (lit "nats") 4222) (λ _ _. refl))
