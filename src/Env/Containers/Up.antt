-- ===== src/Env/Containers/Up.antt =====
-- internal/harness/env.go: a compose project that is up.
use e2e.Base.{List, ◌≡◌, ap, sym, ◌∙◌, ◌++◌, ◌∷◌, Text, lit, All}
use e2e.Run.{done, lift}
use e2e.Run.Inversion.{bind-done, lift-done, pure-done}
use e2e.Docker.{Docker, Command, port_command, compose_of, compose_up}
use e2e.Docker.Teardown.{compose_up-done}
use e2e.Env.{SingleNodeSpec, docker_fault}
use e2e.Env.Containers.Calls.{
  asked, IsAtPort, IsReadyAt, IsSubscribedAt, IsAtPort-moves, IsReadyAt-moves, IsSubscribedAt-moves,
  port_of-done, wait_healthy_at-done, ready_base-done, wait_subscribed_at-done,
}
use e2e.Env.Containers.{
  World, Site, Opened, open_at, network_service, pipeline_service, port_of, wait_healthy_at,
  ready_base, wait_subscribed_at, on_docker,
}

-- The world after a project is up, with its teardown registered.
pub record IsUp (site : Site) {W K : Type 0} (scenario_dir : Text) (spec : SingleNodeSpec)
    (w w' : World W K) (opened : Opened) : Type 0 where
  pub docker : Docker
  pub queries : List Command
  pub upped : w' ≡ record w { docker = docker; queries = queries }
  pub project : opened.compose ≡ compose_of site.sum256 scenario_dir
  pub torn_down : docker.cleanups ≡ compose_of site.sum256 scenario_dir ∷ w.docker.cleanups
  pub monitor_found : IsAtPort site w'.docker (lit "nats") 8222 (lit "http://") opened.monitor
  pub network_ready : IsReadyAt site w'.docker (spec.account ++ lit "-network") opened.network
  pub pipeline_ready : IsReadyAt site w'.docker (spec.account ++ lit "-pipeline") opened.pipeline
  pub subscribed : All (IsSubscribedAt site w'.docker opened.monitor) spec.ingress_subjects

-- What the waits between a start of a project and its end have added: the queries alone.
module _ {W K : Type 0} where
  abbrev queried : Command → Command → Command → Docker → World W K → World W K
  queried q q' q'' d w = asked q'' (asked q' (asked q (record w { docker = d })))

  waits-done :
      (q q' q'' : Command) (d : Docker) (w w1 w2 w3 w4 w5 w6 w' : World W K)
      → w1 ≡ record w { docker = d }
      → w2 ≡ asked q w1
      → w3 ≡ w2
      → w4 ≡ asked q' w3
      → w5 ≡ asked q'' w4
      → w6 ≡ w5
      → w' ≡ w6
      → (w' ≡ queried q q' q'' d w)
        × (w1.docker ≡ w'.docker)
        × (w3.docker ≡ w'.docker)
        × (w4.docker ≡ w'.docker)
        × (w5.docker ≡ w'.docker)
  waits-done q q' q'' d w w1 w2 w3 w4 w5 w6 w' h1 h2 h3 h4 h5 h6 h7 =
      let d5 : w5.docker ≡ w'.docker = ap (λ x. x.docker) (sym (h7 ∙ h6)) in
      let d4 : w4.docker ≡ w'.docker = ap (λ x. x.docker) (sym h5) ∙ d5 in
      let d3 : w3.docker ≡ w'.docker = ap (λ x. x.docker) (sym h4) ∙ d4 in
      let d1 : w1.docker ≡ w'.docker = ap (λ x. x.docker) (sym (h3 ∙ h2)) ∙ d3 in
      (
        h7 ∙ (h6 ∙ (h5 ∙ ap (asked q'') (h4 ∙ ap (asked q') (h3 ∙ (h2 ∙ ap (asked q) h1))))),
        d1,
        d3,
        d4,
        d5,
      )

module _ (site : Site) {W K : Type 0} where
  pub open_at-IsUp :
      (scenario_dir : Text) (spec : SingleNodeSpec) (w w' : World W K) (opened : Opened)
      → open_at site scenario_dir spec w ≡ (done opened, w')
      → IsUp site scenario_dir spec w w' opened
  unfolding open_at on_docker network_service pipeline_service
  open_at-IsUp scenario_dir spec w w' opened e =
      let up = compose_up site.answer site.sum256 site.ids scenario_dir in
      let (c, w1, c1, e1) =
        bind-done (lift docker_fault (λ w. w.docker) (λ d w. record w { docker = d }) up) _ w opened
          w' e in
      let (address, w2, c2, e2) = bind-done (port_of site c (lit "nats") 8222) _ w1 opened w' e1 in
      let monitor = lit "http://" ++ address in
      let url = monitor ++ lit "/healthz" in
      let (_, w3, c3, e3) = bind-done (wait_healthy_at site (lit "nats") url) _ w2 opened w' e2 in
      let (network, w4, c4, e4) =
        bind-done (ready_base site c (network_service spec)) _ w3 opened w' e3 in
      let (pipeline, w5, c5, e5) =
        bind-done (ready_base site c (pipeline_service spec)) _ w4 opened w' e4 in
      let (_, w6, c6, e6) =
        bind-done (wait_subscribed_at site monitor spec.ingress_subjects) _ w5 opened w' e5 in
      let (d, upped, w1_is) =
        lift-done docker_fault (λ w. w.docker) (λ d w. record w { docker = d }) up w c w1 c1 in
      let (c_is, cleanups) =
        compose_up-done site.answer site.sum256 site.ids scenario_dir w.docker d c upped in
      let (_, w3_is) = wait_healthy_at-done site (lit "nats") url w2 w3 c3 in
      let ((found, t, is, found_is), w2_is) =
        port_of-done site c (lit "nats") 8222 w1 w2 address c2 in
      let (network_ready, w4_is) = ready_base-done site c (network_service spec) w3 w4 network c4 in
      let (pipeline_ready, w5_is) =
        ready_base-done site c (pipeline_service spec) w4 w5 pipeline c5 in
      let (subscribed, w6_is) =
        wait_subscribed_at-done site monitor spec.ingress_subjects w5 w6 c6 in
      let result : Opened = record {
        compose = c;
        monitor = monitor;
        network = network;
        pipeline = pipeline;
      } in
      let (opened_is, w'_is) = pure-done result opened w6 w' e6 in
      let q = port_command c (lit "nats") 8222 in
      let q' = port_command c (network_service spec) 8443 in
      let q'' = port_command c (pipeline_service spec) 8443 in
      let (upped_is, d1, d3, d4, d5) =
        waits-done q q' q'' d w w1 w2 w3 w4 w5 w6 w' w1_is w2_is w3_is w4_is w5_is w6_is w'_is in
      record {
        docker = d;
        queries = (queried q q' q'' d w).queries;
        upped = upped_is;
        project = ap (λ o. o.compose) (sym opened_is) ∙ c_is;
        torn_down = cleanups;
        monitor_found =
            IsAtPort-moves site (lit "nats") 8222 (lit "http://") d1 (ap (λ o. o.monitor) opened_is)
              (found, t, is, ap (λ a. lit "http://" ++ a) found_is);
        network_ready =
            IsReadyAt-moves site (network_service spec) d3 (ap (λ o. o.network) opened_is)
              network_ready;
        pipeline_ready =
            IsReadyAt-moves site (pipeline_service spec) d4 (ap (λ o. o.pipeline) opened_is)
              pipeline_ready;
        subscribed =
            IsSubscribedAt-moves site spec.ingress_subjects d5 (ap (λ o. o.monitor) opened_is)
              subscribed;
      }
