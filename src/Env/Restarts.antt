-- ===== src/Env/Restarts.antt =====
-- internal/harness/env.go: what `RestartNode` and `StopNode` do in both runtimes.
use e2e.Base.{
  ◌≡◌, refl, arith, ap, ap₂, sym, ◌∙◌, Bool, true, false, Bool-cases, inl, inr, List, [], ◌∷◌, ◌++◌,
  append_assoc, Text, lit, All, if_false, if◌then◌else◌,
}
use e2e.Run.{done}
use e2e.Run.Inversion.{bind-done, lift-done, pure-done, guard-done}
use e2e.Docker.{
  port_command, Compose, Command, Answer, Docker, service_failed, compose_command, run_command,
  on_service, restart_service, stop_service,
}
use e2e.Processes.{separated_stop}
use e2e.Processes.Boot.{boot_events}
use e2e.Env.{SingleNodeSpec, EnvFault, docker_fault}
use e2e.Env.Subprocesses.Calls.{
  IsSubscribed, IsSubscribed-moves, wait_subscribed-done, start_both-done,
}
use e2e.Env.Containers.Calls.{
  asked, IsReadyAt, IsSubscribedAt, IsReadyAt-moves, IsSubscribedAt-moves, ready_base-done,
  wait_subscribed_at-done,
}
use e2e.Env.Subprocesses.{
  Machine, Served, loopback, wait_subscribed, set_booting, start_both, stop_node, restart_node,
}
use e2e.Env.Containers.{
  Site, Contained, network_service, pipeline_service, ready_base, wait_subscribed_at, on_docker,
  restart_at, restart_node_at, stop_node_at,
}

-- `RestartNode` of the process runtime, when it returns: the node has been stopped as
-- `SeparatedNode.Stop` stops it and then booted from the same spec as before, so that its base URL is
-- the same; the key stores, the registrations and the broker are as they were; and every ingress
-- subject has been seen subscribed after the boot, when all these events had happened.
pub restart_node-done :
    (machine : Machine) {W B K : Type 0} (spec : SingleNodeSpec) (served served' : Served)
    (base : Text) (w w' : e2e.Env.Subprocesses.World W B K)
    → restart_node machine spec served w ≡ (done (base, served'), w')
    → (base ≡ loopback served.boot_spec.network_listen_addr)
      × (served'.boot_spec ≡ served.boot_spec)
      × (w'.events
          ≡ (w.events ++ (separated_stop machine.heeds served.node).1)
            ++ boot_events served.boot_spec)
      × (w'.keys ≡ w.keys)
      × (w'.sent ≡ w.sent)
      × (w'.nats.broker ≡ w.nats.broker)
      × All (IsSubscribed machine w'.events) spec.ingress_subjects
unfolding restart_node stop_node set_booting
restart_node-done machine spec served served' base w w' e =
    let (stopped, w1, c1, e1) = bind-done (stop_node machine served) _ w (base, served') w' e in
    let (node, w2, c2, e2) =
      bind-done (start_both machine served.boot_spec) _ w1 (base, served') w' e1 in
    let (_, w3, c3, e3) =
      bind-done (wait_subscribed machine spec.ingress_subjects) _ w2 (base, served') w' e2 in
    let w1_is = ap (λ r. r.1) (sym c1) in
    let (b, w2_is, events_are, _, _) = start_both-done machine served.boot_spec w1 w2 node c2 in
    let (subscribed, w3_is) = wait_subscribed-done machine spec.ingress_subjects w2 w3 c3 in
    let result : Text × Served =
      (loopback served.boot_spec.network_listen_addr, record served { node = node }) in
    let (pair, w'_is) = pure-done result (base, served') w3 w' e3 in
    let to_w1 : w' ≡ set_booting machine b w1 = w'_is ∙ (w3_is ∙ w2_is) in
    (
      ap (λ x. x.0) (sym pair),
      ap (λ x. x.1.boot_spec) (sym pair),
      ap (λ x. x.events) to_w1
          ∙ (events_are ∙ ap (λ l. l ++ boot_events served.boot_spec) (ap (λ x. x.events) w1_is)),
      ap (λ x. x.keys) to_w1 ∙ ap (λ x. x.keys) w1_is,
      ap (λ x. x.sent) to_w1 ∙ ap (λ x. x.sent) w1_is,
      ap (λ x. x.nats.broker) to_w1 ∙ ap (λ x. x.nats.broker) w1_is,
      IsSubscribed-moves machine spec.ingress_subjects
          (sym (ap (λ x. x.events) w'_is ∙ ap (λ x. x.events) w3_is)) subscribed,
    )

-- A compose command on one service.
abbrev pub on : Compose → Text → Text → Command
on c verb service = compose_command c (verb ∷ service ∷ []) []

module _ (answer : e2e.Base.ℕ → Answer) where
  on_service-done :
      (verb : Text) (c : Compose) (service : Text) (d d' : Docker)
      → on_service answer verb c service d ≡ (done tt, d')
      → d' ≡ record d { commands = d.commands ++ (on c verb service ∷ []) }
  unfolding on_service run_command
  on_service-done verb c service d d' e =
      let (a, t, c1, e1) = bind-done (run_command answer (on c verb service)) _ d tt d' e in
      let ended =
        guard-done a.ok (done tt, t) (service_failed verb service a.error a.output) t tt d' e1 in
      ap (λ r. r.1) (sym ended) ∙ ap (λ r. r.1) (sym c1)

module _ (site : Site) {W K : Type 0} where
  abbrev pub add : Command → e2e.Env.Containers.World W K → e2e.Env.Containers.World W K
  add cmd w = record w { docker = record w.docker { commands = w.docker.commands ++ (cmd ∷ []) } }

  -- The commands of a step on a service, seen in the world.
  on_docker-done :
      (verb : Text) (c : Compose) (service : Text) (w w' : e2e.Env.Containers.World W K)
      → on_docker site (on_service site.answer verb c service) w ≡ (done tt, w')
      → w' ≡ add (on c verb service) w
  unfolding on_docker
  on_docker-done verb c service w w' e =
      let put : Docker → e2e.Env.Containers.World W K = λ d. record w { docker = d } in
      let (d, ran, w'_is) =
        lift-done docker_fault (λ w. w.docker) (λ d w. record w { docker = d })
          (on_service site.answer verb c service) w tt w' e in
      w'_is ∙ ap put (on_service-done site.answer verb c service w.docker d ran)

  restart_at-done :
      (c : Compose) (service base : Text) (w w' : e2e.Env.Containers.World W K)
      → restart_at site c service w ≡ (done base, w')
      → (w' ≡ asked (port_command c service 8443) (add (on c (lit "restart") service) w))
        × IsReadyAt site w'.docker service base
  unfolding restart_at restart_service
  restart_at-done c service base w w' e =
      let (_, w1, c1, e1) =
        bind-done (on_docker site (on_service site.answer (lit "restart") c service)) _ w base w'
          e in
      let (ready, w'_is) = ready_base-done site c service w1 w' base e1 in
      (
        w'_is
            ∙ ap (asked (port_command c service 8443))
                (on_docker-done (lit "restart") c service w w1 c1),
        IsReadyAt-moves site service (ap (λ x. x.docker) (sym w'_is)) refl ready,
      )

  -- The restart of one service, with the query for its port.
  abbrev pub restarted :
      Compose → Text → e2e.Env.Containers.World W K → e2e.Env.Containers.World W K
  restarted c service w = asked (port_command c service 8443) (add (on c (lit "restart") service) w)

  -- `RestartNode` of the compose runtime, when it returns: it has restarted the network's service, asked
  -- for its port, restarted the pipeline's service and asked for its port, run no other compose command,
  -- and changed nothing else of the world. The returned URL is that of the network's own port after its
  -- restart and has answered /readyz there, the pipeline's service has then answered at its own port
  -- after its restart, and at the end every ingress subject was seen subscribed.
  pub restart_node_at-done :
      (spec : SingleNodeSpec) (node : Contained) (base : Text) (w w' : e2e.Env.Containers.World W K)
      → restart_node_at site spec node w ≡ (done base, w')
      → (w'
          ≡ restarted node.compose
              (spec.account ++ lit "-pipeline")
              (restarted node.compose (spec.account ++ lit "-network") w))
        × IsReadyAt site
            (restarted node.compose (spec.account ++ lit "-network") w).docker
            (spec.account ++ lit "-network")
            base
        × ((url : Text) × IsReadyAt site w'.docker (spec.account ++ lit "-pipeline") url)
        × All (IsSubscribedAt site w'.docker node.monitor) spec.ingress_subjects
  unfolding restart_node_at network_service pipeline_service
  restart_node_at-done spec node base w w' e =
      let c = node.compose in
      let net = spec.account ++ lit "-network" in
      let pipe = spec.account ++ lit "-pipeline" in
      let (url, w1, c1, e1) = bind-done (restart_at site c net) _ w base w' e in
      let (there, w2, c2, e2) = bind-done (restart_at site c pipe) _ w1 base w' e1 in
      let (_, w3, c3, e3) =
        bind-done (wait_subscribed_at site node.monitor spec.ingress_subjects) _ w2 base w' e2 in
      let (w1_is, ready) = restart_at-done c net url w w1 c1 in
      let (w2_is, ready_there) = restart_at-done c pipe there w1 w2 c2 in
      let (subscribed, w3_is) =
        wait_subscribed_at-done site node.monitor spec.ingress_subjects w2 w3 c3 in
      let (url_is, w'_is) = pure-done url base w3 w' e3 in
      let docker_is : w2.docker ≡ w'.docker = ap (λ x. x.docker) (sym (w'_is ∙ w3_is)) in
      (
        w'_is ∙ (w3_is ∙ (w2_is ∙ ap (restarted c pipe) w1_is)),
        IsReadyAt-moves site net (ap (λ x. x.docker) w1_is) url_is ready,
        (there, IsReadyAt-moves site pipe docker_is refl ready_there),
        IsSubscribedAt-moves site spec.ingress_subjects docker_is refl subscribed,
      )

  -- `StopNode` of the compose runtime, when it returns: it has stopped the pipeline's service and then
  -- the network's, and nothing else of the world has changed.
  pub stop_node_at-done :
      (spec : SingleNodeSpec) (node : Contained) (w w' : e2e.Env.Containers.World W K)
      → stop_node_at site spec node w ≡ (done tt, w')
      → w'
        ≡ add
            (on node.compose (lit "stop") (network_service spec))
            (add (on node.compose (lit "stop") (pipeline_service spec)) w)
  unfolding stop_node_at stop_service
  stop_node_at-done spec node w w' e =
      let (_, w1, c1, e1) =
        bind-done
          (on_docker site
            (on_service site.answer (lit "stop") node.compose (pipeline_service spec)))
          _ w tt w' e in
      on_docker-done (lit "stop") node.compose (network_service spec) w1 w' e1
      ∙ ap (add (on node.compose (lit "stop") (network_service spec)))
          (on_docker-done (lit "stop") node.compose (pipeline_service spec) w w1 c1)
