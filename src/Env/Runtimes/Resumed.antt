-- ===== src/Env/Runtimes/Resumed.antt =====
-- internal/harness/env.go: `StopNode`, and `RestartNode` after it.
use e2e.Base.{◌≡◌, ap, ap₂, sym, ◌∙◌, ◌++◌, append-nil, Text, All}
use e2e.Run.{done}
use e2e.Run.Inversion.{bind-done, lift-done, pure-done}
use e2e.Processes.{SeparatedNode, separated_stop}
use e2e.Processes.Lifecycle.{separated_stop-IsStopped}
use e2e.Processes.Boot.{boot_events}
use e2e.Env.{SingleNodeSpec}
use e2e.Env.Restarts.{restart_node-done}
use e2e.Env.Subprocesses.{Machine, Served, loopback, stop_node, restart_node}
use e2e.Env.Subprocesses.Calls.{IsSubscribed}
use e2e.Env.Containers.{Site}
use e2e.Env.Runtimes.{Worlds, Started, as_processes, on_processes, restart, halt}

module _ (machine : Machine) (site : Site) {W B K : Type 0} where
  halt-processes :
      (spec : SingleNodeSpec) (served : Served) (w w' : Worlds W B K) (s : Started)
      → halt machine site spec (as_processes served) w ≡ (done s, w')
      → (s ≡ as_processes (record served { node = (separated_stop machine.heeds served.node).0 }))
        × (w'.processes ≡ record w.processes {
          events = w.processes.events ++ (separated_stop machine.heeds served.node).1;
        })
        × (w'.containers ≡ w.containers)
  unfolding halt on_processes stop_node
  halt-processes spec served w w' s e =
      let (node, t, c1, e1) = bind-done (on_processes (stop_node machine served)) _ w s w' e in
      let (p, stopped, t_is) =
        lift-done (λ e. e) (λ w. w.processes) (λ p w. record w { processes = p })
          (stop_node machine served) w node t c1 in
      let (halted, same) = pure-done _ s t w' e1 in
      let ended = pure-done (separated_stop machine.heeds served.node).0 node _ p stopped in
      let now = same ∙ t_is in
      let with_node : SeparatedNode → Started = λ n. as_processes (record served { node = n }) in
      (
        sym halted ∙ ap with_node (sym ended.0),
        ap (λ x. x.processes) now ∙ ended.1,
        ap (λ x. x.containers) now,
      )

  restart-processes :
      (spec : SingleNodeSpec) (served : Served) (w w' : Worlds W B K) (base : Text) (s : Started)
      → restart machine site spec (as_processes served) w ≡ (done (base, s), w')
      → (served' : Served) × (s ≡ as_processes served')
        × (restart_node machine spec served w.processes ≡ (done (base, served'), w'.processes))
        × (w'.containers ≡ w.containers)
  unfolding restart on_processes
  restart-processes spec served w w' base s e =
      let ((url, again), t, c1, e1) =
        bind-done (on_processes (restart_node machine spec served)) _ w (base, s) w' e in
      let (p, restarted, t_is) =
        lift-done (λ e. e) (λ w. w.processes) (λ p w. record w { processes = p })
          (restart_node machine spec served) w (url, again) t c1 in
      let (pair, same) = pure-done (url, as_processes again) (base, s) t w' e1 in
      let now = same ∙ t_is in
      (
        again,
        ap (λ x. x.1) (sym pair),
        restarted
            ∙ ap₂ (λ u q. (done (u, again), q)) (ap (λ x. x.0) pair)
                (sym (ap (λ x. x.processes) now)),
        ap (λ x. x.containers) now,
      )

  -- `StopNode` and then `RestartNode` of the process runtime, when both return: the node was stopped
  -- once, by `StopNode`, and then booted from the same spec at the same base URL, and after that every
  -- ingress subject was seen subscribed; the key stores, the registrations and the other runtime are as before.
  pub resume_halted :
      (spec : SingleNodeSpec) (served : Served) (w w1 w2 : Worlds W B K) (base : Text)
      (s1 s2 : Started)
      → halt machine site spec (as_processes served) w ≡ (done s1, w1)
      → restart machine site spec s1 w1 ≡ (done (base, s2), w2)
      → ((again : Served) × (s2 ≡ as_processes again) × (again.boot_spec ≡ served.boot_spec))
        × (base ≡ loopback served.boot_spec.network_listen_addr)
        × (w2.processes.events
            ≡ (w.processes.events ++ (separated_stop machine.heeds served.node).1)
              ++ boot_events served.boot_spec)
        × ((w2.processes.keys ≡ w.processes.keys) × (w2.processes.sent ≡ w.processes.sent))
        × (w2.containers ≡ w.containers)
        × All (IsSubscribed machine w2.processes.events) spec.ingress_subjects
  resume_halted spec served w w1 w2 base s1 s2 halted restarted =
      let stopped : Served = record served {
        node = (separated_stop machine.heeds served.node).0;
      } in
      let (s1_is, w1_is, apart1) = halt-processes spec served w w1 s1 halted in
      let (again, s2_is, ran, apart2) =
        restart-processes spec stopped w1 w2 base s2
          (ap (λ s. restart machine site spec s w1) (sym s1_is) ∙ restarted) in
      let (base_is, spec_is, events, keys, sent, _, subscribed) =
        restart_node-done machine spec stopped again base w1.processes w2.processes ran in
      let (_, _, once) = separated_stop-IsStopped machine.heeds served.node in
      (
        (again, s2_is, spec_is),
        base_is,
        events
            ∙ ap (λ l. l ++ boot_events served.boot_spec)
                (ap₂ ◌++◌ (ap (λ x. x.events) w1_is) (ap (λ x. x.1) once) ∙ append-nil _),
        (keys ∙ ap (λ x. x.keys) w1_is, sent ∙ ap (λ x. x.sent) w1_is),
        apart2 ∙ apart1,
        subscribed,
      )
