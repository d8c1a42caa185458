-- ===== src/Processes/Boot.antt =====
-- internal/harness/separated.go: what `StartSeparatedNode` has done when it returns.
use e2e.Base.{
  ◌≡◌, refl, ap, sym, ◌∙◌, arith, true, false, Option, none, some, List, [], ◌∷◌, ◌++◌,
  append_assoc, Text, lit,
}
use e2e.Base.Maps.{lookup}
use e2e.Run.{done, ◌>>=◌, ◌>>◌, pure}
use e2e.Run.Inversion.{bind-done, guard-done}
use e2e.Disk.{Host}
use e2e.Poll.{Ended, got, timed_out, died}
use e2e.Waits.{wait_healthy}
use e2e.Processes.{
  Event, started, stop_registered, ready, Node, SeparatedNode, SeparatedNodeSpec, unstarted,
  Booting, System, configure, record_event, write_application_conf, write_config_file,
  run_node_process, healthy_end, wait_ready, start_separated_node,
}
use e2e.Processes.Written.{
  application_conf, pipeline_conf, configure-done, write_application_conf-done,
  write_config_file-done,
}

healthy_end-done :
    (name url : Text) (end : Option (Ended (Unit {0}))) (b b' : Booting)
    → healthy_end name url end b ≡ (done tt, b')
    → b' ≡ record b { events = b.events ++ (ready name url ∷ []) }
unfolding healthy_end record_event
healthy_end-done name url (some (got _ _)) b b' e = sym (ap (λ r. r.1) e)
healthy_end-done name url (some (timed_out _)) b b' e = absurd (ground (arith, e))
healthy_end-done name url (some (died _)) b b' e = absurd (ground (arith, e))
healthy_end-done name url none b b' e = absurd (ground (arith, e))

module _ (system : System) where
  run_node_process-done :
      (name bin dir : Text) (extra_env : List Text) (b b' : Booting) (n : Node)
      → run_node_process system name bin dir extra_env b ≡ (done n, b')
      → b' ≡ record b {
        events = (b.events ++ (started name bin dir extra_env ∷ [])) ++ (stop_registered name ∷ []);
      }
  unfolding run_node_process record_event ◌>>=◌
  run_node_process-done name bin dir extra_env b b' n e = sym (
      ap (λ r. r.1)
        (guard-done (system.executes bin)
          ((record_event (started name bin dir extra_env)
              >> record_event (stop_registered name)
              >> pure (record { name = name; has_process = true; is_done = false }))
            b)
          (unstarted name) b n b' e))

  wait_ready-done :
      (name base_url : Text) (b b' : Booting)
      → wait_ready system name base_url b ≡ (done tt, b')
      → b' ≡ record b { events = b.events ++ (ready name (base_url ++ lit "/readyz") ∷ []) }
  unfolding wait_ready
  wait_ready-done name base_url b b' e =
      healthy_end-done name (base_url ++ lit "/readyz")
        (wait_healthy (system.has_exited name) (system.get (base_url ++ lit "/readyz"))) b b' e

-- The events of one process: it is started, its stop is registered, and it has answered at its URL.
abbrev pub process_events : Text → Text → Text → List Text → Text → List Event
process_events name bin dir env url =
    started name bin dir env ∷ stop_registered name ∷ ready name url ∷ []

-- What a whole boot did: the network's process had answered 200 at its own /readyz before the
-- pipeline's was started, and then the pipeline's had at its own.
abbrev pub boot_events : SeparatedNodeSpec → List Event
boot_events spec =
    started (spec.name ++ lit "-network") spec.network_bin spec.network_dir []
    ∷ stop_registered (spec.name ++ lit "-network")
    ∷ ready (spec.name ++ lit "-network")
        ((lit "http://127.0.0.1" ++ spec.network_listen_addr) ++ lit "/readyz")
    ∷ started (spec.name ++ lit "-pipeline") spec.pipeline_bin spec.pipeline_dir
        ((lit "CONFIG_FILE=" ++ pipeline_conf spec.pipeline_dir) ∷ [])
    ∷ stop_registered (spec.name ++ lit "-pipeline")
    ∷ ready (spec.name ++ lit "-pipeline")
        ((lit "http://127.0.0.1" ++ spec.pipeline_listen_addr) ++ lit "/readyz")
    ∷ []

-- The events of one process after those before.
process_events-append :
    (name bin dir url : Text) (env : List Text) (before : List Event) (b b1 b2 b3 : Booting)
    → b.events ≡ before
    → b1.events ≡ b.events
    → b2.events ≡ (b1.events ++ (started name bin dir env ∷ [])) ++ (stop_registered name ∷ [])
    → b3.events ≡ b2.events ++ (ready name url ∷ [])
    → b3.events ≡ before ++ process_events name bin dir env url
process_events-append name bin dir url env before b b1 b2 b3 h0 h1 h2 h3 =
    simp (h3, h2, h1, h0, append_assoc)

-- When `StartSeparatedNode` returns, it has started the network's process, seen it ready, started the
-- pipeline's process on its config file and seen it ready, in this order, and the two config files
-- have the two configs.
pub start_separated_node-done :
    (host : Host) (system : System) (spec : SeparatedNodeSpec) (b b' : Booting) (s : SeparatedNode)
    → start_separated_node host system spec b ≡ (done s, b')
    → (b'.events ≡ b.events ++ boot_events spec)
      × (lookup (application_conf spec.network_dir) b'.disk.files ≡ some spec.network_config)
      × (lookup (pipeline_conf spec.pipeline_dir) b'.disk.files ≡ some spec.pipeline_config)
unfolding start_separated_node
start_separated_node-done host system spec b b' s e =
    let net = spec.name ++ lit "-network" in
    let pipe = spec.name ++ lit "-pipeline" in
    let net_url = lit "http://127.0.0.1" ++ spec.network_listen_addr in
    let pipe_url = lit "http://127.0.0.1" ++ spec.pipeline_listen_addr in
    let net_write = write_application_conf host spec.network_dir spec.network_config in
    let pipe_write = write_config_file host spec.pipeline_dir spec.pipeline_config in
    let (_, b1, c1, e1) = bind-done (configure net net_write) _ b s b' e in
    let (n, b2, c2, e2) =
      bind-done (run_node_process system net spec.network_bin spec.network_dir []) _ b1 s b' e1 in
    let (_, b3, c3, e3) = bind-done (wait_ready system net net_url) _ b2 s b' e2 in
    let (path, b4, c4, e4) = bind-done (configure pipe pipe_write) _ b3 s b' e3 in
    let env = (lit "CONFIG_FILE=" ++ path) ∷ [] in
    let (p, b5, c5, e5) =
      bind-done (run_node_process system pipe spec.pipeline_bin spec.pipeline_dir env) _ b4 s b'
        e4 in
    let (_, b6, c6, e6) = bind-done (wait_ready system pipe pipe_url) _ b5 s b' e5 in
    let (d1, written1, b1_is) = configure-done net net_write b b1 tt c1 in
    let b2_is = run_node_process-done system net spec.network_bin spec.network_dir [] b1 b2 n c2 in
    let b3_is = wait_ready-done system net net_url b2 b3 c3 in
    let (d, written, b4_is) = configure-done pipe pipe_write b3 b4 path c4 in
    let (path_is, stored, kept) =
      write_config_file-done host spec.pipeline_dir spec.pipeline_config path b3.disk d written in
    let b5_is =
      run_node_process-done system pipe spec.pipeline_bin spec.pipeline_dir env b4 b5 p c5 in
    let b6_is = wait_ready-done system pipe pipe_url b5 b6 c6 in
    let b'_is : b' ≡ b6 = ap (λ r. r.1) (sym e6) in
    let first =
      process_events-append net spec.network_bin spec.network_dir (net_url ++ lit "/readyz") []
        b.events b b1 b2 b3 refl (ap (λ q. q.events) b1_is) (ap (λ q. q.events) b2_is)
        (ap (λ q. q.events) b3_is) in
    let second =
      process_events-append pipe spec.pipeline_bin spec.pipeline_dir (pipe_url ++ lit "/readyz") env
        _ b3 b4 b5 b6 first (ap (λ q. q.events) b4_is) (ap (λ q. q.events) b5_is)
        (ap (λ q. q.events) b6_is) in
    let disk : b'.disk ≡ d =
      ap (λ q. q.disk) b'_is
      ∙ (ap (λ q. q.disk) b6_is ∙ (ap (λ q. q.disk) b5_is ∙ ap (λ q. q.disk) b4_is)) in
    let disk1 : b3.disk ≡ d1 =
      ap (λ q. q.disk) b3_is ∙ (ap (λ q. q.disk) b2_is ∙ ap (λ q. q.disk) b1_is) in
    let file = application_conf spec.network_dir in
    (
      ap (λ q. q.events) b'_is
          ∙ (second
              ∙ (append_assoc b.events
                    (process_events net spec.network_bin spec.network_dir []
                      (net_url ++ lit "/readyz"))
                    (process_events pipe spec.pipeline_bin spec.pipeline_dir env
                      (pipe_url ++ lit "/readyz"))
                  ∙ ap
                      (λ f.
                        b.events
                        ++ (process_events net spec.network_bin spec.network_dir []
                              (net_url ++ lit "/readyz")
                            ++ process_events pipe spec.pipeline_bin spec.pipeline_dir
                                ((lit "CONFIG_FILE=" ++ f) ∷ []) (pipe_url ++ lit "/readyz")))
                      path_is)),
      ap (λ x. lookup file x.files) disk
          ∙ (kept spec.network_dir
              ∙ (ap (λ x. lookup file x.files) disk1
                  ∙ write_application_conf-done host spec.network_dir spec.network_config b.disk d1
                      written1)),
      ap (λ x. lookup (pipeline_conf spec.pipeline_dir) x.files) disk ∙ stored,
    )
