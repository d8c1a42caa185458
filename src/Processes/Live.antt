-- ===== src/Processes/Live.antt =====
-- internal/harness/separated.go: when `StartSeparatedNode` succeeds.
use e2e.Base.{
  ℕ, ◌*◌, ◌≤◌, ◌<◌, ◌≡◌, refl, ap, ◌∙◌, true, false, some, ◌++◌, List, [], ◌∷◌, Text, lit,
}
use e2e.Base.Maps.{lookup}
use e2e.Run.{done, ◌>>=◌}
use e2e.Run.Inversion.{bind-run}
use e2e.Disk.{Host, join, mkdir_all, write_file}
use e2e.Waits.{healthy}
use e2e.Waits.Patience.{wait_healthy_patient}
use e2e.Processes.{
  started, stop_registered, ready, Node, SeparatedNode, SeparatedNodeSpec, Booting, System,
  configure, record_event, write_application_conf, write_config_file, run_node_process, healthy_end,
  wait_ready, start_separated_node,
}
use e2e.Processes.Written.{application_conf, pipeline_conf}
use e2e.Processes.Boot.{boot_events, start_separated_node-done}

-- A process that stays up and answers 200 at some round, and whose requests end within the client's two
-- seconds, so early that it is within the ninety seconds of the wait.
pub record ComesUp (system : System) (name base_url : Text) : Type 0 where
  pub round : ℕ
  pub alive : (i : ℕ) → system.has_exited name i ≡ false
  pub quick : (i : ℕ) → (system.get (base_url ++ lit "/readyz") i).took ≤ 2000
  pub answers : healthy (system.get (base_url ++ lit "/readyz") round).answer ≡ some tt
  pub early : round * 2200 < 90000

-- The files of a spec can be written, both binaries start, and both processes come up.
pub record CanBoot (host : Host) (system : System) (spec : SeparatedNodeSpec) : Type 0 where
  pub network_dir_made : host.can_make (join spec.network_dir (lit "config")) ≡ true
  pub network_written :
      host.can_write (join (join spec.network_dir (lit "config")) (lit "application.conf")) ≡ true
  pub network_starts : system.executes spec.network_bin ≡ true
  pub network_up :
      ComesUp system
        (spec.name ++ lit "-network")
        (lit "http://127.0.0.1" ++ spec.network_listen_addr)
  pub pipeline_dir_made : host.can_make spec.pipeline_dir ≡ true
  pub pipeline_written : host.can_write (join spec.pipeline_dir (lit "pipeline.conf")) ≡ true
  pub pipeline_starts : system.executes spec.pipeline_bin ≡ true
  pub pipeline_up :
      ComesUp system
        (spec.name ++ lit "-pipeline")
        (lit "http://127.0.0.1" ++ spec.pipeline_listen_addr)

-- A process under a name that has been started and not stopped.
abbrev pub running : Text → Node
running name = record { name = name; has_process = true; is_done = false }

module _ (system : System) where
  run_node_process-runs :
      (name bin dir : Text) (env : List Text) (b : Booting)
      → system.executes bin ≡ true
      → (b' : Booting) × (run_node_process system name bin dir env b ≡ (done (running name), b'))
  unfolding run_node_process record_event ◌>>=◌
  run_node_process-runs name bin dir env b starts = (
    record b {
      events = (b.events ++ (started name bin dir env ∷ [])) ++ (stop_registered name ∷ []);
    },
    rw starts refl,
  )

  wait_ready-runs :
      (name base_url : Text) (b : Booting)
      → ComesUp system name base_url
      → (b' : Booting) × (wait_ready system name base_url b ≡ (done tt, b'))
  unfolding wait_ready healthy_end record_event
  wait_ready-runs name base_url b up =
      let (t, ends) =
        wait_healthy_patient (system.has_exited name) (system.get (base_url ++ lit "/readyz"))
          up.round up.alive up.quick up.answers up.early in
      (
        record b { events = b.events ++ (ready name (base_url ++ lit "/readyz") ∷ []) },
        ap (λ r. healthy_end name (base_url ++ lit "/readyz") r b) ends,
      )

module _ (host : Host) where
  write_application_conf-runs :
      (dir cfg node : Text) (b : Booting)
      → host.can_make (join dir (lit "config")) ≡ true
      → host.can_write (join (join dir (lit "config")) (lit "application.conf")) ≡ true
      → (b' : Booting) × (configure node (write_application_conf host dir cfg) b ≡ (done tt, b'))
  unfolding configure write_application_conf mkdir_all write_file ◌>>=◌
  write_application_conf-runs dir cfg node b made written =
      ((configure node (write_application_conf host dir cfg) b).1, rw (made, written) refl)

  write_config_file-runs :
      (dir cfg node : Text) (b : Booting)
      → host.can_make dir ≡ true
      → host.can_write (join dir (lit "pipeline.conf")) ≡ true
      → (b' : Booting) × (configure node (write_config_file host dir cfg) b
          ≡ (done (join dir (lit "pipeline.conf")), b'))
  unfolding configure write_config_file mkdir_all write_file ◌>>=◌
  write_config_file-runs dir cfg node b made written =
      ((configure node (write_config_file host dir cfg) b).1, rw (made, written) refl)

-- For a spec that can boot, `StartSeparatedNode` returns a node with two running processes, after it
-- has started the network's binary in its directory, registered its stop, seen it answer 200 at its
-- own /readyz, and only then done the same for the pipeline's binary, which has the path of its config
-- file in its environment and answers at its own /readyz; and the two config files have the two
-- configs.
pub start_separated_node-boots :
    (host : Host) (system : System) (spec : SeparatedNodeSpec)
    → CanBoot host system spec
    → (b : Booting)
    → (b' : Booting) × (start_separated_node host system spec b ≡ (
      done (record {
        network = running (spec.name ++ lit "-network");
        pipeline = running (spec.name ++ lit "-pipeline");
      }),
      b',
    ))
      × (b'.events ≡ b.events ++ boot_events spec)
      × (lookup (application_conf spec.network_dir) b'.disk.files ≡ some spec.network_config)
      × (lookup (pipeline_conf spec.pipeline_dir) b'.disk.files ≡ some spec.pipeline_config)
unfolding start_separated_node
start_separated_node-boots host system spec can b =
    let net = spec.name ++ lit "-network" in
    let pipe = spec.name ++ lit "-pipeline" in
    let path = join spec.pipeline_dir (lit "pipeline.conf") in
    let node : SeparatedNode = record { network = running net; pipeline = running pipe } in
    let (b1, c1) =
      write_application_conf-runs host spec.network_dir spec.network_config net b
        can.network_dir_made can.network_written in
    let (b2, c2) =
      run_node_process-runs system net spec.network_bin spec.network_dir [] b1 can.network_starts in
    let (b3, c3) =
      wait_ready-runs system net (lit "http://127.0.0.1" ++ spec.network_listen_addr) b2
        can.network_up in
    let (b4, c4) =
      write_config_file-runs host spec.pipeline_dir spec.pipeline_config pipe b3
        can.pipeline_dir_made can.pipeline_written in
    let (b5, c5) =
      run_node_process-runs system pipe spec.pipeline_bin spec.pipeline_dir
        ((lit "CONFIG_FILE=" ++ path) ∷ []) b4 can.pipeline_starts in
    let (b6, c6) =
      wait_ready-runs system pipe (lit "http://127.0.0.1" ++ spec.pipeline_listen_addr) b5
        can.pipeline_up in
    let returned : start_separated_node host system spec b ≡ (done node, b6) =
      bind-run _ _ b tt b1 c1
      ∙ (bind-run _ _ b1 (running net) b2 c2
          ∙ (bind-run _ _ b2 tt b3 c3
              ∙ (bind-run _ _ b3 path b4 c4
                  ∙ (bind-run _ _ b4 (running pipe) b5 c5 ∙ bind-run _ _ b5 tt b6 c6)))) in
    let (events, network_conf, pipeline_conf_is) =
      start_separated_node-done host system spec b b6 node returned in
    (b6, returned, events, network_conf, pipeline_conf_is)
