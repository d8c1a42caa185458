-- ===== src/Tests/Lifecycles.antt =====
-- A boot and a stop of a separated node, and their theorems at a concrete input.
use e2e.Base.{
  arith, ◌≡◌, ◌↔◌, refl, Bool, true, false, some, none, List, [], ◌∷◌, ◌++◌, Text, lit, Any,
  text_eq, ℕ_discrete, ◌==◌,
}
use e2e.Base.Maps.{lookup}
use e2e.Run.{done}
use e2e.Disk.{join}
use e2e.Waits.{replied, healthy}
use e2e.Processes.{
  Event, interrupted, killed, exited, SeparatedNode, SeparatedNodeSpec, Booting, System, configure,
  record_event, write_application_conf, write_config_file, run_node_process, healthy_end,
  wait_ready, start_separated_node, separated_stop,
}
use e2e.Processes.Boot.{boot_events}
use e2e.Processes.Live.{ComesUp, CanBoot, start_separated_node-boots}
use e2e.Processes.Lifecycle.{IsStopped, separated_stop-IsStopped, separated_stop_order}
use e2e.Tests.Operators.{host}

-- Both processes answer at once.
abbrev pub system : System
system = record {
  executes = λ _. true;
  has_exited = λ _ _. false;
  get = λ _ _. record { answer = replied 200 none; took = 3 };
}

abbrev pub spec : SeparatedNodeSpec
spec = record {
  name = lit "acme";
  network_bin = lit "/b/network";
  network_listen_addr = lit ":1";
  network_dir = lit "/n";
  network_config = lit "net";
  pipeline_bin = lit "/b/pipeline";
  pipeline_listen_addr = lit ":2";
  pipeline_dir = lit "/p";
  pipeline_config = lit "pipe";
}

abbrev before_boot : Booting
before_boot = record { disk = record { files = []; modes = [] }; events = [] }

abbrev pub running : SeparatedNode
running = record {
  network = record { name = lit "acme-network"; has_process = true; is_done = false };
  pipeline = record { name = lit "acme-pipeline"; has_process = true; is_done = false };
}

abbrev after_boot : Booting
after_boot = (start_separated_node host system spec before_boot).1

comes_up : (name base_url : Text) → ComesUp system name base_url
unfolding healthy ℕ_discrete
comes_up name base_url = record {
  round = 0;
  alive = λ i. refl;
  quick = λ i. omega arith;
  answers = refl;
  early = omega arith;
}

can_boot : CanBoot host system spec
can_boot = record {
  network_dir_made = refl;
  network_written = refl;
  network_starts = refl;
  network_up = comes_up (lit "acme" ++ lit "-network") (lit "http://127.0.0.1" ++ lit ":1");
  pipeline_dir_made = refl;
  pipeline_written = refl;
  pipeline_starts = refl;
  pipeline_up = comes_up (lit "acme" ++ lit "-pipeline") (lit "http://127.0.0.1" ++ lit ":2");
}

start_separated_node-boots_example :
    (after : Booting) × (start_separated_node host system spec before_boot ≡ (
      done (record {
        network = e2e.Processes.Live.running (lit "acme" ++ lit "-network");
        pipeline = e2e.Processes.Live.running (lit "acme" ++ lit "-pipeline");
      }),
      after,
    ))
    × (after.events ≡ [] ++ boot_events spec)
    × (lookup (join (join (lit "/n") (lit "config")) (lit "application.conf")) after.disk.files
        ≡ some (lit "net"))
    × (lookup (join (lit "/p") (lit "pipeline.conf")) after.disk.files ≡ some (lit "pipe"))
start_separated_node-boots_example =
    start_separated_node-boots host system spec can_boot before_boot

-- Only the network's process heeds an interrupt.
abbrev heeds : Text → Bool
heeds name = name == lit "acme-network"

separated_stop-IsStopped_example :
    IsStopped (separated_stop heeds running).0.network
    × IsStopped (separated_stop heeds running).0.pipeline
    × (separated_stop heeds (separated_stop heeds running).0
        ≡ ((separated_stop heeds running).0, []))
separated_stop-IsStopped_example = separated_stop-IsStopped heeds running

separated_stop_order_example :
    (first : List Event) × (second : List Event) × ((separated_stop heeds running).1
      ≡ (first ++ (exited (lit "acme-pipeline") ∷ []))
        ++ (interrupted (lit "acme-network") ∷ second))
    × (Any (λ e. e ≡ killed (lit "acme-pipeline")) first ↔ (heeds (lit "acme-pipeline") ≡ false))
separated_stop_order_example = separated_stop_order heeds running (refl, refl) (refl, refl)
