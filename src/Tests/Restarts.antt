-- ===== src/Tests/Restarts.antt =====
-- Restarts and a stop of a single node, and their theorems at a concrete input.
use e2e.Base.{
  ◌≡◌, refl, ◌++◌, [], Text, lit, All, text_eq, text_dec, ℕ_discrete, trim_space, trim_left,
  is_space, cut_prefix, has_prefix,
}
use e2e.Base.Maps.{lookup, insert}
use e2e.Base.Strings.{contains_text}
use e2e.Run.{done, lift, ◌>>=◌}
use e2e.Disk.{join, mkdir_all, write_file, create_mode}
use e2e.Docker.{run_command, on_service, restart_service, stop_service}
use e2e.Poll.{poll, wait}
use e2e.Processes.{
  configure, record_event, write_application_conf, write_config_file, run_node_process, healthy_end,
  wait_ready, start_separated_node, separated_stop, stop,
}
use e2e.Processes.Boot.{boot_events}
use e2e.Waits.{
  healthy, has_subject, subscribed, wait_healthy, wait_for_subscriber, body_names, quoted,
  published, dialable, replace_host, port, wait_http_healthy, wait_for_subscriber_http,
}
use e2e.Env.{found_or}
use e2e.Env.Subprocesses.Calls.{IsSubscribed}
use e2e.Env.Containers.Calls.{IsReadyAt, IsSubscribedAt}
use e2e.Env.Containers.{
  Contained, network_service, pipeline_service, port_of, unfound_logs, wait_healthy_at, ready_base,
  wait_subscribed_at, on_docker, restart_at, restart_node_at, stop_node_at,
}
use e2e.Env.Restarts.{on, add, restart_node-done, restart_node_at-done, stop_node_at-done}
use e2e.Env.Subprocesses.{
  Served, loopback, wait_subscribed, get_booting, set_booting, start_both, stop_node, restart_node,
}
use e2e.Tests.Subprocesses.{spec, machine, value_or}
use e2e.Tests.Containers.{site}

abbrev pub served : Served
served = record {
  env = record {
    node_base = lit "http://127.0.0.1:1";
    pipeline_base = lit "http://127.0.0.1:2";
    nats_url = [];
    acct_seed = [];
  };
  boot_spec = e2e.Tests.Lifecycles.spec;
  node = e2e.Tests.Lifecycles.running;
}

abbrev world : e2e.Tests.Subprocesses.World0
world = e2e.Tests.Subprocesses.before

abbrev restarted : Text × Served
restarted = value_or ([], served) (restart_node machine spec served world).0

abbrev after : e2e.Tests.Subprocesses.World0
after = (restart_node machine spec served world).1

restarts : restart_node machine spec served world ≡ (done (restarted.0, restarted.1), after)
unfolding restart_node stop_node separated_stop stop start_both lift get_booting set_booting
    start_separated_node configure write_application_conf write_config_file run_node_process
    record_event wait_ready healthy_end wait_healthy wait poll healthy wait_subscribed found_or
    wait_for_subscriber subscribed has_subject mkdir_all write_file create_mode lookup insert join
    lit ◌>>=◌ text_eq text_dec ℕ_discrete
restarts = refl

restart_node-done_example :
    (restarted.0 ≡ loopback served.boot_spec.network_listen_addr)
    × (restarted.1.boot_spec ≡ served.boot_spec)
    × (after.events
        ≡ (world.events ++ (separated_stop machine.heeds served.node).1)
          ++ boot_events served.boot_spec)
    × (after.keys ≡ world.keys)
    × (after.sent ≡ world.sent)
    × (after.nats.broker ≡ world.nats.broker)
    × All (IsSubscribed machine after.events) spec.ingress_subjects
restart_node-done_example =
    restart_node-done machine spec served restarted.1 restarted.0 world after restarts

abbrev node : Contained
node = record {
  env = record {
    node_base = lit "http://127.0.0.1:7";
    pipeline_base = lit "http://127.0.0.1:8";
    nats_url = [];
    acct_seed = [];
  };
  compose = record { project = lit "e2e-s"; file = lit "/s/docker-compose.yml"; dir = lit "/s" };
  monitor = lit "http://127.0.0.1:9";
}

abbrev cluster : e2e.Tests.Containers.World0
cluster = e2e.Tests.Containers.before

abbrev base : Text
base = value_or [] (restart_node_at site spec node cluster).0

abbrev restarted_at : e2e.Tests.Containers.World0
restarted_at = (restart_node_at site spec node cluster).1

restarts_at : restart_node_at site spec node cluster ≡ (done base, restarted_at)
unfolding restart_node_at restart_at restart_service on_service run_command on_docker lift
    ready_base port_of unfound_logs port published dialable replace_host cut_prefix trim_space
    trim_left is_space wait poll found_or wait_healthy_at wait_http_healthy healthy
    wait_subscribed_at wait_for_subscriber_http body_names quoted contains_text has_prefix lit ◌>>=◌
    text_eq text_dec ℕ_discrete
restarts_at = refl

restart_node_at-done_example :
    (restarted_at
      ≡ e2e.Env.Restarts.restarted site node.compose
          (lit "acme" ++ lit "-pipeline")
          (e2e.Env.Restarts.restarted site node.compose (lit "acme" ++ lit "-network") cluster))
    × IsReadyAt site
        (e2e.Env.Restarts.restarted site node.compose (lit "acme" ++ lit "-network") cluster).docker
        (lit "acme" ++ lit "-network")
        base
    × ((url : Text) × IsReadyAt site restarted_at.docker (lit "acme" ++ lit "-pipeline") url)
    × All (IsSubscribedAt site restarted_at.docker node.monitor) spec.ingress_subjects
restart_node_at-done_example =
    restart_node_at-done site spec node base cluster restarted_at restarts_at

abbrev stopped_at : e2e.Tests.Containers.World0
stopped_at = (stop_node_at site spec node cluster).1

stops_at : stop_node_at site spec node cluster ≡ (done tt, stopped_at)
unfolding stop_node_at stop_service on_service run_command on_docker lift ◌>>=◌
stops_at = refl

stop_node_at-done_example :
    stopped_at
    ≡ add site
        (on node.compose (lit "stop") (network_service spec))
        (add site (on node.compose (lit "stop") (pipeline_service spec)) cluster)
stop_node_at-done_example = stop_node_at-done site spec node cluster stopped_at stops_at
