-- ===== src/Tests/Resumed.antt =====
-- A stop and a restart of a node of the process runtime.
use e2e.Base.{◌≡◌, refl, ◌++◌, [], Text, lit, All, text_eq, text_dec, ℕ_discrete}
use e2e.Base.Maps.{lookup, insert}
use e2e.Run.{Outcome, done, lift, ◌>>=◌}
use e2e.Disk.{join, mkdir_all, write_file, create_mode}
use e2e.Poll.{poll, wait}
use e2e.Processes.{
  configure, record_event, write_application_conf, write_config_file, run_node_process, healthy_end,
  wait_ready, start_separated_node, separated_stop, stop,
}
use e2e.Processes.Boot.{boot_events}
use e2e.Waits.{healthy, has_subject, subscribed, wait_healthy, wait_for_subscriber}
use e2e.Env.{EnvFault, found_or}
use e2e.Env.Subprocesses.Calls.{IsSubscribed}
use e2e.Env.Subprocesses.{
  Served, loopback, wait_subscribed, get_booting, set_booting, start_both, stop_node, restart_node,
}
use e2e.Env.Runtimes.{Worlds, Started, as_processes, on_processes, restart, halt}
use e2e.Env.Runtimes.Resumed.{resume_halted}
use e2e.Tests.Operators.{operators, broker}
use e2e.Tests.Keyrings.{stores}
use e2e.Tests.Subprocesses.{spec, machine, value_or}
use e2e.Tests.Containers.{site}
use e2e.Tests.Restarts.{served}

abbrev Worlds0 : Type 0
Worlds0 = Worlds operators.World broker.State stores.Store

abbrev w : Worlds0
w = record { processes = e2e.Tests.Subprocesses.before; containers = e2e.Tests.Containers.before }

abbrev halting : Outcome EnvFault Started × Worlds0
halting = halt machine site spec (as_processes served) w

abbrev halted : Started
halted = value_or (as_processes served) halting.0

halts : halt machine site spec (as_processes served) w ≡ (done halted, halting.1)
unfolding halt on_processes lift stop_node ◌>>=◌
halts = refl

abbrev resuming : Outcome EnvFault (Text × Started) × Worlds0
resuming = restart machine site spec halted halting.1

abbrev resumed : Text × Started
resumed = value_or ([], halted) resuming.0

resumes : restart machine site spec halted halting.1 ≡ (done (resumed.0, resumed.1), resuming.1)
unfolding halt restart on_processes restart_node stop_node separated_stop stop start_both lift
    get_booting set_booting start_separated_node configure write_application_conf write_config_file
    run_node_process record_event wait_ready healthy_end wait_healthy wait poll healthy
    wait_subscribed found_or wait_for_subscriber subscribed has_subject mkdir_all write_file
    create_mode lookup insert join lit ◌>>=◌ text_eq text_dec ℕ_discrete
resumes = refl

resume_halted_example :
    ((again : Served) × (resumed.1 ≡ as_processes again) × (again.boot_spec ≡ served.boot_spec))
    × (resumed.0 ≡ loopback served.boot_spec.network_listen_addr)
    × (resuming.1.processes.events
        ≡ (w.processes.events ++ (separated_stop machine.heeds served.node).1)
          ++ boot_events served.boot_spec)
    × ((resuming.1.processes.keys ≡ w.processes.keys)
        × (resuming.1.processes.sent ≡ w.processes.sent))
    × (resuming.1.containers ≡ w.containers)
    × All (IsSubscribed machine resuming.1.processes.events) spec.ingress_subjects
resume_halted_example =
    resume_halted machine site spec served w halting.1 resuming.1 resumed.0 halted resumed.1 halts
      resumes
