-- ===== src/Processes.antt =====
-- internal/harness/node.go and internal/harness/separated.go: how the two processes of a separated
-- node are started and stopped.
pub mod Lifecycle
pub mod Written
pub mod Boot
pub mod Live
use e2e.Base.{
  ℕ, Bool, true, false, not, Option, ◌||◌, none, some, List, [], ◌∷◌, ◌++◌, Text, lit,
  if◌then◌else◌,
}
use e2e.Run.{Run, done, fatal, ◌>>=◌, ◌>>◌, pure, fail, blame}
use e2e.Disk.{Disk, Host, join, mkdir_all, write_file, mode_644, mode_755}
use e2e.Poll.{Ended, got, timed_out, died}
use e2e.Waits.{Probe, Reply, wait_healthy}

-- What the harness does to a process or learns of it, by the process's name: `started` has the binary,
-- the working directory and the variables that are appended to the environment, `stop_registered` is
-- the registration of `Stop` as a cleanup, and `ready` has the URL that answered.
pub data Event : Type 0 where
  started : Text → Text → Text → List Text → Event
  stop_registered : Text → Event
  ready : Text → Text → Event
  interrupted : Text → Event
  killed : Text → Event
  exited : Text → Event

-- `Node`, as far as `Stop` reads it: whether there is a process, and whether `done` is closed.
pub record Node : Type 0 where
  pub name : Text
  pub has_process : Bool
  pub is_done : Bool

-- The two processes of a `SeparatedNode`.
pub record SeparatedNode : Type 0 where
  pub network : Node
  pub pipeline : Node

-- `Node.Stop`. `heeds` says whether the process exits within ten seconds of the interrupt.
unfoldable pub stop : (Text → Bool) → Node → Node × List Event
stop heeds n = if not n.has_process || n.is_done then (n, []) else (
  record n { is_done = true },
  if heeds n.name
      then interrupted n.name ∷ exited n.name ∷ []
      else interrupted n.name ∷ killed n.name ∷ exited n.name ∷ [],
)

-- `SeparatedNode.Stop`
unfoldable pub separated_stop : (Text → Bool) → SeparatedNode → SeparatedNode × List Event
unfolding stop
separated_stop heeds s =
    let (pipeline, first) = stop heeds s.pipeline in
    let (network, second) = stop heeds s.network in
    (record { network = network; pipeline = pipeline }, first ++ second)

-- `SeparatedNodeSpec`
pub record SeparatedNodeSpec : Type 0 where
  pub name : Text
  pub network_bin : Text
  pub network_listen_addr : Text
  pub network_dir : Text
  pub network_config : Text
  pub pipeline_bin : Text
  pub pipeline_listen_addr : Text
  pub pipeline_dir : Text
  pub pipeline_config : Text

-- The calls of `t.Fatalf`.
pub data BootFault : Type 0 where
  unconfigured : Text → BootFault
  unstarted : Text → BootFault
  unready : Text → BootFault

pub record Booting : Type 0 where
  pub disk : Disk
  pub events : List Event

-- The system that the processes run on: which binaries start, when the process of a name has exited,
-- and what a URL answers, by the round of the wait.
pub record System : Type 0 where
  pub executes : Text → Bool
  pub has_exited : Text → ℕ → Bool
  pub get : Text → ℕ → Probe Reply

-- A call on the disk, which fails with a path.
unfoldable pub configure : {A : Type 0} → Text → Run Text Disk A → Run BootFault Booting A
configure node write b =
    let (r, d) = write b.disk in (blame (λ path. unconfigured node) r, record b { disk = d })

unfoldable pub record_event : Event → Run BootFault Booting (Unit {0})
record_event event b = (done tt, record b { events = b.events ++ (event ∷ []) })

module _ (host : Host) where
  -- `writeApplicationConf`
  unfoldable pub write_application_conf : Text → Text → Run Text Disk (Unit {0})
  write_application_conf dir cfg =
      mkdir_all host (join dir (lit "config")) mode_755
      >> write_file host (join (join dir (lit "config")) (lit "application.conf")) cfg mode_644

  -- `writeConfigFile`, which returns the path.
  unfoldable pub write_config_file : Text → Text → Run Text Disk Text
  write_config_file dir cfg = do
    mkdir_all host dir mode_755
    write_file host (join dir (lit "pipeline.conf")) cfg mode_644
    pure (join dir (lit "pipeline.conf"))

-- The end of `waitHealthy`, for the process of a name and the URL that was asked.
unfoldable pub healthy_end :
    Text → Text → Option (Ended (Unit {0})) → Run BootFault Booting (Unit {0})
healthy_end name url (some (got _ _)) = record_event (ready name url)
healthy_end name url (some (timed_out _)) = fail (unready name)
healthy_end name url (some (died _)) = fail (unready name)
healthy_end name url none = fail (unready name)

module _ (system : System) where
  -- `runNodeProcess`, with the variables that are appended to the environment.
  unfoldable pub run_node_process : Text → Text → Text → List Text → Run BootFault Booting Node
  unfolding record_event
  run_node_process name bin dir extra_env b =
      if system.executes bin
      then (record_event (started name bin dir extra_env)
            >> record_event (stop_registered name)
            >> pure (record { name = name; has_process = true; is_done = false }))
          b
      else (fatal (unstarted name), b)

  unfoldable pub wait_ready : Text → Text → Run BootFault Booting (Unit {0})
  wait_ready name base_url =
      healthy_end name (base_url ++ lit "/readyz")
        (wait_healthy (system.has_exited name) (system.get (base_url ++ lit "/readyz")))

-- `StartSeparatedNode`
unfoldable pub start_separated_node :
    Host → System → SeparatedNodeSpec → Run BootFault Booting SeparatedNode
start_separated_node host system spec = do
  let network_name = spec.name ++ lit "-network"
  let pipeline_name = spec.name ++ lit "-pipeline"
  configure network_name (write_application_conf host spec.network_dir spec.network_config)
  network ← run_node_process system network_name spec.network_bin spec.network_dir []
  wait_ready system network_name (lit "http://127.0.0.1" ++ spec.network_listen_addr)
  conf_path ←
      configure pipeline_name (write_config_file host spec.pipeline_dir spec.pipeline_config)
  pipeline ←
      run_node_process system pipeline_name spec.pipeline_bin spec.pipeline_dir
        ((lit "CONFIG_FILE=" ++ conf_path) ∷ [])
  wait_ready system pipeline_name (lit "http://127.0.0.1" ++ spec.pipeline_listen_addr)
  pure (record { network = network; pipeline = pipeline })
