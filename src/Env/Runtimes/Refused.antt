-- ===== src/Env/Runtimes/Refused.antt =====
-- internal/harness/env.go: `StartSingleNode` on a spec whose node DID is in neither list.
use e2e.Base.{◌≡◌, ◌≢◌, ap, inl, inr, Bool-cases, List, Text}
use e2e.Run.{Run, done, lift}
use e2e.Run.Kept.{Stops, bind-stopped, relabel-fails}
use e2e.Accounts.{Operators}
use e2e.Bootstrap.{Request}
use e2e.Docker.{Docker, Command}
use e2e.Keys.{KeyStores}
use e2e.Keys.Unlisted.{IsUnlisted}
use e2e.Nats.{Brokers}
use e2e.Owners.{Documents}
use e2e.Processes.{Event}
use e2e.Env.{SingleNodeSpec, EnvFault, Services}
use e2e.Env.Containers.{Site}
use e2e.Env.Containers.Start.{start_single_node_compose}
use e2e.Env.Subprocesses.{Machine}
use e2e.Env.Subprocesses.Start.{start_single_node_process}
use e2e.Env.Unlisted.{
  acts, acts_at, start_single_node_process-Stops, start_single_node_compose-Stops,
}
use e2e.Env.Runtimes.{
  Worlds, Started, compose_runtime, on_processes, on_containers, start_single_node,
}

-- Node processes and their registered stops, compose commands and registered compose teardowns, and
-- requests to the registry, of both worlds.
abbrev pub all_acts :
    {W B K : Type 0}
    → Worlds W B K
    → (List Event × List Request) × ((Docker × List Command) × List Request)
all_acts w = (acts w.processes, acts_at w.containers)

on_processes-Stops :
    {W B K A : Type 0} (m : Run EnvFault (e2e.Env.Subprocesses.World W B K) A)
    → Stops acts m
    → Stops (all_acts {W = W} {B = B} {K = K}) (on_processes m)
unfolding on_processes lift
on_processes-Stops m h w = (
  relabel-fails (λ e. e) (m w.processes).0 (h w.processes).0,
  ap (λ x. (x, acts_at w.containers)) (h w.processes).1,
)

on_containers-Stops :
    {W B K A : Type 0} (m : Run EnvFault (e2e.Env.Containers.World W K) A)
    → Stops acts_at m
    → Stops (all_acts {W = W} {B = B} {K = K}) (on_containers m)
unfolding on_containers lift
on_containers-Stops m h w = (
  relabel-fails (λ e. e) (m w.containers).0 (h w.containers).0,
  ap (λ x. (acts w.processes, x)) (h w.containers).1,
)

module _ (machine : Machine) (site : Site) (ops : Operators) (brokers : Brokers)
    (stores : KeyStores) (docs : Documents) (services : Services) where
  -- For a spec whose node DID is neither a pipeline's nor a process's, `StartSingleNode` never
  -- returns, whichever the runtime and whatever its surroundings do; and when it has ended the test,
  -- no node process was started and no node's stop was registered, no compose command was run and no
  -- compose teardown was registered, and the registry was sent nothing. Of the shutdowns of the stub and
  -- of the broker, which the process runtime registers before, it says nothing.
  pub start_single_node-refuses :
      (runtime : Text) (spec : SingleNodeSpec)
      → IsUnlisted spec.node_did spec.pipeline_dids spec.process_dids
      → (w : Worlds ops.World brokers.State stores.Store)
      → ((started : Started)
          → (start_single_node machine site ops brokers stores docs services runtime spec w).0
            ≢ done started)
        × (all_acts
              (start_single_node machine site ops brokers stores docs services runtime spec w).1
            ≡ all_acts w)
  unfolding start_single_node
  start_single_node-refuses runtime spec no_list w = elim (Bool-cases (compose_runtime runtime)) [
    | inl e ↦ rw e (
        bind-stopped all_acts
          (on_containers (start_single_node_compose site ops stores docs services spec)) _
          (on_containers-Stops _
            (start_single_node_compose-Stops site ops stores docs services spec no_list))
          w)
    | inr e ↦ rw e (
        bind-stopped all_acts
          (on_processes (start_single_node_process machine ops brokers stores docs services spec)) _
          (on_processes-Stops _
            (start_single_node_process-Stops machine ops brokers stores docs services spec no_list))
          w)
  ]
