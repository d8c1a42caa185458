-- ===== src/Env/Runtimes.antt =====
-- internal/harness/env.go: `StartSingleNode`, which picks the runtime, and the node it returns.
pub mod Ready
pub mod Refused
pub mod Resumed
use e2e.Base.{Bool, true, false, List, Text, lit, ◌==◌, text_eq, if◌then◌else◌}
use e2e.Run.{Run, ◌>>=◌, ◌>>◌, pure, lift}
use e2e.Accounts.{Operators}
use e2e.Bootstrap.{Request}
use e2e.Keys.{KeyStores}
use e2e.Nats.{Brokers}
use e2e.Owners.{Documents}
use e2e.Env.{SingleNodeSpec, EnvFault, Services}
use e2e.Env.Containers.{Site, Contained, restart_node_at, stop_node_at}
use e2e.Env.Containers.Start.{start_single_node_compose}
use e2e.Env.Subprocesses.{Machine, Served, restart_node, stop_node}
use e2e.Env.Subprocesses.Start.{start_single_node_process}

-- The worlds of the two runtimes. A test binary uses one of them.
pub record Worlds (W B K : Type 0) : Type 0 where
  pub processes : e2e.Env.Subprocesses.World W B K
  pub containers : e2e.Env.Containers.World W K

-- A started node, with what the functions of its `SingleNodeEnv` share.
pub data Started : Type 0 where
  as_processes : Served → Started
  as_containers : Contained → Started

-- `ComposeRuntime`, for the value of the variable `E2E_RUNTIME`.
unfoldable pub compose_runtime : Text → Bool
compose_runtime runtime = runtime == lit "compose"

-- An action of one runtime.
unfoldable pub on_processes :
    {W B K A : Type 0}
    → Run EnvFault (e2e.Env.Subprocesses.World W B K) A
    → Run EnvFault (Worlds W B K) A
unfolding lift
on_processes = lift (λ e. e) (λ w. w.processes) (λ p w. record w { processes = p })

unfoldable pub on_containers :
    {W B K A : Type 0}
    → Run EnvFault (e2e.Env.Containers.World W K) A
    → Run EnvFault (Worlds W B K) A
unfolding lift
on_containers = lift (λ e. e) (λ w. w.containers) (λ c w. record w { containers = c })

module _ (machine : Machine) (site : Site) where
  -- `RestartNode` of the returned `SingleNodeEnv`, with the node that runs from then on.
  unfoldable pub restart :
      {W B K : Type 0} → SingleNodeSpec → Started → Run EnvFault (Worlds W B K) (Text × Started)
  restart spec (as_processes served) = do
    (base, again) ← on_processes (restart_node machine spec served)
    pure (base, as_processes again)
  restart spec (as_containers node) = do
    base ← on_containers (restart_node_at site spec node)
    pure (base, as_containers node)

  -- `StopNode` of the returned `SingleNodeEnv`, with the stopped node.
  unfoldable pub halt :
      {W B K : Type 0} → SingleNodeSpec → Started → Run EnvFault (Worlds W B K) Started
  halt spec (as_processes served) = do
    node ← on_processes (stop_node machine served)
    pure (as_processes (record served { node = node }))
  halt spec (as_containers node) = do
    on_containers (stop_node_at site spec node)
    pure (as_containers node)

  module _ (ops : Operators) (brokers : Brokers) (stores : KeyStores) (docs : Documents)
      (services : Services) where
    -- `StartSingleNode`
    unfoldable pub start_single_node :
        Text → SingleNodeSpec → Run EnvFault (Worlds ops.World brokers.State stores.Store) Started
    start_single_node runtime spec =
        if compose_runtime runtime
        then on_containers (start_single_node_compose site ops stores docs services spec)
          >>= (λ node. pure (as_containers node))
        else on_processes (start_single_node_process machine ops brokers stores docs services spec)
          >>= (λ served. pure (as_processes served))
