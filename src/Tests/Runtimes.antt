-- ===== src/Tests/Runtimes.antt =====
-- Starts by `StartSingleNode` in both runtimes.
use e2e.Base.{◌≡◌, ◌≢◌, refl, arith, ◌⊎◌, lit, []}
use e2e.Run.{done}
use e2e.Keys.Unlisted.{IsUnlisted}
use e2e.Env.{SingleNodeSpec}
use e2e.Env.Runtimes.{Worlds, Started, start_single_node}
use e2e.Env.Runtimes.Ready.{IsReady, start_single_node-registers_last}
use e2e.Env.Runtimes.Refused.{all_acts, start_single_node-refuses}
use e2e.Tests.Operators.{operators, broker}
use e2e.Tests.Keyrings.{stores}
use e2e.Tests.Documents.{docs}
use e2e.Tests.Subprocesses.{spec, services, machine}
use e2e.Tests.Containers.{site}

abbrev Worlds0 : Type 0
Worlds0 = Worlds operators.World broker.State stores.Store

abbrev before : Worlds0
before = record {
  processes = e2e.Tests.Subprocesses.before;
  containers = e2e.Tests.Containers.before;
}

abbrev stranger : SingleNodeSpec
stranger = record spec { node_did = lit "x" }

stranger-IsUnlisted : IsUnlisted stranger.node_did stranger.pipeline_dids stranger.process_dids
unfolding lit
stranger-IsUnlisted h = ground (arith, h)

start_single_node-refuses_example :
    ((started : Started)
      → (start_single_node machine site operators broker stores docs services
          (lit "compose")
          stranger
          before).0
        ≢ done started)
    × (all_acts
          (start_single_node machine site operators broker stores docs services
            (lit "compose")
            stranger
            before).1
        ≡ all_acts before)
start_single_node-refuses_example =
    start_single_node-refuses machine site operators broker stores docs services (lit "compose")
      stranger stranger-IsUnlisted before

abbrev after : Worlds0
after = (start_single_node machine site operators broker stores docs services [] spec before).1

start_single_node-registers_last_example :
    ((after.processes.sent ≡ before.processes.sent)
      × (after.containers.sent ≡ before.containers.sent))
    ⊎ IsReady machine site [] spec before after
start_single_node-registers_last_example =
    start_single_node-registers_last machine site operators broker stores docs services [] spec
      before after refl
