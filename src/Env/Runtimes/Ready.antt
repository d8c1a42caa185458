-- ===== src/Env/Runtimes/Ready.antt =====
-- internal/harness/env.go: what a start by `StartSingleNode` has done, whichever the runtime.
use e2e.Base.{◌≡◌, refl, ap, sym, ◌∙◌, ◌⊎◌, inl, inr, Bool-cases, true, false, Text}
use e2e.Run.{Outcome, done, fatal, Run, resume, relabel, ◌>>=◌, pure, lift}
use e2e.Accounts.{Operators}
use e2e.Keys.{KeyStores}
use e2e.Nats.{Brokers}
use e2e.Owners.{Documents}
use e2e.Env.{SingleNodeSpec, EnvFault, Services}
use e2e.Env.Containers.{Site, Contained, data_dir_of}
use e2e.Env.Containers.Order.{IsOpened, start_single_node_compose-registers_last}
use e2e.Env.Containers.Start.{start_single_node_compose}
use e2e.Env.Subprocesses.{Machine, Served, pipeline_dir}
use e2e.Env.Subprocesses.Order.{IsBooted, start_single_node_process-registers_last}
use e2e.Env.Subprocesses.Start.{start_single_node_process}
use e2e.Env.Runtimes.{
  Worlds, Started, as_processes, as_containers, compose_runtime, on_processes, on_containers,
  start_single_node,
}

-- An action followed by a change of its result leaves the world of the action.
resume-pure :
    {E S A B : Type 0} (f : A → B) (r : Outcome E A) (s : S)
    → (resume (relabel (λ e. e) r) (λ a. pure {E = E} (f a)) s).1 ≡ s
resume-pure f (done a) s = refl
resume-pure f (fatal e) s = refl

module _ {W B K A : Type 0} (f : A → Started) where
  on_processes-world :
      (m : Run EnvFault (e2e.Env.Subprocesses.World W B K) A) (w : Worlds W B K)
      → ((on_processes m >>= (λ a. pure (f a))) w).1 ≡ record w { processes = (m w.processes).1 }
  unfolding on_processes lift ◌>>=◌
  on_processes-world m w =
      resume-pure f (m w.processes).0 (record w { processes = (m w.processes).1 })

  on_containers-world :
      (m : Run EnvFault (e2e.Env.Containers.World W K) A) (w : Worlds W B K)
      → ((on_containers m >>= (λ a. pure (f a))) w).1 ≡ record w { containers = (m w.containers).1 }
  unfolding on_containers lift ◌>>=◌
  on_containers-world m w =
      resume-pure f (m w.containers).0 (record w { containers = (m w.containers).1 })

-- The selected runtime's node is up, and the other runtime's world is as it was.
abbrev pub IsReady :
    {W B K : Type 0} → Machine → Site → Text → SingleNodeSpec → Worlds W B K → Worlds W B K → Type 0
IsReady machine site runtime spec w w' =
    ((compose_runtime runtime ≡ true)
      × IsOpened site spec w.containers.docker.cleanups w'.containers.docker
      × (w'.processes ≡ w.processes))
    ⊎ ((compose_runtime runtime ≡ false)
        × IsBooted machine spec w.processes.events w'.processes
        × (w'.containers ≡ w.containers))

module _ (machine : Machine) (site : Site) (ops : Operators) (brokers : Brokers)
    (stores : KeyStores) (docs : Documents) (services : Services) where
  -- Whether `StartSingleNode` returns or ends the test, the registry was sent nothing, or the node of
  -- the selected runtime was up: as processes, both had been booted, the network's before the
  -- pipeline's; as containers, the project's teardown was registered and each service had answered
  -- /readyz at its own published port; and every ingress subject was seen subscribed after that.
  pub start_single_node-registers_last :
      (runtime : Text) (spec : SingleNodeSpec) (w w' : Worlds ops.World brokers.State stores.Store)
      → (start_single_node machine site ops brokers stores docs services runtime spec w).1 ≡ w'
      → ((w'.processes.sent ≡ w.processes.sent) × (w'.containers.sent ≡ w.containers.sent))
        ⊎ IsReady machine site runtime spec w w'
  unfolding start_single_node
  start_single_node-registers_last runtime spec w w' e =
      elim (Bool-cases (compose_runtime runtime)) [
        | inl on ↦
            let m = start_single_node_compose site ops stores docs services spec in
            let w'_is : w' ≡ record w { containers = (m w.containers).1 } =
              sym e ∙ rw on (on_containers-world as_containers m w) in
            elim (start_single_node_compose-registers_last site ops stores docs services spec
              w.containers) [
                | inl kept ↦
                    inl (ap (λ x. x.processes.sent) w'_is, ap (λ x. x.containers.sent) w'_is ∙ kept)
                | inr up ↦ inr (inl (on, rw w'_is up, ap (λ x. x.processes) w'_is))
              ]
        | inr off ↦
            let m = start_single_node_process machine ops brokers stores docs services spec in
            let w'_is : w' ≡ record w { processes = (m w.processes).1 } =
              sym e ∙ rw off (on_processes-world as_processes m w) in
            elim (start_single_node_process-registers_last machine ops brokers stores docs services
              spec w.processes) [
                | inl kept ↦
                    inl (ap (λ x. x.processes.sent) w'_is ∙ kept, ap (λ x. x.containers.sent) w'_is)
                | inr up ↦ inr (inr (off, rw w'_is up, ap (λ x. x.containers) w'_is))
              ]
      ]
