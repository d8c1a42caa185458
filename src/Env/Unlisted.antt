-- ===== src/Env/Unlisted.antt =====
-- internal/harness/env.go: a spec whose node DID is in neither list is refused by both runtimes.
use e2e.Base.{refl, inl, inr, Bool-cases, Option, none, some, List, [], ◌∷◌, Text, lit}
use e2e.Run.{Run, lift, or_fail}
use e2e.Run.Kept.{
  Keeps, Stops, bind-Keeps, bind-stopped, bind-Stops, lift-Keeps, lift-Stops, or_fail-Keeps,
}
use e2e.Disk.{join}
use e2e.Accounts.{Fault, Operators, account}
use e2e.Bootstrap.{Request}
use e2e.Builds.{build_binaries}
use e2e.Compose.{ComposeProvision, provision_compose, write_broker_config}
use e2e.Docker.{Docker, Command}
use e2e.Keys.{KeyStores, external_keys}
use e2e.Keys.Unlisted.{IsUnlisted, external_keys-stops}
use e2e.Nats.{Brokers, on_provision, start_nats}
use e2e.Owners.{Documents}
use e2e.Poll.{Ended, got, timed_out, died}
use e2e.Processes.{Event}
use e2e.Waits.{wait_pdp_stub}
use e2e.Env.{
  SingleNodeSpec, EnvFault, build_fault, no_stub, nats_fault, key_fault, no_dir, found_or, Services,
}
use e2e.Env.Containers.{Site, data_dir_of, remove_all}
use e2e.Env.Containers.Start.{prepare_at, start_single_node_compose}
use e2e.Env.Subprocesses.{Machine, free_port, serve_stub, prepare, pipeline_dir}
use e2e.Env.Subprocesses.Start.{connect, start_single_node_process}

pub found_or-Keeps :
    {W A T : Type 0} (get : W → T) (fault : EnvFault) (r : Option (Ended A))
    → Keeps get (found_or {W = W} fault r)
unfolding found_or
found_or-Keeps get fault (some (got a t)) w = refl
found_or-Keeps get fault (some (timed_out t)) w = refl
found_or-Keeps get fault (some (died t)) w = refl
found_or-Keeps get fault none w = refl

-- The processes of the process runtime, with the registered stops, and what the registry was sent.
abbrev pub acts : {W B K : Type 0} → e2e.Env.Subprocesses.World W B K → List Event × List Request
acts w = (w.events, w.sent)

module _ (machine : Machine) where
  pub prepare-Keeps : {W B K : Type 0} → Keeps acts (prepare machine {W = W} {B = B} {K = K})
  unfolding prepare free_port serve_stub
  prepare-Keeps =
      bind-Keeps acts
        (lift build_fault (λ w. w.builds) (λ b w. record w { builds = b })
          (build_binaries machine.tools))
        _
        (lift-Keeps acts build_fault (λ w. w.builds) (λ b w. record w { builds = b }) (λ _ _. refl)
          (build_binaries machine.tools))
        (λ bins.
          bind-Keeps acts (free_port machine) _ (λ w. refl)
            (λ a.
              bind-Keeps acts (free_port machine) _ (λ w. refl)
                (λ b.
                  bind-Keeps acts (free_port machine) _ (λ w. refl)
                    (λ c.
                      bind-Keeps acts (serve_stub machine c) _ (λ w. refl)
                        (λ _.
                          bind-Keeps acts _ _
                            (found_or-Keeps acts no_stub (wait_pdp_stub c machine.stub))
                            (λ url w. refl))))))

module _ (machine : Machine) (ops : Operators) (brokers : Brokers) (stores : KeyStores)
    (docs : Documents) (services : Services) where
  pub connect-Keeps :
      (nats_dir name : Text)
      → Keeps acts (connect machine ops brokers stores docs services nats_dir name)
  unfolding connect
  connect-Keeps nats_dir name =
      let start = start_nats ops brokers machine.host nats_dir (name ∷ []) in
      bind-Keeps acts (lift nats_fault (λ w. w.nats) (λ n w. record w { nats = n }) start) _
        (lift-Keeps acts nats_fault (λ w. w.nats) (λ n w. record w { nats = n }) (λ _ _. refl)
          start)
        (λ url.
          bind-Keeps acts
            (lift nats_fault (λ w. w.nats) (λ n w. record w { nats = n })
              (on_provision (account name)))
            _
            (lift-Keeps acts nats_fault (λ w. w.nats) (λ n w. record w { nats = n }) (λ _ _. refl)
              (on_provision (account name)))
            (λ a w. refl))

  pub start_single_node_process-Stops :
      (spec : SingleNodeSpec)
      → IsUnlisted spec.node_did spec.pipeline_dids spec.process_dids
      → Stops acts (start_single_node_process machine ops brokers stores docs services spec)
  unfolding start_single_node_process
  start_single_node_process-Stops spec no_list =
      let nats_dir = join machine.work_dir (lit "nats") in
      let data_dir = join (pipeline_dir machine.work_dir spec) (lit "data") in
      let provision =
        external_keys stores data_dir spec.node_did spec.pipeline_dids spec.process_dids in
      bind-Stops acts (prepare machine) _ (prepare-Keeps machine) (λ p.
        bind-Stops acts (connect machine ops brokers stores docs services nats_dir spec.account) _
          (connect-Keeps nats_dir spec.account)
          (λ c.
            bind-stopped acts
              (lift key_fault (λ w. w.keys) (λ s w. record w { keys = s }) provision) _
              (lift-Stops acts key_fault (λ w. w.keys) (λ s w. record w { keys = s }) (λ _ _. refl)
                provision
                (external_keys-stops stores data_dir spec.node_did spec.pipeline_dids
                  spec.process_dids no_list))))

-- The compose commands of the compose runtime, with the teardowns and the queries, and what the registry
-- was sent.
abbrev pub acts_at :
    {W K : Type 0} → e2e.Env.Containers.World W K → (Docker × List Command) × List Request
acts_at w = ((w.docker, w.queries), w.sent)

module _ (site : Site) (ops : Operators) (stores : KeyStores) (docs : Documents)
    (services : Services) where
  pub on_provision-Keeps :
      {A : Type 0} (m : Run Fault (ComposeProvision ops.World) A)
      → Keeps acts_at (e2e.Env.Containers.Start.on_provision site ops stores docs services m)
  unfolding e2e.Env.Containers.Start.on_provision
  on_provision-Keeps =
      lift-Keeps acts_at nats_fault (λ w. w.provision) (λ p w. record w { provision = p })
        (λ _ _. refl)

  pub remove_all-Keeps :
      (dir : Text)
      → Keeps acts_at (
          remove_all site {W = ops.World} {K = stores.Store} ops.remove_jwts stores.remove_below
            dir)
  unfolding remove_all
  remove_all-Keeps dir w = elim (Bool-cases (site.can_remove dir)) [
    | inl e ↦ rw e refl
    | inr e ↦ rw e refl
  ]

  prepare_at-Stops :
      (testdata : Text) (spec : SingleNodeSpec)
      → IsUnlisted spec.node_did spec.pipeline_dids spec.process_dids
      → Stops acts_at (prepare_at site ops stores docs services testdata spec)
  unfolding prepare_at
  prepare_at-Stops testdata spec no_list =
      let data_dir = data_dir_of testdata spec in
      let provision =
        external_keys stores data_dir spec.node_did spec.pipeline_dids spec.process_dids in
      bind-Stops acts_at (remove_all site ops.remove_jwts stores.remove_below testdata) _
        (remove_all-Keeps testdata)
        (λ _.
          bind-Stops acts_at (e2e.Env.Containers.Start.on_provision site ops stores docs services _)
            _ (on_provision-Keeps (provision_compose ops site.host testdata (spec.account ∷ [])))
            (λ _.
              bind-Stops acts_at
                (e2e.Env.Containers.Start.on_provision site ops stores docs services _) _
                (on_provision-Keeps
                  (write_broker_config ops site.host testdata site.parsers.is_print site.order))
                (λ _.
                  bind-stopped acts_at
                    (lift key_fault (λ w. w.keys) (λ s w. record w { keys = s }) provision) _
                    (lift-Stops acts_at key_fault (λ w. w.keys) (λ s w. record w { keys = s })
                      (λ _ _. refl) provision
                      (external_keys-stops stores data_dir spec.node_did spec.pipeline_dids
                        spec.process_dids no_list)))))

  pub start_single_node_compose-Stops :
      (spec : SingleNodeSpec)
      → IsUnlisted spec.node_did spec.pipeline_dids spec.process_dids
      → Stops acts_at (start_single_node_compose site ops stores docs services spec)
  unfolding start_single_node_compose
  start_single_node_compose-Stops spec no_list =
      bind-Stops acts_at (or_fail site.getwd no_dir) _ (or_fail-Keeps acts_at site.getwd no_dir)
        (λ dir.
          bind-stopped acts_at
            (prepare_at site ops stores docs services (join dir (lit "testdata")) spec) _
            (prepare_at-Stops (join dir (lit "testdata")) spec no_list))
