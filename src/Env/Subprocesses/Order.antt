-- ===== src/Env/Subprocesses/Order.antt =====
-- internal/harness/env.go: `startSingleNodeProcess` registers identities only at a node that is up.
use e2e.Base.{◌≡◌, ◌⊎◌, inr, refl, ap, sym, ◌∙◌, ◌++◌, ◌*◌, List, [], ◌∷◌, Text, lit, length, All}
use e2e.Base.Maps.{Map}
use e2e.Run.{Run, ◌>>◌, pure, lift}
use e2e.Run.Kept.{Keeps, bind-Keeps, bind-either, lift-Keeps, Keeps-done}
use e2e.Disk.{join}
use e2e.Accounts.{Account, Operators}
use e2e.Bootstrap.{ExternalKeys}
use e2e.Keys.{KeyStores, external_keys}
use e2e.Nats.{Brokers}
use e2e.Owners.{Documents}
use e2e.Processes.{SeparatedNodeSpec, start_separated_node}
use e2e.Processes.Boot.{boot_events}
use e2e.Env.{
  SingleNodeSpec, EnvFault, key_fault, boot_fault, unsubscribed, found_or, Services,
  register_identities,
}
use e2e.Env.Unlisted.{acts, found_or-Keeps, prepare-Keeps, connect-Keeps}
use e2e.Env.Subprocesses.Calls.{
  IsSubscribed, IsSubscribed-moves, wait_subscribed-done, start_both-done,
}
use e2e.Env.Subprocesses.{
  World, Machine, loopback, pipeline_dir, boot_spec_of, prepare, wait_subscribed, get_booting,
  set_booting, start_both,
}
use e2e.Env.Subprocesses.Start.{serve, connect, start_single_node_process}
use e2e.Waits.{wait_for_subscriber}

-- Both processes of the spec's node were booted, and every ingress subject has a subscriber.
abbrev pub IsBooted :
    {W B K : Type 0} → Machine → SingleNodeSpec → List e2e.Processes.Event → World W B K → Type 0
IsBooted machine spec events w' =
    ((boot_spec : SeparatedNodeSpec) × (boot_spec.name ≡ spec.account)
      × (w'.events ≡ events ++ boot_events boot_spec))
    × All (IsSubscribed machine w'.events) spec.ingress_subjects

module _ (machine : Machine) {W B K : Type 0} where
  wait_subscribed-Keeps :
      (subjects : List Text) → Keeps acts (wait_subscribed machine {W = W} {B = B} {K = K} subjects)
  unfolding wait_subscribed
  wait_subscribed-Keeps [] = λ w. refl
  wait_subscribed-Keeps (subject ∷ subjects) =
      bind-Keeps acts
        (λ w.
          found_or (unsubscribed subject)
            (wait_for_subscriber subject (30 * 1000)
              (machine.subscriptions (length w.events) subject))
            w)
        _
        (λ w.
          found_or-Keeps acts (unsubscribed subject)
            (wait_for_subscriber subject (30 * 1000)
              (machine.subscriptions (length w.events) subject))
            w)
        (λ _. wait_subscribed-Keeps subjects)

  start_both-Keeps :
      (boot_spec : SeparatedNodeSpec)
      → Keeps (λ w. w.sent) (start_both machine {W = W} {B = B} {K = K} boot_spec)
  unfolding start_both set_booting
  start_both-Keeps boot_spec =
      lift-Keeps (λ w. w.sent) boot_fault (get_booting machine) (set_booting machine) (λ _ _. refl)
        (start_separated_node machine.host machine.system boot_spec)

module _ (machine : Machine) (ops : Operators) (brokers : Brokers) (stores : KeyStores)
    (docs : Documents) (services : Services) where
  registers_later :
      {A : Type 0} (spec : SingleNodeSpec) (base : Text) (ext : Map ExternalKeys) (a : A)
      (w : World ops.World brokers.State stores.Store)
      → ((lift
              (λ e. e)
              (λ w. (w.keys, w.sent))
              (λ t w. record w { keys = t.0; sent = t.1 })
              (register_identities stores docs services machine.owner_dir base spec ext)
            >> pure a)
          w).1.events
        ≡ w.events
  registers_later spec base ext a =
      bind-Keeps (λ x. x.events)
        (lift (λ e. e) (λ w. (w.keys, w.sent)) (λ t w. record w { keys = t.0; sent = t.1 })
          (register_identities stores docs services machine.owner_dir base spec ext))
        _
        (lift-Keeps (λ x. x.events) (λ e. e) (λ w. (w.keys, w.sent))
          (λ t w. record w { keys = t.0; sent = t.1 }) (λ _ _. refl)
          (register_identities stores docs services machine.owner_dir base spec ext))
        (λ _ _. refl)

  serve-registers_last :
      (spec : SingleNodeSpec) (boot_spec : SeparatedNodeSpec)
      → boot_spec.name ≡ spec.account
      → (ext : Map ExternalKeys) (nats_url : Text) (acct : Account)
        (w : World ops.World brokers.State stores.Store)
      → ((serve machine ops brokers stores docs services spec boot_spec ext nats_url acct w).1.sent
          ≡ w.sent)
        ⊎ IsBooted machine spec w.events
            (serve machine ops brokers stores docs services spec boot_spec ext nats_url acct w).1
  unfolding serve set_booting
  serve-registers_last spec boot_spec named ext nats_url acct w =
      bind-either (λ x. x.sent) (IsBooted machine spec w.events) (start_both machine boot_spec) _ w
        (start_both-Keeps machine boot_spec w)
        (λ node t booted.
          bind-either (λ x. x.sent) (IsBooted machine spec w.events)
            (wait_subscribed machine spec.ingress_subjects) _ t
            (ap (λ x. x.1) (wait_subscribed-Keeps machine spec.ingress_subjects t))
            (λ _ t' waited.
              let (b, t_is, events_are, _, _) = start_both-done machine boot_spec w t node booted in
              let (subscribed, t'_is) =
                wait_subscribed-done machine spec.ingress_subjects t t' waited in
              let later = registers_later spec (loopback boot_spec.network_listen_addr) ext _ t' in
              inr (
                (
                  boot_spec,
                  named,
                  later ∙ (ap (λ x. x.events) t'_is ∙ (ap (λ x. x.events) t_is ∙ events_are)),
                ),
                IsSubscribed-moves machine spec.ingress_subjects
                    (sym (later ∙ ap (λ x. x.events) t'_is)) subscribed,
              )))

  -- Whether `startSingleNodeProcess` returns or ends the test, the registry was sent something only if
  -- both processes were booted and every ingress subject had a subscriber.
  pub start_single_node_process-registers_last :
      (spec : SingleNodeSpec) (w : World ops.World brokers.State stores.Store)
      → ((start_single_node_process machine ops brokers stores docs services spec w).1.sent
          ≡ w.sent)
        ⊎ IsBooted machine spec w.events
            (start_single_node_process machine ops brokers stores docs services spec w).1
  unfolding start_single_node_process boot_spec_of
  start_single_node_process-registers_last spec w =
      let nats_dir = join machine.work_dir (lit "nats") in
      let data_dir = join (pipeline_dir machine.work_dir spec) (lit "data") in
      let provision =
        external_keys stores data_dir spec.node_did spec.pipeline_dids spec.process_dids in
      let keep : Run EnvFault (World ops.World brokers.State stores.Store) (Map ExternalKeys) =
        lift key_fault (λ w. w.keys) (λ s w. record w { keys = s }) provision in
      let link = connect machine ops brokers stores docs services nats_dir spec.account in
      let linked = connect-Keeps machine ops brokers stores docs services nats_dir spec.account in
      let keyed : Keeps acts keep =
        lift-Keeps acts key_fault (λ w. w.keys) (λ s w. record w { keys = s }) (λ _ _. refl)
          provision in
      bind-either (λ x. x.sent) (IsBooted machine spec w.events) (prepare machine) _ w
        (ap (λ x. x.1) (prepare-Keeps machine w))
        (λ p w1 c1.
          bind-either (λ x. x.sent) (IsBooted machine spec w.events)
            (connect machine ops brokers stores docs services nats_dir spec.account) _ w1
            (ap (λ x. x.1) (linked w1))
            (λ u w2 c2.
              bind-either (λ x. x.sent) (IsBooted machine spec w.events)
                (lift key_fault (λ w. w.keys) (λ s w. record w { keys = s }) provision) _ w2
                (ap (λ x. x.1) (keyed w2))
                (λ ext w3 c3.
                  let same : acts w3 ≡ acts w =
                    Keeps-done acts keep w2 ext w3 keyed c3
                    ∙ (Keeps-done acts link w1 u w2 linked c2
                        ∙ Keeps-done acts (prepare machine) w p w1 (prepare-Keeps machine) c1) in
                  rw (← ap (λ x. x.0) same) (serve-registers_last spec _ refl ext _ _ w3))))
