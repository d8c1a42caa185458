-- ===== src/Env/Containers/Order.antt =====
-- internal/harness/env.go: `startSingleNodeCompose` registers identities only at a project that is up.
use e2e.Base.{◌≡◌, ◌⊎◌, inr, refl, ap, sym, ◌∙◌, ◌++◌, List, ◌∷◌, Text, lit, All}
use e2e.Base.Maps.{Map}
use e2e.Run.{Run, done, fatal, ◌>>=◌, ◌>>◌, pure, lift, or_fail}
use e2e.Run.Kept.{bind-Keeps, bind-either, lift-Keeps, Keeps-done, or_fail-Keeps}
use e2e.Disk.{join}
use e2e.Accounts.{Operators}
use e2e.Bootstrap.{Request, ExternalKeys}
use e2e.Docker.{Docker, Compose, compose_of}
use e2e.Keys.{KeyStores}
use e2e.Owners.{Documents}
use e2e.Env.{SingleNodeSpec, EnvFault, no_dir, Services, register_identities}
use e2e.Env.Unlisted.{acts_at}
use e2e.Env.Containers.Calls.{IsAtPort, IsReadyAt, IsSubscribedAt}
use e2e.Env.Containers.{World, Site, Opened, open_at}
use e2e.Env.Containers.Start.{prepare_at, credentials, serve_at, start_single_node_compose}
use e2e.Env.Containers.Up.{open_at-IsUp}
use e2e.Env.Containers.Kept.{prepare_at-Keeps, open_at-Keeps, credentials-Keeps}

-- A scenario directory's project is up, with its teardown registered: each service has answered
-- /readyz at its own port, and every ingress subject has a subscriber at the broker's monitoring port.
pub record IsOpened (site : Site) (spec : SingleNodeSpec) (cleanups : List Compose) (d : Docker)
    : Type 0 where
  pub scenario_dir : Text
  pub opened : Opened
  pub torn_down : d.cleanups ≡ compose_of site.sum256 scenario_dir ∷ cleanups
  pub monitor_found : IsAtPort site d (lit "nats") 8222 (lit "http://") opened.monitor
  pub network_ready : IsReadyAt site d (spec.account ++ lit "-network") opened.network
  pub pipeline_ready : IsReadyAt site d (spec.account ++ lit "-pipeline") opened.pipeline
  pub subscribed : All (IsSubscribedAt site d opened.monitor) spec.ingress_subjects

IsOpened-moves :
    (site : Site) (spec : SingleNodeSpec) {cleanups : List Compose} {d d' : Docker}
    → d ≡ d'
    → IsOpened site spec cleanups d
    → IsOpened site spec cleanups d'
IsOpened-moves site spec e o = rw (← e) o

module _ (site : Site) (ops : Operators) (stores : KeyStores) (docs : Documents)
    (services : Services) where
  serve_at-registers_last :
      (scenario_dir : Text) (spec : SingleNodeSpec) (ext : Map ExternalKeys)
      (w : World ops.World stores.Store)
      → ((serve_at site ops stores docs services scenario_dir spec ext w).1.sent ≡ w.sent)
        ⊎ IsOpened site spec w.docker.cleanups
            (serve_at site ops stores docs services scenario_dir spec ext w).1.docker
  unfolding serve_at
  serve_at-registers_last scenario_dir spec ext w =
      let register : Text → e2e.Run.Run EnvFault (stores.Store × List Request) (Unit {0}) =
        λ base. register_identities stores docs services site.owner_dir base spec ext in
      bind-either (λ x. x.sent) (λ x. IsOpened site spec w.docker.cleanups x.docker)
        (open_at site scenario_dir spec) _ w (open_at-Keeps site scenario_dir spec w)
        (λ opened t up.
          let is_up = open_at-IsUp site scenario_dir spec w t opened up in
          let later =
            bind-Keeps (λ w. w.docker)
              (lift (λ e. e) (λ w. (w.keys, w.sent)) (λ t w. record w { keys = t.0; sent = t.1 })
                (register opened.network))
              _
              (lift-Keeps (λ w. w.docker) (λ e. e) (λ w. (w.keys, w.sent))
                (λ t w. record w { keys = t.0; sent = t.1 }) (λ _ _. refl)
                (register opened.network))
              (λ _.
                bind-Keeps (λ w. w.docker)
                  (credentials site ops stores docs services scenario_dir spec opened.compose) _
                  (λ x.
                    ap (λ y. y.0)
                      (credentials-Keeps site ops stores docs services scenario_dir spec
                        opened.compose x))
                  (λ _ _. refl))
              t in
          inr (
            IsOpened-moves site spec (sym later) (record {
              scenario_dir = scenario_dir;
              opened = opened;
              torn_down = ap (λ x. x.docker.cleanups) is_up.upped ∙ is_up.torn_down;
              monitor_found = is_up.monitor_found;
              network_ready = is_up.network_ready;
              pipeline_ready = is_up.pipeline_ready;
              subscribed = is_up.subscribed;
            })))

  -- Whether `startSingleNodeCompose` returns or ends the test, the registry was sent something only if
  -- the scenario's project was up, and then both services had answered and every subject has a subscriber.
  pub start_single_node_compose-registers_last :
      (spec : SingleNodeSpec) (w : World ops.World stores.Store)
      → ((start_single_node_compose site ops stores docs services spec w).1.sent ≡ w.sent)
        ⊎ IsOpened site spec w.docker.cleanups
            (start_single_node_compose site ops stores docs services spec w).1.docker
  unfolding start_single_node_compose
  start_single_node_compose-registers_last spec w =
      let P : World ops.World stores.Store → Type 0 =
        λ x. IsOpened site spec w.docker.cleanups x.docker in
      bind-either (λ x. x.sent) P (or_fail site.getwd no_dir) _ w
        (or_fail-Keeps (λ x. x.sent) site.getwd no_dir w)
        (λ dir w1 c1.
          let testdata = join dir (lit "testdata") in
          let set_up = prepare_at site ops stores docs services testdata spec in
          bind-either (λ x. x.sent) P set_up _ w1
            (ap (λ x. x.1) (prepare_at-Keeps site ops stores docs services testdata spec w1))
            (λ ext w2 c2.
              let same : acts_at w2 ≡ acts_at w =
                Keeps-done acts_at set_up w1 ext w2
                  (prepare_at-Keeps site ops stores docs services testdata spec) c2
                ∙ Keeps-done acts_at (or_fail site.getwd no_dir) w dir w1
                    (or_fail-Keeps acts_at site.getwd no_dir) c1 in
              rw (← ap (λ x. x.0.0) same) (serve_at-registers_last dir spec ext w2)))
