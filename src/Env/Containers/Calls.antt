-- ===== src/Env/Containers/Calls.antt =====
-- internal/harness/env.go: what the calls of `startSingleNodeCompose` that returned have changed.
use e2e.Base.{
  ◌≡◌, refl, ap, sym, ◌∙◌, ◌*◌, ◌++◌, append-nil, some, List, [], ◌∷◌, Text, lit, length, ℕ, All,
}
use e2e.Base.Maps.{lookup}
use e2e.Run.{done}
use e2e.Run.Inversion.{bind-done, pure-done, or_fail-done, guard-done}
use e2e.Bootstrap.{Request}
use e2e.Docker.{Docker, Compose, Command, port_command}
use e2e.Waits.{port, wait_http_healthy, wait_for_subscriber_http}
use e2e.Poll.{got}
use e2e.Env.{uncleared, no_address, unhealthy, unread_seed, unsubscribed}
use e2e.Env.Subprocesses.Calls.{found_or-done}
use e2e.Env.Containers.{
  World, Site, remove_all, port_of, unfound_logs, wait_healthy_at, ready_base, wait_subscribed_at,
  read_seed,
}

-- What the scenario's removal of its test data leaves alone.
abbrev pub shown : {W K : Type 0} → World W K → Docker × List Request
shown w = (w.docker, w.sent)

-- What a step of the provisioning leaves alone.
abbrev pub aside : {W K : Type 0} → World W K → K × Docker × List Request
aside w = (w.keys, w.docker, w.sent)

module _ (site : Site) where
  -- The URL answered 200 within the wait, at the present number of compose commands.
  abbrev pub IsHealthyAt : Docker → Text → Type 0
  IsHealthyAt d url =
      (t : ℕ) × (wait_http_healthy (60 * 1000) (site.get (length d.commands) url) ≡ some (got tt t))

  -- The wait for the subject ended because the monitoring endpoint listed a subscription to it.
  abbrev pub IsSubscribedAt : Docker → Text → Text → Type 0
  IsSubscribedAt d monitor subject =
      (t : ℕ) × (wait_for_subscriber_http subject (60 * 1000)
          (site.get (length d.commands) (monitor ++ lit "/subsz?subs=1"))
        ≡ some (got tt t))

  -- The URL has the address that a wait found for the container port of the service.
  abbrev pub IsAtPort : Docker → Text → ℕ → Text → Text → Type 0
  IsAtPort d service container_port scheme url =
      (address : Text) × (t : ℕ) × (port (site.port (length d.commands) service container_port)
        ≡ some (got address t))
      × (url ≡ scheme ++ address)

  -- The URL is that of the service's own port 8443, and answered 200 at /readyz.
  abbrev pub IsReadyAt : Docker → Text → Text → Type 0
  IsReadyAt d service url =
      IsAtPort d service 8443 (lit "http://") url × IsHealthyAt d (url ++ lit "/readyz")

  pub IsAtPort-moves :
      (service : Text) (container_port : ℕ) (scheme : Text) {d d' : Docker} {url url' : Text}
      → d ≡ d'
      → url ≡ url'
      → IsAtPort d service container_port scheme url
      → IsAtPort d' service container_port scheme url'
  IsAtPort-moves service container_port scheme e f h = rw (← e, ← f) h

  pub IsReadyAt-moves :
      (service : Text) {d d' : Docker} {url url' : Text}
      → d ≡ d'
      → url ≡ url'
      → IsReadyAt d service url
      → IsReadyAt d' service url'
  IsReadyAt-moves service e f h = rw (← e, ← f) h

  pub IsHealthyAt-moves :
      {d d' : Docker} {url url' : Text}
      → d ≡ d'
      → url ≡ url'
      → IsHealthyAt d url
      → IsHealthyAt d' url'
  IsHealthyAt-moves e f h = rw (← e, ← f) h

  pub IsSubscribedAt-moves :
      {d d' : Docker} {monitor monitor' : Text} (subjects : List Text)
      → d ≡ d'
      → monitor ≡ monitor'
      → All (IsSubscribedAt d monitor) subjects
      → All (IsSubscribedAt d' monitor') subjects
  IsSubscribedAt-moves subjects e f h = rw (← e, ← f) h

-- The world after a query.
abbrev pub asked : {W K : Type 0} → Command → World W K → World W K
asked q w = record w { queries = w.queries ++ (q ∷ []) }

module _ (site : Site) {W K : Type 0} where
  pub remove_all-done :
      (remove_jwts : W → W) (remove_keys : Text → K → K) (dir : Text) (w w' : World W K)
      → remove_all site remove_jwts remove_keys dir w ≡ (done tt, w')
      → shown w' ≡ shown w
  unfolding remove_all
  remove_all-done remove_jwts remove_keys dir w w' e =
      ap (λ r. shown r.1) (sym (guard-done (site.can_remove dir) _ (uncleared dir) w tt w' e))

  pub port_of-done :
      (c : Compose) (service : Text) (container_port : ℕ) (w w' : World W K) (address : Text)
      → port_of site c service container_port w ≡ (done address, w')
      → IsAtPort site w.docker service container_port [] address
        × (w' ≡ asked (port_command c service container_port) w)
  unfolding port_of unfound_logs
  port_of-done c service container_port w w' address e =
      let found = port (site.port (length w.docker.commands) service container_port) in
      let with_logs : List Command → World W K = λ logs. record w {
        queries = (w.queries ++ (port_command c service container_port ∷ [])) ++ logs;
      } in
      let ((t, is), w'_is) =
        found_or-done (no_address service) found (with_logs (unfound_logs c service found)) w'
          address e in
      (
        (address, t, is, refl),
        w'_is
            ∙ (ap (λ r. with_logs (unfound_logs c service r)) is
                ∙ ap (λ l. record w { queries = l })
                    (append-nil (w.queries ++ (port_command c service container_port ∷ [])))),
      )

  pub wait_healthy_at-done :
      (name url : Text) (w w' : World W K)
      → wait_healthy_at site name url w ≡ (done tt, w')
      → IsHealthyAt site w.docker url × (w' ≡ w)
  unfolding wait_healthy_at
  wait_healthy_at-done name url w w' e =
      found_or-done (unhealthy name)
        (wait_http_healthy (60 * 1000) (site.get (length w.docker.commands) url)) w w' tt e

  pub ready_base-done :
      (c : Compose) (service : Text) (w w' : World W K) (base : Text)
      → ready_base site c service w ≡ (done base, w')
      → IsReadyAt site w.docker service base × (w' ≡ asked (port_command c service 8443) w)
  unfolding ready_base
  ready_base-done c service w w' base e =
      let (address, w1, c1, e1) = bind-done (port_of site c service 8443) _ w base w' e in
      let url = lit "http://" ++ address in
      let (_, w2, c2, e2) =
        bind-done (wait_healthy_at site service (url ++ lit "/readyz")) _ w1 base w' e1 in
      let ((found, t, is, found_is), w1_is) = port_of-done c service 8443 w w1 address c1 in
      let (healthy, w2_is) = wait_healthy_at-done service (url ++ lit "/readyz") w1 w2 c2 in
      let (base_is, w'_is) = pure-done url base w2 w' e2 in
      (
        (
          (found, t, is, sym base_is ∙ ap (λ a. lit "http://" ++ a) found_is),
          IsHealthyAt-moves site (ap (λ x. x.docker) w1_is) (ap (λ u. u ++ lit "/readyz") base_is)
              healthy,
        ),
        w'_is ∙ (w2_is ∙ w1_is),
      )

  pub wait_subscribed_at-done :
      (monitor : Text) (subjects : List Text) (w w' : World W K)
      → wait_subscribed_at site monitor subjects w ≡ (done tt, w')
      → All (IsSubscribedAt site w.docker monitor) subjects × (w' ≡ w)
  unfolding wait_subscribed_at
  wait_subscribed_at-done monitor [] w w' e = (tt, sym (ap (λ r. r.1) e))
  wait_subscribed_at-done monitor (subject ∷ subjects) w w' e =
      let (_, w1, c1, e1) = bind-done _ (λ _. wait_subscribed_at site monitor subjects) w tt w' e in
      let (here, w1_is) =
        found_or-done (unsubscribed subject)
          (wait_for_subscriber_http subject (60 * 1000)
            (site.get (length w.docker.commands) (monitor ++ lit "/subsz?subs=1")))
          w w1 tt c1 in
      let (rest, w'_is) = wait_subscribed_at-done monitor subjects w1 w' e1 in
      (
        (here, IsSubscribedAt-moves site subjects (ap (λ x. x.docker) w1_is) refl rest),
        w'_is ∙ w1_is,
      )

  pub read_seed-done :
      (path : Text) (w w' : World W K) (seed : Text)
      → read_seed site path w ≡ (done seed, w')
      → (lookup path w.provision.base.disk.files ≡ some seed) × (w' ≡ w)
  unfolding read_seed
  read_seed-done path w w' seed e =
      or_fail-done (lookup path w.provision.base.disk.files) unread_seed w seed w'
        (guard-done (site.host.can_read path) _ unread_seed w seed w' e)
