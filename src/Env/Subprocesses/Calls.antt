-- ===== src/Env/Subprocesses/Calls.antt =====
-- internal/harness/env.go: what the calls of `startSingleNodeProcess` that returned have changed.
use e2e.Base.{
  ℕ, ◌≡◌, ap, ap₂, sym, ◌∙◌, arith, suc, ◌*◌, ◌++◌, Option, none, some, List, [], ◌∷◌, Text, length,
  All,
}
use e2e.Base.Maps.{lookup}
use e2e.Run.{done, lift}
use e2e.Run.Inversion.{bind-done, lift-done, pure-done}
use e2e.Poll.{Ended, got, timed_out, died}
use e2e.Processes.{Event, Booting, SeparatedNode, SeparatedNodeSpec, start_separated_node}
use e2e.Processes.Written.{application_conf, pipeline_conf}
use e2e.Processes.Boot.{boot_events, start_separated_node-done}
use e2e.Waits.{wait_for_subscriber, wait_pdp_stub}
use e2e.Bootstrap.{Request}
use e2e.Nats.{Nats}
use e2e.Builds.{Builds, build_binaries}
use e2e.Env.{found_or, EnvFault, build_fault, no_stub, boot_fault, unsubscribed}
use e2e.Env.Subprocesses.{
  Prepared, prepare, World, Machine, free_port, serve_stub, wait_subscribed, get_booting,
  set_booting, start_both,
}

pub found_or-done :
    {W A : Type 0} (fault : EnvFault) (r : Option (Ended A)) (w w' : W) (a : A)
    → found_or fault r w ≡ (done a, w')
    → ((t : ℕ) × (r ≡ some (got a t))) × (w' ≡ w)
unfolding found_or
found_or-done fault (some (got b t)) w w' a e =
    ((t, ap (λ x. some (got x t)) (cc (ap (λ r. r.0) e))), sym (ap (λ r. r.1) e))
found_or-done fault (some (timed_out _)) w w' a e = absurd (ground (arith, e))
found_or-done fault (some (died _)) w w' a e = absurd (ground (arith, e))
found_or-done fault none w w' a e = absurd (ground (arith, e))

-- The wait for the subject, when so much had happened to the processes, ended because the broker had a
-- subscription to it.
abbrev pub IsSubscribed : Machine → List Event → Text → Type 0
IsSubscribed machine events subject =
    (t : ℕ) × (wait_for_subscriber subject (30 * 1000)
        (machine.subscriptions (length events) subject)
      ≡ some (got tt t))

pub IsSubscribed-moves :
    (machine : Machine) (subjects : List Text) {events events' : List Event}
    → events ≡ events'
    → All (IsSubscribed machine events) subjects
    → All (IsSubscribed machine events') subjects
IsSubscribed-moves machine subjects e h = rw (← e) h

-- What the preparation leaves alone.
abbrev pub seen : {W B K : Type 0} → World W B K → Nats W B × K × List Event × List Request
seen w = (w.nats, w.keys, w.events, w.sent)

module _ (machine : Machine) {W B K : Type 0} where
  free_port-done :
      (w w' : World W B K) (addr : Text)
      → free_port machine w ≡ (done addr, w')
      → w' ≡ record w { ports = suc w.ports }
  unfolding free_port
  free_port-done w w' addr e = sym (ap (λ r. r.1) e)

  pub wait_subscribed-done :
      (subjects : List Text) (w w' : World W B K)
      → wait_subscribed machine subjects w ≡ (done tt, w')
      → All (IsSubscribed machine w.events) subjects × (w' ≡ w)
  unfolding wait_subscribed
  wait_subscribed-done [] w w' e = (tt, sym (ap (λ r. r.1) e))
  wait_subscribed-done (subject ∷ subjects) w w' e =
      let (_, t, first, e1) = bind-done _ (λ _. wait_subscribed machine subjects) w tt w' e in
      let (here, t_is) =
        found_or-done (unsubscribed subject)
          (wait_for_subscriber subject (30 * 1000)
            (machine.subscriptions (length w.events) subject))
          w t tt first in
      let (rest, w'_is) = wait_subscribed-done subjects t w' e1 in
      ((here, IsSubscribed-moves machine subjects (ap (λ x. x.events) t_is) rest), w'_is ∙ t_is)

  -- What a boot of both processes has done to the world.
  pub start_both-done :
      (spec : SeparatedNodeSpec) (w w' : World W B K) (node : SeparatedNode)
      → start_both machine spec w ≡ (done node, w')
      → (b : Booting) × (w' ≡ set_booting machine b w)
        × (b.events ≡ w.events ++ boot_events spec)
        × (lookup (application_conf spec.network_dir) b.disk.files ≡ some spec.network_config)
        × (lookup (pipeline_conf spec.pipeline_dir) b.disk.files ≡ some spec.pipeline_config)
  unfolding start_both get_booting
  start_both-done spec w w' node e =
      let (b, booted, w'_is) =
        lift-done boot_fault (get_booting machine) (set_booting machine)
          (start_separated_node machine.host machine.system spec) w node w' e in
      let (events_are, network_configured, configured) =
        start_separated_node-done machine.host machine.system spec (get_booting machine w) b node
          booted in
      (b, w'_is, events_are, network_configured, configured)

  -- To prepare leaves the broker, the key stores, the processes and the registry alone, and the binaries
  -- are what `BuildBinaries` returned.
  pub prepare-done :
      (w w' : World W B K) (p : Prepared)
      → prepare machine w ≡ (done p, w')
      → (seen w' ≡ seen w) × (build_binaries machine.tools w.builds ≡ (done p.bins, w'.builds))
  unfolding prepare serve_stub
  prepare-done w w' p e =
      let (bins, w1, c1, e1) =
        bind-done
          (lift build_fault (λ w. w.builds) (λ b w. record w { builds = b })
            (build_binaries machine.tools))
          _ w p w' e in
      let (a, w2, c2, e2) = bind-done (free_port machine) _ w1 p w' e1 in
      let (b, w3, c3, e3) = bind-done (free_port machine) _ w2 p w' e2 in
      let (c, w4, c4, e4) = bind-done (free_port machine) _ w3 p w' e3 in
      let (_, ws, cs, es) = bind-done (serve_stub machine c) _ w4 p w' e4 in
      let (url, w5, c5, e5) =
        bind-done (found_or no_stub (wait_pdp_stub c machine.stub)) _ ws p w' es in
      let (builds, built, h1) =
        lift-done build_fault (λ w. w.builds) (λ b w. record w { builds = b })
          (build_binaries machine.tools) w bins w1 c1 in
      let h2 = free_port-done w1 w2 a c2 in
      let h3 = free_port-done w2 w3 b c3 in
      let h4 = free_port-done w3 w4 c c4 in
      let hs : ws ≡ record w4 { stubs = c ∷ w4.stubs } = ap (λ r. r.1) (sym cs) in
      let (_, h5) = found_or-done no_stub (wait_pdp_stub c machine.stub) ws w5 url c5 in
      let (p_is, h6) = pure-done _ p w5 w' e5 in
      let get : World W B K → (Nats W B × K × List Event × List Request) × Builds =
        λ x. (seen x, x.builds) in
      let same : get w' ≡ get w1 =
        ap get h6 ∙ (ap get h5 ∙ (ap get hs ∙ (ap get h4 ∙ (ap get h3 ∙ ap get h2)))) in
      (
        ap (λ x. x.0) same ∙ ap seen h1,
        built
            ∙ ap₂ (λ b s. (done b, s)) (ap (λ q. q.bins) p_is)
                (sym (ap (λ x. x.1) same ∙ ap (λ x. x.builds) h1)),
      )
