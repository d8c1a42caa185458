-- ===== src/Env/Containers/Seeded.antt =====
-- internal/harness/env.go: the account and its seed file, when the compose project boots.
use e2e.Base.{◌≡◌, sym, lit, ap, ◌∙◌, Text}
use e2e.Base.Maps.{Map}
use e2e.Run.{Run, done, lift}
use e2e.Run.Inversion.{bind-done, lift-done, pure-done}
use e2e.Accounts.{Fault, Operators}
use e2e.Bootstrap.{ExternalKeys}
use e2e.Compose.{ComposeProvision}
use e2e.Keys.{KeyStores, external_keys}
use e2e.Owners.{Documents}
use e2e.Env.{SingleNodeSpec, nats_fault, key_fault, Services}
use e2e.Env.Containers.{World, Site, data_dir_of, remove_all}
use e2e.Env.Containers.Start.{on_provision, prepare_at}
use e2e.Accounts.{Account}
use e2e.Accounts.Seeds.{IsSeeded}
use e2e.Compose.Seeds.{
  provision_compose-IsSeeded, write_broker_config-IsSeeded, walk-IsSeeded,
  write_node_config-IsSeeded,
}
use e2e.Disk.{join, make_container_readable, mode_644, mode_755}

IsSeeded-moves :
    {W : Type 0} (dir name : Text) (a : Account) {p p' : ComposeProvision W}
    → p ≡ p'
    → IsSeeded dir name a p.base
    → IsSeeded dir name a p'.base
IsSeeded-moves dir name a e h = rw (← e) h

module _ (site : Site) (ops : Operators) (stores : KeyStores) (docs : Documents)
    (services : Services) where
  on_provision-done :
      {A : Type 0} (m : Run Fault (ComposeProvision ops.World) A)
      (w w' : World ops.World stores.Store) (a : A)
      → on_provision site ops stores docs services m w ≡ (done a, w')
      → m w.provision ≡ (done a, w'.provision)
  unfolding on_provision
  on_provision-done m w w' a e =
      let (p, ran, w'_is) =
        lift-done nats_fault (λ w. w.provision) (λ p w. record w { provision = p }) m w a w' e in
      ran ∙ ap (λ q. (done a, q)) (sym (ap (λ x. x.provision) w'_is))

  -- What the provisioning has left of the spec's account, whatever was written after it.
  pub prepare_at-IsSeeded :
      (testdata : Text) (spec : SingleNodeSpec) (ext : Map ExternalKeys)
      (w w' : World ops.World stores.Store)
      → prepare_at site ops stores docs services testdata spec w ≡ (done ext, w')
      → (a : Account) × IsSeeded testdata spec.account a w'.provision.base
  unfolding prepare_at make_container_readable
  prepare_at-IsSeeded testdata spec ext w w' e =
      let name = spec.account in
      let data_dir = data_dir_of testdata spec in
      let provision =
        external_keys stores data_dir spec.node_did spec.pipeline_dids spec.process_dids in
      let (_, w1, c1, e1) =
        bind-done (remove_all site ops.remove_jwts stores.remove_below testdata) _ w ext w' e in
      let (_, w2, c2, e2) =
        bind-done (on_provision site ops stores docs services _) _ w1 ext w' e1 in
      let (_, w3, c3, e3) =
        bind-done (on_provision site ops stores docs services _) _ w2 ext w' e2 in
      let (keys, w4, c4, e4) =
        bind-done (lift key_fault (λ w. w.keys) (λ s w. record w { keys = s }) provision) _ w3 ext
          w' e3 in
      let (_, w5, c5, e5) =
        bind-done (on_provision site ops stores docs services _) _ w4 ext w' e4 in
      let (_, w6, c6, e6) =
        bind-done (on_provision site ops stores docs services _) _ w5 ext w' e5 in
      let (_, w7, c7, e7) =
        bind-done (on_provision site ops stores docs services _) _ w6 ext w' e6 in
      let (_, w'_is) = pure-done keys ext w7 w' e7 in
      let (_, _, w4_is) =
        lift-done key_fault (λ w. w.keys) (λ s w. record w { keys = s }) provision w3 keys w4 c4 in
      let (a, s2) =
        provision_compose-IsSeeded ops site.host testdata name w1.provision w2.provision
          (on_provision-done _ w1 w2 tt c2) in
      let s3 =
        write_broker_config-IsSeeded ops site.host testdata name a site.parsers.is_print site.order
          w2.provision w3.provision (on_provision-done _ w2 w3 tt c3) s2 in
      let s4 = IsSeeded-moves testdata name a (sym (ap (λ x. x.provision) w4_is)) s3 in
      let s5 =
        walk-IsSeeded testdata name a site.host mode_755 mode_644
          (site.key_tree (join data_dir (lit "keys"))) w4.provision w5.provision
          (on_provision-done _ w4 w5 tt c5) s4 in
      let s6 =
        write_node_config-IsSeeded ops site.host testdata name a _ _ w5.provision w6.provision
          (on_provision-done _ w5 w6 tt c6) s5 in
      let s7 =
        write_node_config-IsSeeded ops site.host testdata name a _ _ w6.provision w7.provision
          (on_provision-done _ w6 w7 tt c7) s6 in
      (a, IsSeeded-moves testdata name a (sym (ap (λ x. x.provision) w'_is)) s7)
