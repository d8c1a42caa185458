-- ===== src/Env/Containers/Provisioned.antt =====
-- internal/harness/env.go: what `startSingleNodeCompose` has set up when it returns.
use e2e.Base.{◌≡◌, sym, ap, ◌∙◌, ◌⊎◌, Text, Any}
use e2e.Base.Maps.{Map}
use e2e.Run.{Run, done, lift}
use e2e.Run.Inversion.{bind-done, lift-done, pure-done}
use e2e.Accounts.{Fault, Operators}
use e2e.Bootstrap.{ExternalKeys}
use e2e.Compose.{ComposeProvision}
use e2e.Keys.{KeyStores, external_keys}
use e2e.Keys.Stored.{IsAgreed}
use e2e.Keys.Agreed.{external_keys-IsAgreed}
use e2e.Owners.{Documents}
use e2e.Env.{SingleNodeSpec, nats_fault, key_fault, Services}
use e2e.Env.Containers.Calls.{aside, shown, remove_all-done}
use e2e.Env.Containers.{World, Site, data_dir_of, remove_all}
use e2e.Env.Containers.Start.{on_provision, prepare_at}

module _ (site : Site) (ops : Operators) (stores : KeyStores) (docs : Documents)
    (services : Services) where
  on_provision-aside :
      {A : Type 0} (m : Run Fault (ComposeProvision ops.World) A)
      (w w' : World ops.World stores.Store) (a : A)
      → on_provision site ops stores docs services m w ≡ (done a, w')
      → aside w' ≡ aside w
  unfolding on_provision
  on_provision-aside m w w' a e =
      let (p, _, w'_is) =
        lift-done nats_fault (λ w. w.provision) (λ p w. record w { provision = p }) m w a w' e in
      ap aside w'_is

  IsAgreed-moves :
      (data_dir : Text) {ext ext' : Map ExternalKeys} {store store' : stores.Store}
      → ext ≡ ext'
      → store ≡ store'
      → IsAgreed stores data_dir ext store
      → IsAgreed stores data_dir ext' store'
  IsAgreed-moves data_dir e f h = rw (← e, ← f) h

  -- What the provisioning has done to the keys. Nothing was run or sent.
  pub prepare_at-IsAgreed :
      e2e.Keys.Stored.IsLawful stores
      → (testdata : Text) (spec : SingleNodeSpec) (ext : Map ExternalKeys)
        (w w' : World ops.World stores.Store)
      → prepare_at site ops stores docs services testdata spec w ≡ (done ext, w')
      → IsAgreed stores (data_dir_of testdata spec) ext w'.keys
        × (Any (λ x. x ≡ spec.node_did) spec.pipeline_dids
            ⊎ Any (λ x. x ≡ spec.node_did) spec.process_dids)
        × (w'.docker ≡ w.docker)
        × (w'.sent ≡ w.sent)
  unfolding prepare_at
  prepare_at-IsAgreed law testdata spec ext w w' e =
      let data_dir = data_dir_of testdata spec in
      let provision =
        external_keys stores data_dir spec.node_did spec.pipeline_dids spec.process_dids in
      let (_, w1, c1, e1) =
        bind-done (remove_all site ops.remove_jwts stores.remove_below testdata) _ w ext w' e in
      let (_, w2, c2, e2) =
        bind-done (on_provision site ops stores docs services _) _ w1 ext w' e1 in
      let (_, w3, c3, e3) =
        bind-done (on_provision site ops stores docs services _) _ w2 ext w' e2 in
      let (keys, w4, c4, e4) =
        bind-done (lift key_fault (λ w. w.keys) (λ s w. record w { keys = s }) provision) _ w3 ext
          w' e3 in
      let (_, w5, c5, e5) =
        bind-done (on_provision site ops stores docs services _) _ w4 ext w' e4 in
      let (_, w6, c6, e6) =
        bind-done (on_provision site ops stores docs services _) _ w5 ext w' e5 in
      let (_, w7, c7, e7) =
        bind-done (on_provision site ops stores docs services _) _ w6 ext w' e6 in
      let (ext_is, w'_is) = pure-done keys ext w7 w' e7 in
      let (s, provisioned, w4_is) =
        lift-done key_fault (λ w. w.keys) (λ s w. record w { keys = s }) provision w3 keys w4 c4 in
      let (agreed, _, listed) =
        external_keys-IsAgreed stores data_dir law spec.node_did spec.pipeline_dids
          spec.process_dids keys w3.keys s provisioned in
      let before : shown w3 ≡ shown w =
        ap (λ x. (x.1, x.2)) (on_provision-aside _ w2 w3 _ c3 ∙ on_provision-aside _ w1 w2 _ c2)
        ∙ remove_all-done site ops.remove_jwts stores.remove_below testdata w w1 c1 in
      let after : aside w' ≡ aside w4 =
        ap aside w'_is
        ∙ (on_provision-aside _ w6 w7 _ c7
            ∙ (on_provision-aside _ w5 w6 _ c6 ∙ on_provision-aside _ w4 w5 _ c5)) in
      let held : w'.keys ≡ s = ap (λ x. x.0) after ∙ ap (λ x. x.keys) w4_is in
      (
        IsAgreed-moves data_dir ext_is (sym held) agreed,
        listed,
        ap (λ x. x.1) after ∙ (ap (λ x. x.docker) w4_is ∙ ap (λ x. x.0) before),
        ap (λ x. x.2) after ∙ (ap (λ x. x.sent) w4_is ∙ ap (λ x. x.1) before),
      )
