-- ===== src/Env/Registered.antt =====
-- internal/harness/env.go: the contract of both runtimes on a node's identities.
use e2e.Base.{◌≡◌, ◌≢◌, ap, sym, ◌∙◌, ◌⊎◌, List, [], ◌∷◌, Text, lit, Any}
use e2e.Base.Maps.{Map}
use e2e.Run.{done, lift}
use e2e.Run.Inversion.{bind-done, lift-done, pure-done, or_fail-done, verdict-done}
use e2e.Disk.{join}
use e2e.Bootstrap.{ExternalKeys, Request, bootstrap_external}
use e2e.Bootstrap.Requests.{Bootstrapped, bootstrap_external_iff}
use e2e.Keys.{KeyStores, KeyId, auth, signing, no_key, unsaved, generate_for, save_pairs}
use e2e.Keys.Stored.{IsLawful, IsAgreed}
use e2e.Owners.{Owner, Documents, new_owner}
use e2e.Env.{
  SingleNodeSpec, key_fault, bootstrap_fault, owner_did_for, Services, registry_of,
  register_identities,
}

module _ (stores : KeyStores) (docs : Documents) (services : Services) where
  -- The contract of a start, whichever the runtime: the node's key store holds the keys of every DID
  -- of the spec, the node's own DID is one of these, and the registry at the node's base URL has
  -- accepted the owner that the spec names and each DID with the public halves in the node's store.
  pub record IsRegistered (data_dir base : Text) (spec : SingleNodeSpec) (sent : List Request)
      (store : stores.Store) (sent' : List Request) : Type 0 where
    pub keys : Map ExternalKeys
    pub owner : Owner
    pub keys_agree : IsAgreed stores data_dir keys store
    pub node_listed :
        Any (λ x. x ≡ spec.node_did) spec.pipeline_dids
        ⊎ Any (λ x. x ≡ spec.node_did) spec.process_dids
    pub owner_named : owner.did ≡ owner_did_for spec
    pub bootstrapped :
        Bootstrapped
          (registry_of stores docs services base owner)
          keys
          spec.pipeline_dids
          spec.process_dids
          sent
          sent'

  pub IsRegistered-moves :
      (data_dir : Text) (spec : SingleNodeSpec) {base base' : Text} {sent0 sent1 : List Request}
      {store : stores.Store} {sent' : List Request}
      → base ≡ base'
      → sent0 ≡ sent1
      → IsRegistered data_dir base spec sent0 store sent'
      → IsRegistered data_dir base' spec sent1 store sent'
  IsRegistered-moves data_dir spec e f r = rw (← e, ← f) r

  new_owner-done :
      (dir did : Text) (s s' : stores.Store) (o : Owner)
      → new_owner stores dir did s ≡ (done o, s')
      → (o.did ≡ did)
        × (IsLawful stores
            → (dir' : Text) → dir ≢ dir'
            → (subject : Text) (id : KeyId)
            → stores.public_of dir' subject id s' ≡ stores.public_of dir' subject id s)
  unfolding new_owner generate_for save_pairs
  new_owner-done dir did s s' o e =
      let (kp, t, made, e1) = bind-done (generate_for stores did) _ s o s' e in
      let (_, t1, saved, e2) =
        bind-done (save_pairs stores dir did ((signing, kp) ∷ [])) _ t o s' e1 in
      let (o_is, s'_is) =
        pure-done (record { did = did; key_dir = dir; public_key = kp.public_key }) o t1 s' e2 in
      let (_, t_is) =
        or_fail-done (stores.generate s).0 (no_key did) (stores.generate s).1 kp t made in
      let (_, t1_is) =
        verdict-done (stores.save dir did ((signing, kp) ∷ []) t).0 (unsaved did)
          (stores.save dir did ((signing, kp) ∷ []) t).1 t1 saved in
      (
        ap (λ q. q.did) (sym o_is),
        λ law dir' apart subject id.
            ap (stores.public_of dir' subject id) (s'_is ∙ t1_is)
            ∙ (law.save-elsewhere dir dir' did subject ((signing, kp) ∷ []) id t apart
                ∙ (ap (stores.public_of dir' subject id) t_is
                    ∙ law.generate-public_of dir' subject id s)),
      )

  pub register_identities-done :
      IsLawful stores
      → (data_dir owner_dir base : Text) → owner_dir ≢ join data_dir (lit "keys")
      → (spec : SingleNodeSpec) (keys : Map ExternalKeys) (s s' : stores.Store)
        (sent sent' : List Request)
      → IsAgreed stores data_dir keys s
      → Any (λ x. x ≡ spec.node_did) spec.pipeline_dids
        ⊎ Any (λ x. x ≡ spec.node_did) spec.process_dids
      → register_identities stores docs services owner_dir base spec keys (s, sent)
        ≡ (done tt, (s', sent'))
      → IsRegistered data_dir base spec sent s' sent'
  unfolding register_identities
  register_identities-done law data_dir owner_dir base apart spec keys s s' sent sent' agreed listed
        e =
      let (owner, t, made, e1) =
        bind-done
          (lift key_fault (λ w. w.0) (λ s w. (s, w.1))
            (new_owner stores owner_dir (owner_did_for spec)))
          _ (s, sent) tt (s', sent') e in
      let (s1, owned, t_is) =
        lift-done key_fault (λ w. w.0) (λ s w. (s, w.1))
          (new_owner stores owner_dir (owner_did_for spec)) (s, sent) owner t made in
      let (named, kept) = new_owner-done owner_dir (owner_did_for spec) s s1 owner owned in
      let (sent1, ran, end) =
        lift-done bootstrap_fault (λ w. w.1) (λ sent w. (w.0, sent))
          (bootstrap_external (registry_of stores docs services base owner) keys spec.pipeline_dids
            spec.process_dids)
          t tt (s', sent') e1 in
      let s'_is : s' ≡ s1 = ap (λ x. x.0) end ∙ ap (λ x. x.0) t_is in
      let boot =
        bootstrap_external (registry_of stores docs services base owner) keys spec.pipeline_dids
          spec.process_dids in
      let dir = join data_dir (lit "keys") in
      record {
        keys = keys;
        owner = owner;
        keys_agree = λ subject ext found.
            let (has_auth, has_signing) = agreed subject ext found in
            (
              ap (stores.public_of dir subject auth) s'_is
                  ∙ (kept law dir apart subject auth ∙ has_auth),
              ap (stores.public_of dir subject signing) s'_is
                  ∙ (kept law dir apart subject signing ∙ has_signing),
            );
        node_listed = listed;
        owner_named = named;
        bootstrapped =
            (bootstrap_external_iff (registry_of stores docs services base owner) keys
                spec.pipeline_dids spec.process_dids sent sent').0
              (ap boot (sym (ap (λ x. x.1) t_is))
                ∙ (ran ∙ ap (λ q. (done tt, q)) (sym (ap (λ x. x.1) end))));
      }
