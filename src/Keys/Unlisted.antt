-- ===== src/Keys/Unlisted.antt =====
-- internal/harness/env.go: the check of the node's own DID, which ends the test.
use e2e.Base.{◌≡◌, ◌≢◌, ap, arith, ◌⊎◌, inl, inr, some, Option-cases, List, [], ◌∷◌, Text, Any}
use e2e.Base.Maps.{Map, lookup, insert}
use e2e.Run.{done}
use e2e.Run.Inversion.{bind-done, pure-done}
use e2e.Bootstrap.{ExternalKeys}
use e2e.Keys.Agreed.{IsListed, IsListed-uninsert}
use e2e.Keys.{
  KeyStores, provision_external_identity, provision_identities, check_node_did, external_keys,
}

-- The DID is in neither of the two lists.
abbrev pub IsUnlisted : Text → List Text → List Text → Type 0
IsUnlisted node_did pipelines processes =
    ¬ (Any (λ x. x ≡ node_did) pipelines ⊎ Any (λ x. x ≡ node_did) processes)

module _ (stores : KeyStores) (data_dir : Text) where
  provision_identities-IsListed :
      (subject : Text) (subjects : List Text) (keys keys' : Map ExternalKeys) (s s' : stores.Store)
      → provision_identities stores data_dir subjects keys s ≡ (done keys', s')
      → (ext : ExternalKeys) × (lookup subject keys' ≡ some ext)
      → IsListed stores data_dir subject subjects keys
  unfolding provision_identities
  provision_identities-IsListed subject [] keys keys' s s' e found =
      inr (rw ((pure-done keys keys' s s' e).0) found)
  provision_identities-IsListed subject (x ∷ subjects) keys keys' s s' e found =
      let (ext, t, first, rest) =
        bind-done (provision_external_identity stores data_dir x)
          (λ ext. provision_identities stores data_dir subjects (insert x ext keys)) s keys' s' e in
      IsListed-uninsert stores data_dir x ext subject subjects keys
        (provision_identities-IsListed subject subjects (insert x ext keys) keys' t s' rest found)

  check_node_did-found :
      (node_did : Text) (keys : Map ExternalKeys) (s s' : stores.Store)
      → check_node_did stores data_dir node_did keys s ≡ (done tt, s')
      → (ext : ExternalKeys) × (lookup node_did keys ≡ some ext)
  unfolding check_node_did
  check_node_did-found node_did keys s s' e = elim (Option-cases (lookup node_did keys)) [
    | inl missing ↦ absurd (ground (arith, e, missing))
    | inr found ↦ found
  ]

  -- For a DID in neither list, whatever the key stores do, the keys are not handed on.
  pub external_keys-stops :
      (node_did : Text) (pipelines processes : List Text)
      → IsUnlisted node_did pipelines processes
      → (s : stores.Store) (keys : Map ExternalKeys)
      → (external_keys stores data_dir node_did pipelines processes s).0 ≢ done keys
  unfolding external_keys lookup
  external_keys-stops node_did pipelines processes no_list s keys e =
      let run = external_keys stores data_dir node_did pipelines processes s in
      let returned : run ≡ (done keys, run.1) = ap (λ r. (r, run.1)) e in
      let (m, t, first, e1) =
        bind-done (provision_identities stores data_dir pipelines []) _ s keys run.1 returned in
      let (m', t', second, e2) =
        bind-done (provision_identities stores data_dir processes m) _ t keys run.1 e1 in
      let (_, t2, checked, _) =
        bind-done (check_node_did stores data_dir node_did m') _ t' keys run.1 e2 in
      let found = check_node_did-found node_did m' t' t2 checked in
      no_list (elim (provision_identities-IsListed node_did processes m m' t t' second found) [
        | inl proc ↦ inr proc
        | inr was ↦ elim (provision_identities-IsListed node_did pipelines [] m s t first was) [
          | inl pipe ↦ inl pipe
          | inr (ext, none_is) ↦ absurd (ground (arith, none_is))
        ]
      ])
