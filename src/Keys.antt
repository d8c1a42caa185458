-- ===== src/Keys.antt =====
-- The keys that the harness makes: `ProvisionPipelineKey` and `ProvisionExternalIdentity` of
-- internal/harness/separated.go, and the loops of internal/harness/env.go over a node's DIDs.
pub mod Stored
pub mod Agreed
pub mod Unlisted
use e2e.Base.{Bool, true, false, Option, none, some, List, [], ◌∷◌, Text, lit, if◌then◌else◌}
use e2e.Base.Maps.{Map, lookup, insert}
use e2e.Run.{Run, done, fatal, ◌>>=◌, ◌>>◌, pure, or_fail}
use e2e.Disk.{join}
use e2e.Bootstrap.{ExternalKeys}

-- `crypto.KeyPair`
pub record KeyPair : Type 0 where
  pub public_key : Text
  pub private_key : Text

-- `keystore.KeyIDAuth` and `keystore.KeyIDSigning`
pub data KeyId : Type 0 where
  auth : KeyId
  signing : KeyId

-- Packages ed25519 and filestore of provin.oss, which are not part of this repository: a generator
-- and the key stores, each named by its directory. `public_of` is the public half that a store holds, and
-- `remove_below` is what a removal of a directory leaves of the stores.
pub record KeyStores : Type 1 where
  pub Store : Type 0
  pub generate : Store → Option KeyPair × Store
  pub save : Text → Text → List (KeyId × KeyPair) → Store → Bool × Store
  pub public_of : Text → Text → KeyId → Store → Option Text
  pub remove_below : Text → Store → Store

-- The calls of `t.Fatalf`.
pub data KeyFault : Type 0 where
  no_key : Text → KeyFault
  unsaved : Text → KeyFault
  unlisted : Text → KeyFault

module _ (stores : KeyStores) where
  -- `(ed25519.Generator{}).Generate()`
  unfoldable pub generate_for : Text → Run KeyFault stores.Store KeyPair
  generate_for subject s = let (kp, s') = stores.generate s in or_fail kp (no_key subject) s'

  -- `filestore.New(dir).SaveKeyPair(subject, pairs)`
  unfoldable pub save_pairs :
      Text → Text → List (KeyId × KeyPair) → Run KeyFault stores.Store (Unit {0})
  save_pairs dir subject pairs s =
      let (ok, s') = stores.save dir subject pairs s in
      (if ok then done tt else fatal (unsaved subject), s')

  -- `ProvisionPipelineKey`
  unfoldable pub provision_pipeline_key : Text → Text → Run KeyFault stores.Store Text
  provision_pipeline_key data_dir subject = do
    kp ← generate_for subject
    save_pairs (join data_dir (lit "keys")) subject ((auth, kp) ∷ [])
    pure kp.public_key

  -- `ProvisionExternalIdentity`
  unfoldable pub provision_external_identity : Text → Text → Run KeyFault stores.Store ExternalKeys
  provision_external_identity data_dir subject = do
    auth_kp ← generate_for subject
    sign_kp ← generate_for subject
    save_pairs (join data_dir (lit "keys")) subject ((auth, auth_kp) ∷ (signing, sign_kp) ∷ [])
    pure (record { auth_public_key = auth_kp.public_key; signing_public_key = sign_kp.public_key })

  module _ (data_dir : Text) where
    -- `extKeys[d] = ProvisionExternalIdentity(t, pipelineDataDir, d)`, over a list of DIDs.
    unfoldable pub provision_identities :
        List Text → Map ExternalKeys → Run KeyFault stores.Store (Map ExternalKeys)
    provision_identities [] keys = pure keys
    provision_identities (subject ∷ subjects) keys = do
      ext ← provision_external_identity data_dir subject
      provision_identities subjects (insert subject ext keys)

    -- `if _, ok := extKeys[spec.NodeDID]; !ok`
    unfoldable pub check_node_did : Text → Map ExternalKeys → Run KeyFault stores.Store (Unit {0})
    check_node_did node_did keys s = elim (lookup node_did keys) [
      | none ↦ (fatal (unlisted node_did), s)
      | some _ ↦ (done tt, s)
    ]

    -- The two loops, and the check of the node's own DID.
    unfoldable pub external_keys :
        Text → List Text → List Text → Run KeyFault stores.Store (Map ExternalKeys)
    external_keys node_did pipelines processes = do
      first ← provision_identities pipelines []
      keys ← provision_identities processes first
      check_node_did node_did keys
      pure keys
