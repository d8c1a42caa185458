-- ===== src/Owners.antt =====
-- internal/harness/bootstrap.go: the pipeline owner, its key and its self-signed DID document.
pub mod Signed
use e2e.Base.{Bool, Option, List, [], ◌∷◌, ◌++◌, Text, lit}
use e2e.Base.Maps.{Map, insert}
use e2e.Run.{Run, ◌>>=◌, ◌>>◌, pure, or_fail}
use e2e.Keys.{KeyPair, KeyId, signing, KeyStores, KeyFault, generate_for, save_pairs}

-- `Owner`. Its signer is the key store in `key_dir`.
pub record Owner : Type 0 where
  pub did : Text
  pub key_dir : Text
  pub public_key : Text

-- `NewOwner`. `temp_dir` is the directory that the test has been given.
unfoldable pub new_owner : (stores : KeyStores) → Text → Text → Run KeyFault stores.Store Owner
new_owner stores temp_dir owner_did = do
  kp ← generate_for stores owner_did
  save_pairs stores temp_dir owner_did ((signing, kp) ∷ [])
  pure (record { did = owner_did; key_dir = temp_dir; public_key = kp.public_key })

-- `did.DocumentFields`
pub record DocumentFields (Method : Type 0) : Type 0 where
  pub context : List Text
  pub id : Text
  pub controller : Text
  pub verification_method : List Method
  pub assertion_method : List Text

-- Packages did and vc of provin.oss, which are not part of this repository, and encoding/json: how a
-- key is encoded, the members of a document, a proof over members by the key of a store, and the
-- encoder and decoder.
pub record Documents : Type 1 where
  pub Method : Type 0
  pub Value : Type 0
  pub Proof : Type 0
  pub contexts : List Text
  pub suite : Text
  pub multikey : Text → Text → Text → Option Method
  pub body : DocumentFields Method → Map Value
  pub create_proof : Text → Text → KeyId → Text → Map Value → Text → Option Proof
  pub marshal_proof : Proof → Option Text
  pub unmarshal : Text → Option Value
  pub marshal : Map Value → Option Text

-- The calls of `t.Fatalf`.
pub data OwnerFault : Type 0 where
  unencoded : OwnerFault
  unsigned : OwnerFault
  unmarshalled_proof : OwnerFault
  unread_proof : OwnerFault
  unmarshalled : OwnerFault

-- `o.DID+"#signing"`
unfoldable pub method_id : Owner → Text
method_id o = o.did ++ lit "#signing"

module _ (docs : Documents) where
  unfoldable pub owner_fields : Owner → docs.Method → DocumentFields docs.Method
  unfolding method_id
  owner_fields o vm = record {
    context = docs.contexts;
    id = o.did;
    controller = o.did;
    verification_method = vm ∷ [];
    assertion_method = method_id o ∷ [];
  }

  -- `Owner.signedOwnerDoc`
  unfoldable pub signed_owner_doc : {S : Type 0} → Owner → Run OwnerFault S Text
  signed_owner_doc o = do
    vm ← or_fail (docs.multikey (method_id o) o.did o.public_key) unencoded
    let body = docs.body (owner_fields o vm)
    proof ←
        or_fail (docs.create_proof o.key_dir o.did signing (method_id o) body docs.suite) unsigned
    pb ← or_fail (docs.marshal_proof proof) unmarshalled_proof
    pm ← or_fail (docs.unmarshal pb) unread_proof
    or_fail (docs.marshal (insert (lit "proof") pm body)) unmarshalled
