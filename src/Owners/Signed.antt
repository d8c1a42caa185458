-- ===== src/Owners/Signed.antt =====
-- internal/harness/bootstrap.go: what `signedOwnerDoc` signs and what it returns.
use e2e.Base.{◌≡◌, ◌≢◌, refl, some, [], ◌∷◌, ◌++◌, Text, lit}
use e2e.Base.Maps.{Map, lookup, insert, lookup-insert_same, lookup-insert_other}
use e2e.Run.{done, or_fail}
use e2e.Run.Inversion.{bind-done, or_fail-done}
use e2e.Keys.{signing}
use e2e.Owners.{
  Owner, DocumentFields, Documents, unencoded, unsigned, unmarshalled_proof, unread_proof,
  unmarshalled, method_id, owner_fields, signed_owner_doc,
}

-- A document that the owner has signed. The signed fields have the owner as the document and its
-- controller, and one method, of the owner's key under `#signing`, for assertions; the registered
-- members are the signed ones and the proof.
pub record IsSelfSigned (docs : Documents) (o : Owner) (raw : Text) : Type 0 where
  pub method : docs.Method
  pub proof : docs.Proof
  pub proof_text : Text
  pub proof_value : docs.Value
  pub members : Map docs.Value
  pub fields : DocumentFields docs.Method
  pub id_is : fields.id ≡ o.did
  pub controller_is : fields.controller ≡ o.did
  pub methods_are : fields.verification_method ≡ method ∷ []
  pub assertions_are : fields.assertion_method ≡ (o.did ++ lit "#signing") ∷ []
  pub key_encoded : docs.multikey (o.did ++ lit "#signing") o.did o.public_key ≡ some method
  pub signed :
      docs.create_proof o.key_dir o.did signing
        (o.did ++ lit "#signing")
        (docs.body fields)
        docs.suite
      ≡ some proof
  pub proof_encoded : docs.marshal_proof proof ≡ some proof_text
  pub proof_decoded : docs.unmarshal proof_text ≡ some proof_value
  pub encoded : docs.marshal members ≡ some raw
  pub has_proof : lookup (lit "proof") members ≡ some proof_value
  pub others : (key : Text) → lit "proof" ≢ key → lookup key members ≡ lookup key (docs.body fields)

module _ (docs : Documents) {S : Type 0} where
  -- When `signedOwnerDoc` returns, the text encodes a document with the owner's key as its signing
  -- method and the owner as its controller, whose proof was made by the owner's key over exactly the
  -- other members.
  pub signed_owner_doc-IsSelfSigned :
      (o : Owner) (s s' : S) (raw : Text)
      → signed_owner_doc docs o s ≡ (done raw, s')
      → IsSelfSigned docs o raw
  unfolding signed_owner_doc owner_fields method_id
  signed_owner_doc-IsSelfSigned o s s' raw e =
      let (vm, t, c, e1) =
        bind-done (or_fail (docs.multikey (method_id o) o.did o.public_key) unencoded) _ s raw s'
          e in
      let body = docs.body (owner_fields docs o vm) in
      let (proof, t1, c1, e2) =
        bind-done
          (or_fail (docs.create_proof o.key_dir o.did signing (method_id o) body docs.suite)
            unsigned)
          _ t raw s' e1 in
      let (pb, t2, c2, e3) =
        bind-done (or_fail (docs.marshal_proof proof) unmarshalled_proof) _ t1 raw s' e2 in
      let (pm, t3, c3, e4) = bind-done (or_fail (docs.unmarshal pb) unread_proof) _ t2 raw s' e3 in
      record {
        method = vm;
        proof = proof;
        proof_text = pb;
        proof_value = pm;
        members = insert (lit "proof") pm body;
        fields = owner_fields docs o vm;
        id_is = refl;
        controller_is = refl;
        methods_are = refl;
        assertions_are = refl;
        key_encoded =
            (or_fail-done (docs.multikey (method_id o) o.did o.public_key) unencoded s vm t c).0;
        signed =
            (or_fail-done (docs.create_proof o.key_dir o.did signing (method_id o) body docs.suite)
              unsigned t proof t1 c1).0;
        proof_encoded = (or_fail-done (docs.marshal_proof proof) unmarshalled_proof t1 pb t2 c2).0;
        proof_decoded = (or_fail-done (docs.unmarshal pb) unread_proof t2 pm t3 c3).0;
        encoded =
            (or_fail-done (docs.marshal (insert (lit "proof") pm body)) unmarshalled t3 raw s'
              e4).0;
        has_proof = lookup-insert_same (lit "proof") pm body;
        others = λ key apart. lookup-insert_other (lit "proof") key pm body apart;
      }
