-- ===== src/Keys/Stored.antt =====
-- internal/harness/separated.go: the key stores, and what a provisioned identity leaves in one.
use e2e.Base.{◌≡◌, ◌≢◌, refl, ap, ◌∙◌, true, Option, none, some, List, [], ◌∷◌, Text, lit, text_eq}
use e2e.Base.Maps.{Map, lookup}
use e2e.Run.{done}
use e2e.Run.Inversion.{bind-done, or_fail-done, verdict-done, pure-done}
use e2e.Disk.{join}
use e2e.Bootstrap.{ExternalKeys}
use e2e.Keys.{
  KeyPair, KeyId, auth, signing, KeyStores, no_key, unsaved, generate_for, save_pairs,
  provision_external_identity,
}

-- The pair that is saved under an id.
abbrev pub saved : KeyId → List (KeyId × KeyPair) → Option KeyPair
saved auth ((auth, kp) ∷ pairs) = some kp
saved signing ((signing, kp) ∷ pairs) = some kp
saved id (_ ∷ pairs) = saved id pairs
saved id [] = none

-- What is relied on: a save that succeeds keeps the pairs under their ids and leaves the subject's
-- neighbours and the other stores, and to generate a pair leaves every store.
pub record IsLawful (stores : KeyStores) : Type 0 where
  pub generate-public_of :
      (dir subject : Text) (id : KeyId) (s : stores.Store)
      → stores.public_of dir subject id (stores.generate s).1 ≡ stores.public_of dir subject id s
  pub save-public_of :
      (dir subject : Text) (pairs : List (KeyId × KeyPair)) (id : KeyId) (kp : KeyPair)
      (s : stores.Store)
      → (stores.save dir subject pairs s).0 ≡ true
      → saved id pairs ≡ some kp
      → stores.public_of dir subject id (stores.save dir subject pairs s).1 ≡ some kp.public_key
  pub save-other :
      (dir subject other : Text) (pairs : List (KeyId × KeyPair)) (id : KeyId) (s : stores.Store)
      → subject ≢ other
      → stores.public_of dir other id (stores.save dir subject pairs s).1
        ≡ stores.public_of dir other id s
  pub save-elsewhere :
      (dir dir' subject other : Text) (pairs : List (KeyId × KeyPair)) (id : KeyId)
      (s : stores.Store)
      → dir ≢ dir'
      → stores.public_of dir' other id (stores.save dir subject pairs s).1
        ≡ stores.public_of dir' other id s

module _ (stores : KeyStores) (data_dir : Text) where
  -- The store of the node holds exactly the public halves that are to be submitted.
  abbrev pub Holds : Text → ExternalKeys → stores.Store → Type 0
  Holds subject ext s =
      (stores.public_of (join data_dir (lit "keys")) subject auth s ≡ some ext.auth_public_key)
      × (stores.public_of (join data_dir (lit "keys")) subject signing s
          ≡ some ext.signing_public_key)

  abbrev pub IsAgreed : Map ExternalKeys → stores.Store → Type 0
  IsAgreed keys s =
      (subject : Text) (ext : ExternalKeys) → lookup subject keys ≡ some ext → Holds subject ext s

  pub generate_for-done :
      (subject : Text) (s s' : stores.Store) (kp : KeyPair)
      → generate_for stores subject s ≡ (done kp, s')
      → s' ≡ (stores.generate s).1
  unfolding generate_for
  generate_for-done subject s s' kp e =
      (or_fail-done (stores.generate s).0 (no_key subject) (stores.generate s).1 kp s' e).1

  pub save_pairs-done :
      (dir subject : Text) (pairs : List (KeyId × KeyPair)) (s s' : stores.Store)
      → save_pairs stores dir subject pairs s ≡ (done tt, s')
      → ((stores.save dir subject pairs s).0 ≡ true) × (s' ≡ (stores.save dir subject pairs s).1)
  unfolding save_pairs
  save_pairs-done dir subject pairs s s' e =
      verdict-done (stores.save dir subject pairs s).0 (unsaved subject)
        (stores.save dir subject pairs s).1 s' e

  -- A new identity is held, and the others stay.
  pub provision_external_identity-done :
      IsLawful stores
      → (subject : Text) (s s' : stores.Store) (ext : ExternalKeys)
      → provision_external_identity stores data_dir subject s ≡ (done ext, s')
      → Holds subject ext s'
        × ((other : Text) (old : ExternalKeys)
            → subject ≢ other
            → Holds other old s
            → Holds other old s')
  unfolding provision_external_identity
  provision_external_identity-done law subject s s' ext e =
      let dir = join data_dir (lit "keys") in
      let (a, t, made, e1) = bind-done (generate_for stores subject) _ s ext s' e in
      let (b, t1, made1, e2) = bind-done (generate_for stores subject) _ t ext s' e1 in
      let pairs = (auth, a) ∷ (signing, b) ∷ [] in
      let (_, t2, stored, e3) = bind-done (save_pairs stores dir subject pairs) _ t1 ext s' e2 in
      let (ok, t2_is) = save_pairs-done dir subject pairs t1 t2 stored in
      let (ext_is, s'_is) =
        pure-done (record { auth_public_key = a.public_key; signing_public_key = b.public_key }) ext
          t2 s' e3 in
      let after = s'_is ∙ t2_is in
      (
        (
          ap (stores.public_of dir subject auth) after
              ∙ (law.save-public_of dir subject pairs auth a t1 ok refl
                  ∙ ap (λ x. some x.auth_public_key) ext_is),
          ap (stores.public_of dir subject signing) after
              ∙ (law.save-public_of dir subject pairs signing b t1 ok refl
                  ∙ ap (λ x. some x.signing_public_key) ext_is),
        ),
        λ other old apart held.
            let same = λ (id : KeyId).
              ap (stores.public_of dir other id) after
              ∙ (law.save-other dir subject other pairs id t1 apart
                  ∙ (ap (stores.public_of dir other id) (generate_for-done subject t t1 b made1)
                      ∙ (law.generate-public_of dir other id t
                          ∙ (ap (stores.public_of dir other id)
                                (generate_for-done subject s t a made)
                              ∙ law.generate-public_of dir other id s)))) in
            (same auth ∙ held.0, same signing ∙ held.1),
      )
