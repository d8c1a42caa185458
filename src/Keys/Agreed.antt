-- ===== src/Keys/Agreed.antt =====
-- internal/harness/separated.go and internal/harness/env.go: the keys that are submitted are those
-- that the node signs with.
use e2e.Base.{
  ◌≡◌, ◌≢◌, sym, ◌∙◌, arith, ◌⊎◌, ◌↔◌, inl, inr, some, Option-cases, List, [], ◌∷◌, Text, text_eq,
  Any,
}
use e2e.Base.Maps.{
  Map, lookup, insert, lookup-insert_same, lookup-insert_other, lookup-insert_cases,
}
use e2e.Run.{done}
use e2e.Run.Inversion.{bind-done, pure-done}
use e2e.Bootstrap.{ExternalKeys}
use e2e.Keys.Stored.{IsLawful, Holds, IsAgreed, provision_external_identity-done}
use e2e.Keys.{
  KeyStores, provision_external_identity, provision_identities, check_node_did, external_keys,
}

module _ (stores : KeyStores) (data_dir : Text) where
  -- The DID is in the list, or has keys already.
  abbrev pub IsListed : Text → List Text → Map ExternalKeys → Type 0
  IsListed subject subjects keys =
      Any (λ x. x ≡ subject) subjects ⊎ ((ext : ExternalKeys) × (lookup subject keys ≡ some ext))

  IsListed-insert :
      (x : Text) (ext : ExternalKeys) (subject : Text) (subjects : List Text)
      (keys : Map ExternalKeys)
      → IsListed subject (x ∷ subjects) keys
      → IsListed subject subjects (insert x ext keys)
  IsListed-insert x ext subject subjects keys (inl (inl this)) =
      inr (ext, rw (← this) (lookup-insert_same x ext keys))
  IsListed-insert x ext subject subjects keys (inl (inr later)) = inl later
  IsListed-insert x ext subject subjects keys (inr (old, was)) = elim (text_eq.dec x subject) [
    | yes same ↦ inr (ext, rw (← same) (lookup-insert_same x ext keys))
    | no apart ↦ inr (old, lookup-insert_other x subject ext keys apart ∙ was)
  ]

  pub IsListed-uninsert :
      (x : Text) (ext : ExternalKeys) (subject : Text) (subjects : List Text)
      (keys : Map ExternalKeys)
      → IsListed subject subjects (insert x ext keys)
      → IsListed subject (x ∷ subjects) keys
  IsListed-uninsert x ext subject subjects keys (inl later) = inl (inr later)
  IsListed-uninsert x ext subject subjects keys (inr (found, e)) =
      elim (lookup-insert_cases x subject ext found keys e) [
        | inl (same, _) ↦ inl (inl same)
        | inr (_, was) ↦ inr (found, was)
      ]

  Holds-insert :
      (subject : Text) (ext : ExternalKeys) (keys : Map ExternalKeys) (s s' : stores.Store)
      → Holds stores data_dir subject ext s'
      → ((other : Text) (old : ExternalKeys)
          → subject ≢ other
          → Holds stores data_dir other old s
          → Holds stores data_dir other old s')
      → IsAgreed stores data_dir keys s
      → IsAgreed stores data_dir (insert subject ext keys) s'
  Holds-insert subject ext keys s s' new others before other found e =
      elim (lookup-insert_cases subject other ext found keys e) [
        | inl (same, is_ext) ↦ rw (← same, ← is_ext) new
        | inr (apart, was) ↦ others other found apart (before other found was)
      ]

  -- What the loop leaves: the keys agree, every DID of the list has some, and only those and the DIDs
  -- that had some before.
  provision_identities-done :
      IsLawful stores
      → (subjects : List Text) (keys keys' : Map ExternalKeys) (s s' : stores.Store)
      → provision_identities stores data_dir subjects keys s ≡ (done keys', s')
      → IsAgreed stores data_dir keys s
      → IsAgreed stores data_dir keys' s'
        × ((subject : Text)
            → IsListed subject subjects keys
              ↔ ((ext : ExternalKeys) × (lookup subject keys' ≡ some ext)))
  unfolding provision_identities
  provision_identities-done law [] keys keys' s s' e before =
      let (keys_is, s'_is) = pure-done keys keys' s s' e in
      (
        rw (← keys_is, s'_is) before,
        λ subject. (
          λ here. elim here [ inl met ↦ absurd met | inr was ↦ rw (← keys_is) was ],
          λ found. inr (rw keys_is found),
        ),
      )
  provision_identities-done law (x ∷ subjects) keys keys' s s' e before =
      let (ext, t, first, rest) =
        bind-done (provision_external_identity stores data_dir x)
          (λ ext. provision_identities stores data_dir subjects (insert x ext keys)) s keys' s' e in
      let (new, others) = provision_external_identity-done stores data_dir law x s t ext first in
      let (after, listed) =
        provision_identities-done law subjects (insert x ext keys) keys' t s' rest
          (Holds-insert x ext keys s t new others before) in
      (
        after,
        λ subject. (
          λ here. (listed subject).0 (IsListed-insert x ext subject subjects keys here),
          λ found. IsListed-uninsert x ext subject subjects keys ((listed subject).1 found),
        ),
      )

  none-IsAgreed : (s : stores.Store) → IsAgreed stores data_dir [] s
  unfolding lookup
  none-IsAgreed s subject ext found = absurd (ground (arith, found))

  -- The two loops, one after the other.
  either_list :
      (subject : Text) (pipelines processes : List Text) (keys keys' : Map ExternalKeys)
      → IsListed subject pipelines [] ↔ ((ext : ExternalKeys) × (lookup subject keys ≡ some ext))
      → IsListed subject processes keys ↔ ((ext : ExternalKeys) × (lookup subject keys' ≡ some ext))
      → (Any (λ x. x ≡ subject) pipelines ⊎ Any (λ x. x ≡ subject) processes)
        ↔ ((ext : ExternalKeys) × (lookup subject keys' ≡ some ext))
  unfolding lookup
  either_list subject pipelines processes keys keys' first second = (
    λ here. elim here [
      | inl pipe ↦ second.0 (inr (first.0 (inl pipe)))
      | inr proc ↦ second.0 (inl proc)
    ],
    λ found. elim (second.1 found) [
      | inl proc ↦ inr proc
      | inr was ↦ elim (first.1 was) [
        | inl pipe ↦ inl pipe
        | inr (ext, e) ↦ absurd (ground (arith, e))
      ]
    ],
  )

  check_node_did-done :
      (node_did : Text) (keys : Map ExternalKeys) (s s' : stores.Store)
      → check_node_did stores data_dir node_did keys s ≡ (done tt, s')
      → ((ext : ExternalKeys) × (lookup node_did keys ≡ some ext)) × (s' ≡ s)
  unfolding check_node_did
  check_node_did-done node_did keys s s' e = elim (Option-cases (lookup node_did keys)) [
    | inl missing ↦ absurd (ground (arith, e, missing))
    | inr (ext, found) ↦ let same : s ≡ s' = ground (arith, e, found) in ((ext, found), sym same)
  ]

  -- When the two loops and the check return: the key store of the node holds exactly the public halves
  -- that are to be submitted for each DID, also for one that is listed twice; the pipelines and the
  -- processes are exactly the DIDs with keys; and the node's own DID is one of them.
  pub external_keys-IsAgreed :
      IsLawful stores
      → (node_did : Text) (pipelines processes : List Text) (keys : Map ExternalKeys)
        (s s' : stores.Store)
      → external_keys stores data_dir node_did pipelines processes s ≡ (done keys, s')
      → IsAgreed stores data_dir keys s'
        × ((subject : Text)
            → (Any (λ x. x ≡ subject) pipelines ⊎ Any (λ x. x ≡ subject) processes)
              ↔ ((ext : ExternalKeys) × (lookup subject keys ≡ some ext)))
        × (Any (λ x. x ≡ node_did) pipelines ⊎ Any (λ x. x ≡ node_did) processes)
  unfolding external_keys
  external_keys-IsAgreed law node_did pipelines processes keys s s' e =
      let (m, t, first, e1) =
        bind-done (provision_identities stores data_dir pipelines []) _ s keys s' e in
      let (m', t', second, e2) =
        bind-done (provision_identities stores data_dir processes m) _ t keys s' e1 in
      let (_, t2, checked, e3) =
        bind-done (check_node_did stores data_dir node_did m') _ t' keys s' e2 in
      let (found, t2_is) = check_node_did-done node_did m' t' t2 checked in
      let (keys_is, s'_is) = pure-done m' keys t2 s' e3 in
      let (agreed, listed) =
        provision_identities-done law pipelines [] m s t first (none-IsAgreed s) in
      let (agreed', listed') = provision_identities-done law processes m m' t t' second agreed in
      let both = λ (subject : Text).
        either_list subject pipelines processes m m' (listed subject) (listed' subject) in
      (rw (← keys_is, s'_is, t2_is) agreed', rw (← keys_is) both, (both node_did).1 found)
