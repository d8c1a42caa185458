-- ===== src/Tests/Keyrings.antt =====
-- Key stores as functions, a run of the key loops over them, and the theorems at a concrete input.
use e2e.Base.{
  has_prefix, ◌++◌, ◌≡◌, ◌≢◌, refl, ◌⊎◌, ◌↔◌, ℕ, suc, ◌+◌, true, Option, none, some, List, [], ◌∷◌,
  Text, lit, text_eq, text_dec, ℕ_discrete, Any, ◌==◌, ◌&&◌, if◌then◌else◌, arith,
}
use e2e.Base.Maps.{Map, lookup, insert}
use e2e.Run.{done, ◌>>=◌}
use e2e.Disk.{join}
use e2e.Bootstrap.{ExternalKeys}
use e2e.Keys.{
  KeyPair, KeyId, KeyStores, generate_for, save_pairs, provision_external_identity,
  provision_identities, check_node_did, external_keys,
}
use e2e.Keys.Stored.{saved, IsLawful, IsAgreed}
use e2e.Keys.Agreed.{external_keys-IsAgreed}

-- How many pairs have been made, and the public halves.
abbrev pub Ring : Type 0
Ring = ℕ × (Text → Text → KeyId → Option Text)

unfoldable pub kept : Option KeyPair → Option Text → Option Text
kept (some kp) old = some kp.public_key
kept none old = old

unfoldable pub put : Text → Text → List (KeyId × KeyPair) → Ring → Ring
unfolding kept
put dir subject pairs (n, old) = (
  n,
  λ d s id. if subject == s && dir == d then kept (saved id pairs) (old d s id) else old d s id,
)

abbrev pub stores : KeyStores
stores = record {
  Store = Ring;
  generate = λ ring. (
    some (record { public_key = (ring.0 + 65) ∷ []; private_key = (ring.0 + 97) ∷ [] }),
    (suc ring.0, ring.1),
  );
  save = λ dir subject pairs ring. (true, put dir subject pairs ring);
  public_of = λ dir subject id ring. ring.1 dir subject id;
  remove_below =
      λ dir ring. (ring.0, λ d s id. if has_prefix d (dir ++ lit "/") then none else ring.1 d s id);
}

put_same :
    (dir subject : Text) (pairs : List (KeyId × KeyPair)) (id : KeyId) (kp : KeyPair) (ring : Ring)
    → saved id pairs ≡ some kp
    → (put dir subject pairs ring).1 dir subject id ≡ some kp.public_key
unfolding put kept
put_same dir subject pairs id kp (n, old) e = ground (arith, e)

put_other :
    (dir subject other : Text) (pairs : List (KeyId × KeyPair)) (id : KeyId) (ring : Ring)
    → subject ≢ other
    → (put dir subject pairs ring).1 dir other id ≡ ring.1 dir other id
unfolding put
put_other dir subject other pairs id (n, old) apart = ground (arith, apart)

put_elsewhere :
    (dir dir' subject other : Text) (pairs : List (KeyId × KeyPair)) (id : KeyId) (ring : Ring)
    → dir ≢ dir'
    → (put dir subject pairs ring).1 dir' other id ≡ ring.1 dir' other id
unfolding put
put_elsewhere dir dir' subject other pairs id (n, old) apart = ground (arith, apart)

pub stores_IsLawful : IsLawful stores
stores_IsLawful = record {
  generate-public_of = λ dir subject id s. refl;
  save-public_of = λ dir subject pairs id kp s ok e. put_same dir subject pairs id kp s e;
  save-other = λ dir subject other pairs id s apart. put_other dir subject other pairs id s apart;
  save-elsewhere = λ dir dir' subject other pairs id s apart.
      put_elsewhere dir dir' subject other pairs id s apart;
}

abbrev pipelines : List Text
pipelines = lit "p" ∷ []

abbrev processes : List Text
processes = lit "q" ∷ lit "p" ∷ []

abbrev pub empty : Ring
empty = (0, λ _ _ _. none)

-- The keys of `p` are made twice.
abbrev made : Map ExternalKeys
made =
    (lit "p", record { auth_public_key = lit "E"; signing_public_key = lit "F" })
    ∷ (lit "q", record { auth_public_key = lit "C"; signing_public_key = lit "D" })
    ∷ []

abbrev after : Ring
after = (external_keys stores (lit "/d") (lit "q") pipelines processes empty).1

provisions :
    external_keys stores (lit "/d") (lit "q") pipelines processes empty ≡ (done made, after)
unfolding external_keys provision_identities provision_external_identity check_node_did generate_for
    save_pairs put kept insert lookup join ◌>>=◌ lit text_eq text_dec ℕ_discrete
provisions = refl

external_keys-IsAgreed_example :
    IsAgreed stores (lit "/d") made after
    × ((subject : Text)
        → (Any (λ x. x ≡ subject) pipelines ⊎ Any (λ x. x ≡ subject) processes)
          ↔ ((ext : ExternalKeys) × (lookup subject made ≡ some ext)))
    × (Any (λ x. x ≡ lit "q") pipelines ⊎ Any (λ x. x ≡ lit "q") processes)
external_keys-IsAgreed_example =
    external_keys-IsAgreed stores (lit "/d") stores_IsLawful (lit "q") pipelines processes made
      empty after provisions
