-- ===== src/Tests/Bootstraps.antt =====
-- A bootstrap of a registry, and its theorem at a concrete input.
use e2e.Base.{
  ◌≡◌, ◌↔◌, refl, true, some, List, [], ◌∷◌, ◌++◌, Text, lit, text_eq, text_dec, ℕ_discrete,
}
use e2e.Base.Maps.{Map, lookup}
use e2e.Run.{done, fatal, ◌>>=◌}
use e2e.Bootstrap.{
  ExternalKeys, Request, register_owner, issue_pipeline, issue_process, no_keys, Registry, send,
  issue_one, issue_all, bootstrap_external,
}
use e2e.Bootstrap.Requests.{Bootstrapped, bootstrap_external_iff}

abbrev registry : Registry
registry = record {
  owner_document = some (lit "doc");
  build_delegation = λ subject. some (lit "delegate " ++ subject);
  accepts = λ _. true;
}

abbrev pair_of : Text → ExternalKeys
pair_of name = record {
  auth_public_key = name ++ lit "-auth";
  signing_public_key = name ++ lit "-signing";
}

abbrev external : Map ExternalKeys
external = (lit "pipe", pair_of (lit "pipe")) ∷ (lit "proc", pair_of (lit "proc")) ∷ []

abbrev all_requests : List Request
all_requests =
    register_owner (lit "doc")
    ∷ issue_pipeline (lit "pipe") (lit "delegate " ++ lit "pipe") (pair_of (lit "pipe"))
    ∷ issue_process (lit "proc") (lit "delegate " ++ lit "proc") (pair_of (lit "proc"))
    ∷ []

bootstraps :
    bootstrap_external registry external (lit "pipe" ∷ []) (lit "proc" ∷ []) []
    ≡ (done tt, all_requests)
unfolding bootstrap_external send issue_one issue_all ◌>>=◌ lookup lit text_eq text_dec ℕ_discrete
bootstraps = refl

-- A process without external keys ends the test after the pipelines' requests.
missing_keys :
    bootstrap_external registry external [] (lit "other" ∷ []) []
    ≡ (fatal (no_keys (lit "other")), register_owner (lit "doc") ∷ [])
unfolding bootstrap_external send issue_one issue_all ◌>>=◌ lookup lit text_eq text_dec ℕ_discrete
missing_keys = refl

bootstrap_external_iff_example :
    (bootstrap_external registry external (lit "pipe" ∷ []) (lit "proc" ∷ []) []
      ≡ (done tt, all_requests))
    ↔ Bootstrapped registry external (lit "pipe" ∷ []) (lit "proc" ∷ []) [] all_requests
bootstrap_external_iff_example =
    bootstrap_external_iff registry external (lit "pipe" ∷ []) (lit "proc" ∷ []) [] all_requests
