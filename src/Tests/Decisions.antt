-- ===== src/Tests/Decisions.antt =====
-- internal/pdpstub/pdpstub_test.go: its cases, and the theorems of PdpStub.
use e2e.Base.{
  ◌∷◌, ◌≡◌, ◌↔◌, refl, Option, none, some, [], ◌∷◌, Text, lit, text_eq, text_dec, ℕ_discrete,
}
use e2e.PdpStub.{VerifyRequest, Decision, Request, json, status, handler}
use e2e.PdpStub.Verify.{Asks, decision_iff, refused_iff}

-- A decoder that reads one body.
abbrev decode : Text → Option VerifyRequest
decode [] = none
decode (c ∷ body) = some (record { resource = some (lit "dids"); action = some (lit "read") })

abbrev ask : Request
ask = record { method = lit "POST"; path = lit "/verify"; body = lit "{}" }

abbrev allowed : Decision
allowed = record { resource = lit "dids"; action = lit "read"; decision = lit "allow"; groups = [] }

echo : handler decode ask ≡ json allowed
unfolding handler lit text_eq text_dec ℕ_discrete
echo = refl

decision_iff_example : (handler decode ask ≡ json allowed) ↔ (
    Asks decode ask (lit "dids") (lit "read") × (lit "allow" ≡ lit "allow") × (allowed.groups ≡ []))
decision_iff_example = decision_iff decode ask allowed

refused_iff_example :
    (status (handler decode (record ask { body = [] })) ≡ 400)
    ↔ ((resource : Text) (action : Text) → ¬ Asks decode (record ask { body = [] }) resource action)
refused_iff_example = refused_iff decode (record ask { body = [] }) refl refl
