-- ===== src/PdpStub/Verify.antt =====
-- internal/pdpstub/pdpstub.go: when the stub allows, and what its decision says.
use e2e.Base.{◌≢◌, ◌≡◌, refl, Option, none, some, [], Text, lit, text_eq, arith, ◌↔◌, ◌⊎◌, inl, inr}
use e2e.PdpStub.{VerifyRequest, Decision, Request, json, status, refusal, allow, answer, handler}

-- The request asks for a decision in a well-formed body: both fields are there and are strings.
abbrev pub Asks : (Text → Option VerifyRequest) → Request → Text → Text → Type 0
Asks decode r resource action =
    (r.path ≡ lit "/verify")
    × (r.method ≡ lit "POST")
    × (decode r.body ≡ some (record { resource = some resource; action = some action }))

answer-json :
    (o : Option VerifyRequest) (d : Decision)
    → answer o ≡ json d
    → (o ≡ some (record { resource = some d.resource; action = some d.action }))
      × (d.decision ≡ lit "allow")
      × (d.groups ≡ [])
unfolding answer
answer-json none d h = cc
answer-json (some req) d h = ground arith

answer-refusal :
    (o : Option VerifyRequest)
    → ((resource : Text) × (action : Text) × (o
          ≡ some (record { resource = some resource; action = some action }))
        × (answer o ≡ allow resource action))
      ⊎ (((resource : Text) (action : Text)
            → o ≢ some (record { resource = some resource; action = some action }))
          × (answer o ≡ refusal))
unfolding answer
answer-refusal none = inr (λ resource action e. cc, refl)
answer-refusal (some req) = fields req.resource req.action refl refl
  where
    fields :
        (x y : Option Text)
        → req.resource ≡ x
        → req.action ≡ y
        → ((resource : Text) × (action : Text) × (some req
              ≡ some (record { resource = some resource; action = some action }))
            × (answer (some req) ≡ allow resource action))
          ⊎ (((resource : Text) (action : Text)
                → some req ≢ some (record { resource = some resource; action = some action }))
              × (answer (some req) ≡ refusal))
    fields none y e f = inr (λ resource action g. ground arith, ground arith)
    fields (some x) none e f = inr (λ resource action g. ground arith, ground arith)
    fields (some x) (some y) e f = inl (x, y, ground arith, ground arith)

module _ (decode : Text → Option VerifyRequest) (r : Request) where
  -- The stub answers with a decision exactly if the request is a well-formed POST to /verify. The
  -- decision is then an allow that repeats the request's resource and action, with no groups; no
  -- request is answered with anything else as a decision.
  pub decision_iff :
      (d : Decision)
      → (handler decode r ≡ json d)
        ↔ (Asks decode r d.resource d.action × (d.decision ≡ lit "allow") × (d.groups ≡ []))
  unfolding handler
  decision_iff d = ground (arith, answer-json (decode r.body) d)

  -- A POST to /verify is answered with 200 or 400, and with 400 exactly if the body does not decode or
  -- lacks a field.
  pub refused_iff :
      r.path ≡ lit "/verify"
      → r.method ≡ lit "POST"
      → (status (handler decode r) ≡ 400)
        ↔ ((resource : Text) (action : Text) → ¬ Asks decode r resource action)
  unfolding handler
  refused_iff p m = elim (answer-refusal (decode r.body)) [
    | inl (resource, action, e, f) ↦
        (λ h resource' action' asks. ground arith, λ h. absurd (h resource action (p, m, e)))
    | inr (none_asks, f) ↦
        (λ h resource action asks. none_asks resource action asks.2, λ h. ground arith)
  ]
