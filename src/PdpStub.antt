-- ===== src/PdpStub.antt =====
-- internal/pdpstub/pdpstub.go: the allow-all policy verifier that the nodes are configured against.
pub mod Verify
use e2e.Base.{
  ℕ, Bool, true, false, ◌&&◌, ◌||◌, Option, none, some, List, [], Text, lit, ◌==◌, text_eq,
  if◌then◌else◌,
}

-- `verifyRequest`: a field is nil when the body lacks it or holds null.
pub record VerifyRequest : Type 0 where
  pub resource : Option Text
  pub action : Option Text

-- `decision`, with its `reason`
pub record Decision : Type 0 where
  pub resource : Text
  pub action : Text
  pub decision : Text
  pub groups : List (Unit {0})

pub record Request : Type 0 where
  pub method : Text
  pub path : Text
  pub body : Text

-- What the stub writes: a decision as JSON, a status alone, or an error in plain text.
pub data Response : Type 0 where
  json : Decision → Response
  empty : ℕ → Response
  error : ℕ → Text → Response

abbrev pub status : Response → ℕ
status (json d) = 200
status (empty code) = code
status (error code message) = code

abbrev pub refusal : Response
refusal = error 400 (lit "want a JSON object with string resource and action")

abbrev pub allow : Text → Text → Response
allow resource action =
    json (record { resource = resource; action = action; decision = lit "allow"; groups = [] })

-- The checks and the answer of `POST /verify`, on the decoder's result: `none` is its error.
unfoldable pub answer : Option VerifyRequest → Response
answer none = refusal
answer (some req) = elim req.resource [
  | none ↦ refusal
  | some resource ↦ elim req.action [ none ↦ refusal | some action ↦ allow resource action ]
]

-- `Handler`. `decode` is what `json.NewDecoder(r.Body).Decode` makes of a body. The mux knows two
-- patterns; GET also matches HEAD. A known path with another method is 405, another path 404. The
-- path is in the clean form to which the mux redirects all others.
unfoldable pub handler : (Text → Option VerifyRequest) → Request → Response
unfolding answer
handler decode r =
    if r.path == lit "/verify"
    then (if r.method == lit "POST"
        then answer (decode r.body)
        else error 405 (lit "Method Not Allowed"))
    else if r.path == lit "/healthz"
    then (if r.method == lit "GET" || r.method == lit "HEAD"
        then empty 200
        else error 405 (lit "Method Not Allowed"))
    else error 404 (lit "404 page not found")
