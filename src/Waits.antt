-- ===== src/Waits.antt =====
-- The wait loops of internal/harness/node.go, internal/harness/nats.go and
-- internal/harness/compose.go. A round is what one probe answers and how long it took; where a loop
-- ends by `t.Fatalf`, the result says so.
pub mod Ready
pub mod Patience
pub mod Subscribers
pub mod Address
use e2e.Base.{
  ℕ, ◌+◌, ◌*◌, Bool, true, false, ◌||◌, Option, none, some, List, [], ◌∷◌, ◌++◌, Text, lit, ◌==◌,
  nat_eq, text_eq, if◌then◌else◌, trim_space, cut_prefix,
}
use e2e.Base.Strings.{contains_text}
use e2e.Poll.{Round, Ended, wait}

-- What `client.Get` gives: an error, or a status with a body that reads or does not.
pub data Reply : Type 0 where
  failed : Reply
  replied : ℕ → Option Text → Reply

pub record Probe {ℓ} (A : Type ℓ) : Type ℓ where
  pub answer : A
  pub took : ℕ

-- A round of a loop that watches no process.
abbrev pub round_of {ℓ κ} : {A : Type ℓ} {B : Type κ} → (A → Option B) → Probe A → Round B
round_of accept p = record { exited = false; found = accept p.answer; cost = p.took }

unfoldable pub when_true : Bool → Option (Unit {0})
when_true true = some tt
when_true false = none

-- `err == nil` and `resp.StatusCode == http.StatusOK`
unfoldable pub healthy : Reply → Option (Unit {0})
healthy failed = none
healthy (replied status body) = if status == 200 then some tt else none

-- `WaitFor`
unfoldable pub wait_for : ℕ → (ℕ → Probe Bool) → Option (Ended (Unit {0}))
unfolding when_true wait
wait_for timeout fn = wait timeout 250 (λ i. round_of when_true (fn i))

-- `waitHealthy`: before each request the node's exit is looked at.
unfoldable pub wait_healthy : (ℕ → Bool) → (ℕ → Probe Reply) → Option (Ended (Unit {0}))
unfolding healthy wait
wait_healthy exited get =
    wait (90 * 1000) 200
      (λ i. record { exited = exited i; found = healthy (get i).answer; cost = (get i).took })

-- `WaitHTTPHealthy`
unfoldable pub wait_http_healthy : ℕ → (ℕ → Probe Reply) → Option (Ended (Unit {0}))
unfolding healthy wait
wait_http_healthy timeout get = wait timeout 300 (λ i. round_of healthy (get i))

unfoldable pub says_healthy : Text → Reply → Option Text
says_healthy url failed = none
says_healthy url (replied status body) = if status == 200 then some url else none

-- The wait of `StartPDPStub`, which returns the stub's base URL.
unfoldable pub wait_pdp_stub : Text → (ℕ → Probe Reply) → Option (Ended Text)
unfolding says_healthy wait
wait_pdp_stub addr get =
    wait (5 * 1000) 50 (λ i. round_of (says_healthy (lit "http://127.0.0.1" ++ addr)) (get i))

-- `for _, sub := range subsz.Subs`
unfoldable pub has_subject : Text → List Text → Option (Unit {0})
has_subject subject [] = none
has_subject subject (sub ∷ subs) = if sub == subject then some tt else has_subject subject subs

unfoldable pub subscribed : Text → Option (List Text) → Option (Unit {0})
unfolding has_subject
subscribed subject none = none
subscribed subject (some subs) = has_subject subject subs

-- `NATS.WaitForSubscriber`: the broker's subscriptions, or an error of `Subsz`.
unfoldable pub wait_for_subscriber :
    Text → ℕ → (ℕ → Probe (Option (List Text))) → Option (Ended (Unit {0}))
unfolding subscribed wait
wait_for_subscriber subject timeout subsz =
    wait timeout 100 (λ i. round_of (subscribed subject) (subsz i))

-- The subject with a quotation mark on each side.
unfoldable pub quoted : Text → Text
quoted subject = b'"' ∷ (subject ++ b'"' ∷ [])

unfoldable pub body_names : Text → Reply → Option (Unit {0})
unfolding quoted
body_names subject failed = none
body_names subject (replied status none) = none
body_names subject (replied status (some body)) =
    if contains_text body (quoted subject) then some tt else none

-- `WaitForSubscriberHTTP`: the body of the monitoring endpoint, whatever its status.
unfoldable pub wait_for_subscriber_http : Text → ℕ → (ℕ → Probe Reply) → Option (Ended (Unit {0}))
unfolding body_names wait
wait_for_subscriber_http subject timeout get =
    wait timeout 200 (λ i. round_of (body_names subject) (get i))

-- An address behind this host, with the loopback host in its place.
unfoldable pub replace_host : Text → Text → Text
replace_host host addr = elim (cut_prefix addr host) [
  | none ↦ addr
  | some port ↦ lit "127.0.0.1:" ++ port
]

-- The two tests of `Compose.Port`, one after the other.
unfoldable pub dialable : Text → Text
dialable addr = replace_host (lit "[::]:") (replace_host (lit "0.0.0.0:") addr)

unfoldable pub published : Option Text → Option Text
published none = none
published (some out) = if trim_space out == [] then none else some (dialable (trim_space out))

-- `Compose.Port`: each round runs `docker compose port`, which fails or prints.
unfoldable pub port : (ℕ → Probe (Option Text)) → Option (Ended Text)
unfolding published wait
port run = wait (60 * 1000) 500 (λ i. round_of published (run i))
