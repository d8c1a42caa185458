-- ===== src/Waits/Subscribers.antt =====
-- internal/harness/nats.go, internal/harness/compose.go: when a subject counts as subscribed.
use e2e.Base.{
  ℕ, ◌≤◌, ◌<◌, ◌≡◌, Option, none, some, Text, arith, List, [], ◌∷◌, ◌++◌, Any, text_eq, ◌↔◌,
}
use e2e.Base.Strings.{contains_text_sound, contains_text-append}
use e2e.Poll.{Ended, got, timed_out, died, wait}
use e2e.Poll.Deadline.{wait_ends, EndsBy}
use e2e.Waits.Ready.{IsOk, sent_at}
use e2e.Waits.{
  healthy, wait_http_healthy, Probe, Reply, failed, replied, round_of, has_subject, subscribed,
  wait_for_subscriber, quoted, body_names, wait_for_subscriber_http,
}

-- The broker answered, and a subscription is on the subject.
abbrev pub Lists : Text → Option (List Text) → Type 0
Lists subject none = ⊥
Lists subject (some subs) = Any (λ sub. sub ≡ subject) subs

-- The endpoint answered with a body in which the subject stands between quotation marks.
abbrev pub Names : Text → Reply → Type 0
Names subject failed = ⊥
Names subject (replied status none) = ⊥
Names subject (replied status (some body)) =
    (before : Text) × (after : Text) × (body ≡ before ++ (quoted subject ++ after))

has_subject_iff :
    (subject : Text) (subs : List Text)
    → (has_subject subject subs ≡ some tt) ↔ Any (λ sub. sub ≡ subject) subs
unfolding has_subject
has_subject_iff subject [] = (λ h. cc, λ h. absurd h)
has_subject_iff subject (sub ∷ subs) = ground (arith, has_subject_iff subject subs)

subscribed_iff :
    (subject : Text) (subsz : Option (List Text))
    → (subscribed subject subsz ≡ some tt) ↔ Lists subject subsz
unfolding subscribed
subscribed_iff subject none = (λ h. cc, λ h. absurd h)
subscribed_iff subject (some subs) = has_subject_iff subject subs

body_names_iff :
    (subject : Text) (reply : Reply) → (body_names subject reply ≡ some tt) ↔ Names subject reply
unfolding body_names
body_names_iff subject failed = (λ h. cc, λ h. absurd h)
body_names_iff subject (replied status none) = (λ h. cc, λ h. absurd h)
body_names_iff subject (replied status (some body)) = (
  λ h. contains_text_sound body (quoted subject) (ground arith),
  λ (before, after, e). rw (e, contains_text-append before (quoted subject) after),
)

-- How a wait ends that no process can cut short: at the first good answer, to a request that was sent
-- before the deadline, or when request `k` would be sent at the deadline or later, with no good one.
abbrev pub FirstEnd :
    {A : Type 0} → (A → Type 0) → ℕ → ℕ → (ℕ → Probe A) → Ended (Unit {0}) → Type 0
FirstEnd Good timeout pause probes (got _ t) =
    (k : ℕ) × Good (probes k).answer
    × ((j : ℕ) → j < k → ¬ Good (probes j).answer)
    × (sent_at pause probes k < timeout)
FirstEnd Good timeout pause probes (timed_out t) =
    (k : ℕ) × (t ≡ sent_at pause probes k)
    × (timeout ≤ t)
    × ((j : ℕ) → j < k → ¬ Good (probes j).answer)
    × ((j : ℕ) → j < k → sent_at pause probes j < timeout)
FirstEnd Good timeout pause probes (died t) = ⊥

module _ {A : Type 0} (accept : A → Option (Unit {0})) (Good : A → Type 0)
    (exact : (a : A) → (accept a ≡ some tt) ↔ Good a) where
  refused : (a : A) → accept a ≡ none → ¬ Good a
  refused a h good = cc (h, (exact a).1 good)

  FirstEnd-EndsBy :
      (timeout pause : ℕ) (probes : ℕ → Probe A) (r : Ended (Unit {0}))
      → EndsBy timeout pause (λ i. round_of accept (probes i)) r
      → FirstEnd Good timeout pause probes r
  FirstEnd-EndsBy timeout pause probes (got u t) (k, alive, found, quiet, early, at) =
      (k, (exact (probes k).answer).0 found, λ j h. refused (probes j).answer (quiet j h).1, early)
  FirstEnd-EndsBy timeout pause probes (timed_out t) (k, at, late, quiet, early) =
      (k, at, late, λ j h. refused (probes j).answer (quiet j h).1, early)
  FirstEnd-EndsBy timeout pause probes (died t) (k, at, early, dead, quiet) = cc

  pub first_end :
      (timeout pause : ℕ) (probes : ℕ → Probe A)
      → 0 < pause
      → (r : Ended (Unit {0})) × (wait timeout pause (λ i. round_of accept (probes i)) ≡ some r)
        × FirstEnd Good timeout pause probes r
  first_end timeout pause probes h =
      let (r, e, x) = wait_ends timeout pause (λ i. round_of accept (probes i)) h in
      (r, e, FirstEnd-EndsBy timeout pause probes r x)

wait_for_subscriber_ends :
    (subject : Text) (timeout : ℕ) (subsz : ℕ → Probe (Option (List Text)))
    → (r : Ended (Unit {0})) × (wait_for_subscriber subject timeout subsz ≡ some r)
      × FirstEnd (Lists subject) timeout 100 subsz r
unfolding wait_for_subscriber
wait_for_subscriber_ends subject timeout subsz =
    first_end (subscribed subject) (Lists subject) (subscribed_iff subject) timeout 100 subsz
      (omega arith)

wait_for_subscriber_http_ends :
    (subject : Text) (timeout : ℕ) (get : ℕ → Probe Reply)
    → (r : Ended (Unit {0})) × (wait_for_subscriber_http subject timeout get ≡ some r)
      × FirstEnd (Names subject) timeout 200 get r
unfolding wait_for_subscriber_http
wait_for_subscriber_http_ends subject timeout get =
    first_end (body_names subject) (Names subject) (body_names_iff subject) timeout 200 get
      (omega arith)

healthy_iff : (r : Reply) → (healthy r ≡ some tt) ↔ IsOk r
unfolding healthy
healthy_iff failed = (λ h. cc, λ h. absurd h)
healthy_iff (replied status body) = ground arith

wait_http_healthy_ends :
    (timeout : ℕ) (get : ℕ → Probe Reply)
    → (r : Ended (Unit {0})) × (wait_http_healthy timeout get ≡ some r)
      × FirstEnd IsOk timeout 300 get r
unfolding wait_http_healthy
wait_http_healthy_ends timeout get =
    first_end healthy IsOk healthy_iff timeout 300 get (omega arith)

-- The three waits that no process can cut short always end: at the first good answer to a request sent
-- before the deadline, or when the next request would be sent at the deadline or later, all before it
-- with no good answer. Good is, for a subscriber, an answer of the broker that lists the
-- subject; at the monitoring endpoint, a body in which the subject stands between quotation marks;
-- for a service's health, the status 200. Errors only cost time.
pub waits_end :
    (subject : Text) (timeout : ℕ) (subsz : ℕ → Probe (Option (List Text)))
    (monitor get : ℕ → Probe Reply)
    → ((r : Ended (Unit {0})) × (wait_for_subscriber subject timeout subsz ≡ some r)
        × FirstEnd (Lists subject) timeout 100 subsz r)
      × ((r : Ended (Unit {0})) × (wait_for_subscriber_http subject timeout monitor ≡ some r)
          × FirstEnd (Names subject) timeout 200 monitor r)
      × ((r : Ended (Unit {0})) × (wait_http_healthy timeout get ≡ some r)
          × FirstEnd IsOk timeout 300 get r)
waits_end subject timeout subsz monitor get = (
  wait_for_subscriber_ends subject timeout subsz,
  wait_for_subscriber_http_ends subject timeout monitor,
  wait_http_healthy_ends timeout get,
)
