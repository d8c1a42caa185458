-- ===== src/Waits/Ready.antt =====
-- internal/harness/node.go, internal/harness/compose.go: when a node counts as ready.
use e2e.Base.{ℕ, ◌*◌, ◌≤◌, ◌<◌, ◌≡◌, Bool, true, false, none, some, arith}
use e2e.Poll.{Ended, got, timed_out, died, Round}
use e2e.Poll.Deadline.{begins, wait_ends, EndsBy}
use e2e.Waits.{Probe, Reply, failed, replied, healthy, wait_healthy}

-- The request was answered with the status 200.
abbrev pub IsOk : Reply → Type 0
IsOk failed = ⊥
IsOk (replied status body) = status ≡ 200

healthy-some : (r : Reply) (u : Unit {0}) → healthy r ≡ some u → IsOk r
unfolding healthy
healthy-some failed u h = cc
healthy-some (replied status body) u h = ground arith

healthy-none : (r : Reply) → healthy r ≡ none → ¬ IsOk r
unfolding healthy
healthy-none failed h = λ ok. ok
healthy-none (replied status body) h = ground arith

-- When a request is sent: after the requests before it and a pause behind each.
abbrev pub sent_at : {A : Type 0} → ℕ → (ℕ → Probe A) → ℕ → ℕ
sent_at pause probes = begins (λ i. (probes i).took) pause

-- How a wait for a node ends, by the node's exits and the answers to the requests: request `k` is the
-- first good one, the one that was not sent because the process had exited, or the one that would have
-- been sent too late.
abbrev pub HealthyEnd : (ℕ → Bool) → (ℕ → Probe Reply) → Ended (Unit {0}) → Type 0
HealthyEnd exited get (got _ t) =
    (k : ℕ) × (exited k ≡ false)
    × IsOk (get k).answer
    × ((j : ℕ) → j < k → (exited j ≡ false) × ¬ IsOk (get j).answer)
    × (sent_at 200 get k < 90 * 1000)
HealthyEnd exited get (timed_out t) =
    (k : ℕ) × (t ≡ sent_at 200 get k)
    × (90 * 1000 ≤ t)
    × ((j : ℕ) → j < k → (exited j ≡ false) × ¬ IsOk (get j).answer)
    × ((j : ℕ) → j < k → sent_at 200 get j < 90 * 1000)
HealthyEnd exited get (died t) =
    (k : ℕ) × (t ≡ sent_at 200 get k)
    × (t < 90 * 1000)
    × (exited k ≡ true)
    × ((j : ℕ) → j < k → (exited j ≡ false) × ¬ IsOk (get j).answer)

watch : (ℕ → Bool) → (ℕ → Probe Reply) → ℕ → Round (Unit {0})
watch exited get i = record {
  exited = exited i;
  found = healthy (get i).answer;
  cost = (get i).took;
}

HealthyEnd-EndsBy :
    (exited : ℕ → Bool) (get : ℕ → Probe Reply) (r : Ended (Unit {0}))
    → EndsBy (90 * 1000) 200 (watch exited get) r
    → HealthyEnd exited get r
unfolding watch
HealthyEnd-EndsBy exited get (got u t) (k, alive, found, quiet, early, at) = (
  k,
  alive,
  healthy-some (get k).answer u found,
  λ j h. ((quiet j h).0, healthy-none (get j).answer (quiet j h).1),
  early,
)
HealthyEnd-EndsBy exited get (timed_out t) (k, at, late, quiet, early) =
    (k, at, late, λ j h. ((quiet j h).0, healthy-none (get j).answer (quiet j h).1), early)
HealthyEnd-EndsBy exited get (died t) (k, at, early, dead, quiet) =
    (k, at, early, dead, λ j h. ((quiet j h).0, healthy-none (get j).answer (quiet j h).1))

-- Waiting for a node's process always ends. It returns at the first answer with the status 200, if
-- the process has not exited by then; it fails at the first round that finds the process exited,
-- before the deadline of 90 s; otherwise it times out when the next request would be sent at 90 s or
-- later, and until then no request, all sent before the deadline, had such an answer.
pub wait_healthy_ends :
    (exited : ℕ → Bool) (get : ℕ → Probe Reply)
    → (r : Ended (Unit {0})) × (wait_healthy exited get ≡ some r) × HealthyEnd exited get r
unfolding wait_healthy watch
wait_healthy_ends exited get =
    let (r, e, x) = wait_ends (90 * 1000) 200 (watch exited get) (omega arith) in
    (r, e, HealthyEnd-EndsBy exited get r x)
